-- ===== src/Storefront/Hero.antt =====
-- The home screen mobile/apps/customer/src/app/(tabs)/index.tsx beside the list of all services,
-- app/categories.tsx.
use sethu_care.Prelude.{
  ℕ, zero, suc, ◌+◌, ◌*◌, ◌/◌, ◌<◌, ◌≡◌, ◌≢◌, refl, ap, Bool, true, false, String, Option, List, [],
  ◌∷◌, map, take, ◌==◌, if◌then◌else◌, arith,
}
use native.Mathlib.Nat.{add-mul-div_right, div-eq_of_lt}
use sethu_care.Storefront.{
  ListedService, Route, ServicesQuery, services_of, hero_slides, hero_page, dots_from, Tile, tile,
  home, HomeBody, HomeContent, content, ServiceRow, service_row, categories, Categories, skeletons,
  skeleton_rows, error_state, error_row, service_rows,
}

-- Where the tiles and the rows lead.
abbrev tile_routes : List Tile → List (Option Route)
tile_routes tiles = map (λ t. t.opens) tiles

abbrev row_routes : List ServiceRow → List (Option Route)
row_routes rows = map (λ r. r.opens) rows

abbrev tiles_of : HomeBody → List Tile
tiles_of (error_state _ _ _) = []
tiles_of skeletons = []
tiles_of (content c) = c.tiles

abbrev rows_of : Categories → List ServiceRow
rows_of (error_row _ _ _) = []
rows_of (skeleton_rows _) = []
rows_of (service_rows rows) = rows

module _ (lower : String → String) (icon : Option String → String)
    (photo image : Option String → Option String) (rating : Option String → ℕ) where
  routes-agree :
      (n : ℕ) (services : List ListedService)
      → tile_routes (map (tile lower icon photo image rating) (take n services))
        ≡ take n (row_routes (map (service_row lower icon photo image rating) services))
  unfolding tile service_row
  routes-agree zero services = refl
  routes-agree (suc n) [] = refl
  routes-agree (suc n) (s ∷ services) = rw (routes-agree n services) refl

  agree :
      (is_error is_loading : Bool) (failed : HomeBody) (failed_list : Categories)
      (made shown : HomeContent) (waiting : ℕ) (made_rows rows : List ServiceRow)
      → ((is_error ≡ true) → ((shown : HomeContent) → failed ≢ content shown))
      → tile_routes made.tiles ≡ take 8 (row_routes made_rows)
      → (if is_error then failed else if is_loading then skeletons else content made)
        ≡ content shown
      → (if is_error
          then failed_list
          else if is_loading
          then skeleton_rows waiting
          else service_rows made_rows)
        ≡ service_rows rows
      → tile_routes shown.tiles ≡ take 8 (row_routes rows)
  agree true is_loading failed failed_list made shown waiting made_rows rows f same h k =
      absurd (f refl shown h)
  agree false true failed failed_list made shown waiting made_rows rows f same h k = cc
  agree false false failed failed_list made shown waiting made_rows rows f same h k =
      let tiles_same = ap tiles_of h in
      let rows_same = ap rows_of k in rw (← tiles_same, ← rows_same) same

  -- Once the services are there, the grid of the home screen leads, place by place, where the first
  -- eight rows of the whole list lead.
  pub home-categories :
      (query : ServicesQuery) (hero_index : ℕ) (shown : HomeContent) (rows : List ServiceRow)
      → (home lower icon photo image rating query hero_index).body ≡ content shown
      → categories lower icon photo image rating query ≡ service_rows rows
      → tile_routes shown.tiles ≡ take 8 (row_routes rows)
  unfolding home categories
  home-categories query hero_index shown rows h k =
      agree query.is_error query.is_loading _ _ _ shown 5 _ rows (λ _ c e. cc)
        (routes-agree 8 (services_of query.services)) h k

at_slide : (k width : ℕ) → 0 < width → (2 * (k * width) + width) / (2 * width) ≡ k
at_slide k width h =
    let same : 2 * (k * width) + width ≡ width + k * (2 * width) = omega arith in
    let whole = add-mul-div_right width k {z = 2 * width} (omega arith) in
    let rest = div-eq_of_lt {n = width} {m = 2 * width} (omega arith) in
    rw (same, whole, rest) (omega arith)

-- A swipe that ends on the slide at place `k` lights its dot and no other.
pub hero_page-dots :
    (k width : ℕ)
    → 0 < width
    → dots_from (hero_page (k * width) width) 0 hero_slides ≡ (k == 0) ∷ (k == 1) ∷ (k == 2) ∷ []
unfolding hero_page
hero_page-dots k width h =
    let quotient : (2 * (k * width) + width) / (2 * width) ≡ k = at_slide k width h in
    rw quotient (ground arith)
