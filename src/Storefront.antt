-- ===== src/Storefront.antt =====
-- The customer's home screen mobile/apps/customer/src/app/(tabs)/index.tsx and the whole list
-- app/categories.tsx, with the pictures of mobile/packages/ui/src/service-images.ts and
-- lib/error-illustration.ts.
--
-- A picture is the path of its file. `toLowerCase`, the glyph of a name and the placeholder rating are
-- parameters; a text that is looked up in the locale files stands by its key.
pub mod Pictures
pub mod Hero
pub mod Offers
use sethu_care.Prelude.{
  ℕ, ◌+◌, ◌*◌, ◌/◌, ◌≡◌, refl, Bool, true, false, not, ◌&&◌, ◌||◌, String, Option, none, some, List,
  [], ◌∷◌, map, any, take, str_eq, ◌==◌, ltb, if◌then◌else◌,
}
use sethu_care.Text.{is_truthy, or_empty}
use sethu_care.Text.Search.{includes_text}
use sethu_care.Catalog.{Variant, first_of}

-- `ServiceResponse`, with what the two screens show of it.
pub record ListedService : Type 0 where
  pub id : Option String
  pub slug : Option String
  pub name : Option String
  pub description : Option String
  pub variants : Option (List Variant)

pub data Route : Type 0 where
  service_route : String → Route
  offers_route search_route categories_route : Route

pub data Illustration : Type 0 where
  no_connection server_error : Illustration

abbrev dropped_words : List String
dropped_words =
    "network request failed" ∷ "failed to fetch" ∷ "network error" ∷ "timed out" ∷ "timeout"
    ∷ "abort" ∷ []

-- `errorIllustration`, on the message of the error.
unfoldable pub error_illustration : (String → String) → String → Illustration
error_illustration lower message =
    if any (λ word. includes_text (lower message) word) dropped_words
    then no_connection
    else server_error

-- `id && router.push(…)`.
abbrev pub open_service : Option String → Option Route
open_service id = if is_truthy id then some (service_route (or_empty id)) else none

-- What a query over the catalog gives.
pub record ServicesQuery : Type 0 where
  pub services : Option (List ListedService)
  pub is_loading : Bool
  pub is_error : Bool
  pub message : String

abbrev pub services_of : Option (List ListedService) → List ListedService
services_of none = []
services_of (some services) = services

-- A slide of the carousel: its tagline, and the slug of its photo where it is no mascot.
pub record Slide : Type 0 where
  pub key : String
  pub tagline : String
  pub photo_slug : Option String

abbrev pub hero_slides : List Slide
hero_slides =
    record { key = "hero1"; tagline = "common:home.hero1"; photo_slug = none }
    ∷ record { key = "hero2"; tagline = "common:home.hero2"; photo_slug = some "ac-repair" }
    ∷ record { key = "hero3"; tagline = "common:home.hero3"; photo_slug = some "electrical" }
    ∷ []

-- `Math.round(x / width)`.
unfoldable pub hero_page : ℕ → ℕ → ℕ
hero_page x width = (2 * x + width) / (2 * width)

-- Which dots are wide: that of the slide at the index.
abbrev pub dots_from : ℕ → ℕ → List Slide → List Bool
dots_from hero_index index [] = []
dots_from hero_index index (slide ∷ slides) =
    (index == hero_index) ∷ dots_from hero_index (index + 1) slides

pub record Tile : Type 0 where
  pub opens : Option Route
  pub label : Option String
  pub picture : Option String
  pub glyph : String
  pub caption : String

-- The trust row: an icon and a label each, with a line in front of all but the first.
pub record TrustItem : Type 0 where
  pub icon : String
  pub label : String
  pub divided : Bool

abbrev pub trust_row : List TrustItem
trust_row =
    record { icon = "shield"; label = "common:home.trustVerified"; divided = false }
    ∷ record { icon = "checkCircle"; label = "common:home.trustWarranty"; divided = true }
    ∷ record { icon = "phone"; label = "common:home.trustSupport"; divided = true }
    ∷ []

-- The body of the home screen.
pub record HomeContent : Type 0 where
  pub slides : List (Slide × Option String)
  pub dots : List Bool
  pub view_all : Route
  pub tiles : List Tile
  pub offer : Route
  pub trust : List TrustItem

pub data HomeBody : Type 0 where
  error_state : (illustration : Illustration) (title retry_label : String) → HomeBody
  skeletons : HomeBody
  content : HomeContent → HomeBody

-- The screen: the bell and the search field lead on, whatever the query says.
pub record HomeView : Type 0 where
  pub bell : Route
  pub search : Route
  pub body : HomeBody

-- A row of the list of all services.
pub record ServiceRow : Type 0 where
  pub opens : Option Route
  pub label : Option String
  pub picture : Option String
  pub glyph : String
  pub name : String
  pub description : Option String
  pub rating : ℕ
  pub price : Option ℕ

pub data Categories : Type 0 where
  error_row : (illustration : Illustration) (title retry_label : String) → Categories
  skeleton_rows : ℕ → Categories
  service_rows : List ServiceRow → Categories

abbrev price_of : Option Variant → Option ℕ
price_of none = none
price_of (some v) = v.price_paise

abbrev variants_of : Option (List Variant) → List Variant
variants_of none = []
variants_of (some vs) = vs

module _ (lower : String → String) (icon : Option String → String)
    (photo image : Option String → Option String) (rating : Option String → ℕ) where
  unfoldable pub tile : ListedService → Tile
  tile s = record {
    opens = open_service s.id;
    label = s.name;
    picture = image s.slug;
    glyph = icon s.name;
    caption = or_empty s.name;
  }

  abbrev pub slide_picture : Slide → Option String
  slide_picture slide = elim slide.photo_slug [
    | none ↦ some "technician.png"
    | some slug ↦ photo (some slug)
  ]

  -- `Home`.
  unfoldable pub home : ServicesQuery → (hero_index : ℕ) → HomeView
  unfolding error_illustration tile
  home query hero_index = record {
    bell = offers_route;
    search = search_route;
    body =
        if query.is_error
        then error_state (error_illustration lower query.message) "common:errors.generic"
            "common:actions.retry"
        else if query.is_loading
        then skeletons
        else content record {
          slides = map (λ slide. (slide, slide_picture slide)) hero_slides;
          dots = dots_from hero_index 0 hero_slides;
          view_all = categories_route;
          tiles = map tile (take 8 (services_of query.services));
          offer = categories_route;
          trust = trust_row;
        };
  }

  unfoldable pub service_row : ListedService → ServiceRow
  service_row s = record {
    opens = open_service s.id;
    label = s.name;
    picture = image s.slug;
    glyph = icon s.name;
    name = or_empty s.name;
    description = if is_truthy s.description then s.description else none;
    rating = rating s.id;
    price = price_of (first_of (variants_of s.variants));
  }

  -- `Categories`: the rows, or what stands for them where there are none.
  unfoldable pub categories : ServicesQuery → Categories
  unfolding error_illustration service_row
  categories query =
      if query.is_error
      then error_row (error_illustration lower query.message) "common:errors.generic"
          "common:actions.retry"
      else if query.is_loading
      then skeleton_rows 5
      else service_rows (map service_row (services_of query.services))
