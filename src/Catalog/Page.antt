-- ===== src/Catalog/Page.antt =====
-- The search screen as a whole, mobile/apps/customer/src/app/search.tsx, and the card of a service,
-- features/catalog/components/service-card.tsx beside it. `toLowerCase`, the glyph of a name, the
-- picture of a slug and the placeholder rating are parameters, and a price label is the price in it.
pub mod Recall
use sethu_care.Prelude.{
  ℕ, zero, suc, ◌≡◌, Bool, true, false, not, String, Option, none, some, List, [], ◌∷◌, map, str_eq,
  if◌then◌else◌, Bool-cases,
}
use sethu_care.Text.{if_truthy, is_truthy, or_empty}
use sethu_care.Device.{Device}
use sethu_care.Preferences.{Preferences, Json, clear_recent_searches}
use sethu_care.Catalog.{
  Service, Route, needle, results, trending, price_label, submit, open_service, go_back, non_zero,
}

-- A service that was found, or that is trending.
pub record Row : Type 0 where
  pub spoken : Option String
  pub picture : Option String
  pub glyph : String
  pub name : String
  pub price : Option ℕ

pub data SearchBody : Type 0 where
  -- `EmptyState` with the query as it was typed.
  no_results : String → SearchBody
  found : List Row → SearchBody
  -- The recent searches, where there are any, and the trending services.
  prompts : Option (List String) → List Row → SearchBody

pub record SearchView : Type 0 where
  pub clear_button : Bool
  pub body : SearchBody

-- The card: the badge and the count of reviews are the same on each.
pub record CardView : Type 0 where
  pub spoken : Option String
  pub picture : Option String
  pub glyph : String
  pub badge : String
  pub name : String
  pub rating : ℕ
  pub review_count : String
  pub description : Option String
  pub minutes : Option ℕ
  pub starting_at : Option ℕ

abbrev recent_section : List String → Option (List String)
recent_section [] = none
recent_section (t ∷ ts) = some (t ∷ ts)

module _ (icon : Option String → String) (image : Option String → Option String) where
  unfoldable pub row : Service → Row
  unfolding price_label
  row s = record {
    spoken = s.name;
    picture = image s.slug;
    glyph = icon s.name;
    name = or_empty s.name;
    price = price_label s;
  }

  abbrev pub found_or_none : String → List Service → SearchBody
  found_or_none query [] = no_results query
  found_or_none query (s ∷ ss) = found (map row (s ∷ ss))

  -- `Search`.
  unfoldable pub search_view :
      (lower : String → String)
      → List Service
      → (query : String) → (recent : List String) → SearchView
  unfolding needle results trending
  search_view lower services query recent = record {
    clear_button = not (str_eq query "");
    body =
        if is_truthy (some (needle lower query))
        then found_or_none query (results lower services query)
        else prompts (recent_section recent) (map row (trending services));
  }

  -- `ServiceCard`.
  unfoldable pub service_card : (rating : Option String → ℕ) → Service → CardView
  unfolding price_label
  service_card rating s = record {
    spoken = s.name;
    picture = image s.slug;
    glyph = icon s.name;
    badge = "common:home.verified";
    name = or_empty s.name;
    rating = rating s.id;
    review_count = "2.1k";
    description = if_truthy s.description;
    minutes = non_zero s.estimated_minutes;
    starting_at = price_label s;
  }

-- The item at a place.
abbrev pub get_elem? {ℓ} : {A : Type ℓ} → ℕ → List A → Option A
get_elem? i [] = none
get_elem? zero (x ∷ xs) = some x
get_elem? (suc i) (x ∷ xs) = get_elem? i xs

-- The screen: what is typed, and the store with its device.
pub record SearchScreen : Type 0 where
  pub query : String
  pub store : Preferences × Device

-- What is pressed on the screen; a service and a recent search by its place.
pub data Event : Type 0 where
  type_query : String → Event
  press_back : (can_go_back : Bool) → Event
  press_clear press_submit press_clear_recent : Event
  press_recent press_service : ℕ → Event

module _ (lower : String → String) (json : Json) (services : List Service) where
  -- The services on the screen.
  unfoldable pub shown : String → List Service
  unfolding needle results trending
  shown query =
      if is_truthy (some (needle lower query))
      then results lower services query
      else trending services

  abbrev pub query_of : Option String → String → String
  query_of none query = query
  query_of (some t) query = t

  -- A press on a service that is there.
  unfoldable pub open_shown : SearchScreen → Option Service → SearchScreen × Option Route
  unfolding open_service
  open_shown s none = (s, none)
  open_shown s (some service) =
      let opened = open_service lower json s.store s.query service in
      (record s { store = opened.0 }, opened.1)

  unfoldable pub step : SearchScreen → Event → SearchScreen × Option Route
  unfolding open_shown submit clear_recent_searches go_back shown
  step s (type_query t) = (record s { query = t }, none)
  step s (press_back can_go_back) = (s, some (go_back can_go_back))
  step s press_clear = (record s { query = "" }, none)
  step s press_submit = (record s { store = submit lower json s.store s.query }, none)
  step s press_clear_recent = (record s { store = clear_recent_searches json s.store }, none)
  step s (press_recent i) =
      (record s { query = query_of (get_elem? i s.store.0.recent_searches) s.query }, none)
  step s (press_service i) = open_shown s (get_elem? i (shown s.query))

  unfoldable pub run : SearchScreen → List Event → SearchScreen
  run s [] = s
  run s (e ∷ es) = run (step s e).0 es
