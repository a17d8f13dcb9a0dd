-- ===== src/Catalog.antt =====
-- Finding a service: the search screen mobile/apps/customer/src/app/search.tsx, the service screen
-- app/service/[id].tsx beside it, and `sampleRating` of mobile/packages/ui/src/service-images.ts.
-- `toLowerCase` is a parameter. A text that is looked up in the locale files stands by its key.
pub mod Search
pub mod Choice
pub mod Rating
pub mod Page
use sethu_care.Prelude.{
  ℕ, ◌+◌, ◌*◌, ◌%◌, Bool, true, false, ◌||◌, String, Option, none, some, List, [], ◌∷◌, str_eq,
  if◌then◌else◌, find, keep, take,
}
use sethu_care.Text.{if_truthy, is_truthy, or_empty, or_else, or_option, trim}
use sethu_care.Text.Search.{includes_text}
use sethu_care.Device.{Device}
use sethu_care.Preferences.{Preferences, Json, add_recent_search}

pub record Variant : Type 0 where
  pub id : Option String
  pub name : Option String
  pub price_paise : Option ℕ

-- `ServiceResponse`, with what the screens read of it.
pub record Service : Type 0 where
  pub id : Option String
  pub slug : Option String
  pub name : Option String
  pub description : Option String
  pub estimated_minutes : Option ℕ
  pub variants : Option (List Variant)

abbrev pub first_of {ℓ} : {A : Type ℓ} → List A → Option A
first_of [] = none
first_of (x ∷ xs) = some x

abbrev variants_of : Option Service → List Variant
variants_of none = []
variants_of (some s) = or_else s.variants []

abbrev price_of : Option Variant → Option ℕ
price_of none = none
price_of (some v) = v.price_paise

-- The price that a row of the search screen shows, and the visit fee of the service screen.
unfoldable pub price_label : Service → Option ℕ
price_label s = price_of (first_of (variants_of (some s)))

unfoldable pub trending : List Service → List Service
trending services = take 6 services

-- `/service/[id]`, `/book/confirm`, and the two ways back.
pub data Route : Type 0 where
  service_route : String → Route
  confirm_route : (variant_id variant_name : String) (price_paise : ℕ) → Route
  back home : Route

module _ (lower : String → String) where
  unfoldable pub needle : String → String
  needle query = lower (trim query)

  unfoldable pub matches : String → Service → Bool
  matches part s =
      includes_text (lower (or_empty s.name)) part
      || includes_text (lower (or_empty s.description)) part

  unfoldable pub results : List Service → String → List Service
  unfolding needle
  results services query =
      if is_truthy (some (needle query)) then keep (matches (needle query)) services else []

  module _ (json : Json) where
    -- `onSubmitEditing` of the field.
    unfoldable pub submit : Preferences × Device → String → Preferences × Device
    submit s query =
        if is_truthy (some (trim query)) then add_recent_search lower json s (trim query) else s

    -- `open`.
    unfoldable pub open_service :
        Preferences × Device → String → Service → (Preferences × Device) × Option Route
    unfolding submit
    open_service s query service = (
      submit s query,
      (if is_truthy service.id then some (service_route (or_empty service.id)) else none),
    )

-- The service screen: `===` on two ids that may be missing.
abbrev pub same_id : Option String → Option String → Bool
same_id none none = true
same_id (some a) (some b) = str_eq a b
same_id _ _ = false

unfoldable pub selected : List Variant → Option String → Option Variant
selected variants selected_id =
    or_option (find (λ v. same_id v.id selected_id) variants) (first_of variants)

abbrev pub confirm_of : Variant → Route
confirm_of v = confirm_route (or_empty v.id) (or_empty v.name) (or_else v.price_paise 0)

-- `book`.
unfoldable pub book : List Variant → Option String → Option Route
unfolding selected
book variants selected_id = elim (selected variants selected_id) [
  | none ↦ none
  | some v ↦ some (confirm_of v)
]

-- `goBack`.
unfoldable pub go_back : Bool → Route
go_back can_go_back = if can_go_back then back else home

-- What the service screen shows.
pub record ServiceDetail : Type 0 where
  pub name : String
  pub description : Option String
  pub minutes : Option ℕ
  pub visit_fee : Option ℕ
  pub options : List (String × (Option ℕ × Bool))
  pub starting_at : Option (String × Option ℕ)

abbrev pub non_zero : Option ℕ → Option ℕ
non_zero (some ℕ.zero) = none
non_zero n = n

abbrev chosen_id : Option Variant → String
chosen_id none = ""
chosen_id (some v) = or_empty v.id

abbrev option_rows : Option Variant → List Variant → List (String × (Option ℕ × Bool))
option_rows chosen [] = []
option_rows chosen (v ∷ vs) =
    (or_empty v.name, (v.price_paise, same_id (some (chosen_id chosen)) v.id))
    ∷ option_rows chosen vs

abbrev bar_of : Option Variant → Option (String × Option ℕ)
bar_of none = none
bar_of (some v) = some (or_empty v.name, v.price_paise)

abbrev name_of : Option Service → Option String
name_of none = none
name_of (some s) = s.name

abbrev description_of : Option Service → Option String
description_of none = none
description_of (some s) = s.description

abbrev minutes_of : Option Service → Option ℕ
minutes_of none = none
minutes_of (some s) = s.estimated_minutes

unfoldable pub service_detail : Option Service → Option String → ServiceDetail
unfolding selected
service_detail service selected_id = record {
  name = or_empty (name_of service);
  description = if_truthy (description_of service);
  minutes = non_zero (minutes_of service);
  visit_fee = price_of (first_of (variants_of service));
  options = option_rows (selected (variants_of service) selected_id) (variants_of service);
  starting_at = bar_of (selected (variants_of service) selected_id);
}

-- The loop of `sampleRating` over the UTF-16 units of the seed, and the rating in tenths.
unfoldable pub hash_from : ℕ → List ℕ → ℕ
hash_from hash [] = hash
hash_from hash (unit ∷ units) = hash_from ((hash * 31 + unit) % 1000) units

unfoldable pub sample_rating : List ℕ → ℕ
unfolding hash_from
sample_rating units = 46 + hash_from 0 units % 4
