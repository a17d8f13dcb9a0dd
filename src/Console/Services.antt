-- ===== src/Console/Services.antt =====
-- The page of services as it is shown: mobile/apps/admin/app/(app)/services/page.tsx.
use sethu_care.Prelude.{Bool, not, String, Option, none, some, List, [], ◌∷◌, map, if◌then◌else◌}
use Prim.Native.String.{◌++◌ as text_append}
use sethu_care.Text.{if_truthy, or_empty}

-- An element of the list, with what the page reads.
pub record ListedVariant : Type 0 where
  pub name : Option String
  pub price : Option String

pub record ListedService : Type 0 where
  pub id : Option String
  pub name : Option String
  pub description : Option String
  pub assignment_mode : Option String
  pub variants : Option (List ListedVariant)

pub record ServiceCard : Type 0 where
  pub name : Option String
  pub description : Option String
  pub mode_pill : Option String
  pub prices : List (Option String × String)

pub data ServicesBody : Type 0 where
  note : String → ServicesBody
  cards : List ServiceCard → ServicesBody

pub record ServicesView : Type 0 where
  pub manage_label : String
  -- The forms for a new category and a new service are open.
  pub shows_forms : Bool
  pub body : ServicesBody

abbrev variants_of : Option (List ListedVariant) → List ListedVariant
variants_of none = []
variants_of (some vs) = vs

-- A missing price prints as nothing after the sign.
unfoldable pub service_card : ListedService → ServiceCard
service_card s = record {
  name = s.name;
  description = if_truthy s.description;
  mode_pill = if_truthy s.assignment_mode;
  prices = map (λ v. (v.name, text_append "₹" (or_empty v.price))) (variants_of s.variants);
}

abbrev body_of : (is_loading : Bool) → Option (List ListedService) → ServicesBody
body_of is_loading none = note (if is_loading then "Loading…" else "No services yet.")
body_of is_loading (some []) = note (if is_loading then "Loading…" else "No services yet.")
body_of is_loading (some (s ∷ ss)) = cards (map service_card (s ∷ ss))

-- The button that opens and closes the forms.
unfoldable pub press_manage : Bool → Bool
press_manage managing = not managing

-- `ServicesPage`.
unfoldable pub services_page :
    (is_loading : Bool) → Option (List ListedService) → (managing : Bool) → ServicesView
unfolding service_card
services_page is_loading services managing = record {
  manage_label = if managing then "Done" else "Manage catalog";
  shows_forms = managing;
  body = body_of is_loading services;
}
