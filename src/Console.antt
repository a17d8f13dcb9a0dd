-- ===== src/Console.antt =====
-- The forms by which an admin extends the catalog: mobile/apps/admin/components/catalog-forms.tsx, and
-- the card of a service in mobile/apps/admin/app/(app)/services/page.tsx. A mutation is pending from
-- the press to its answer, and its error goes with the next press. `number_or t d` is
-- `Number(t) || d`, whose numbers are a parameter.
pub mod Services
pub mod Forms
use sethu_care.Prelude.{
  ℕ, ◌+◌, Bool, true, false, not, ◌||◌, String, Option, none, some, List, [], ◌∷◌, str_eq,
  if◌then◌else◌,
}
use sethu_care.Text.{is_truthy, or_empty}

-- `useMutation` of the query library, as the forms read it, with the requests that were sent, newest
-- first, and how many of them were answered.
pub record Mutation (R : Type 0) : Type 0 where
  pub is_pending : Bool
  pub is_error : Bool
  pub sent : List R
  pub answered : ℕ

abbrev pub unused : {R : Type 0} → Mutation R
unused = record { is_pending = false; is_error = false; sent = []; answered = 0 }

abbrev pub mutate : {R : Type 0} → Mutation R → R → Mutation R
mutate m r = record m { is_pending = true; is_error = false; sent = r ∷ m.sent }

abbrev pub settle : {R : Type 0} → Mutation R → Bool → Mutation R
settle m failed = record m { is_pending = false; is_error = failed; answered = m.answered + 1 }

abbrev is_blank : String → Bool
is_blank t = str_eq t ""

-- `NewCategoryForm`.
pub record CategoryRequest (N : Type 0) : Type 0 where
  pub name : String
  pub slug : String
  pub sort_order : N

pub record CategoryForm (N : Type 0) : Type 0 where
  pub name : String
  pub slug : String
  pub sort_order : String
  pub create : Mutation (CategoryRequest N)

pub data CategoryEvent : Type 0 where
  category_name category_slug category_order : String → CategoryEvent
  category_pressed category_created category_refused : CategoryEvent

abbrev pub new_category : {N : Type 0} → CategoryForm N
new_category = record { name = ""; slug = ""; sort_order = "0"; create = unused }

-- `disabled` of its button.
unfoldable pub category_disabled : {N : Type 0} → CategoryForm N → Bool
category_disabled f = f.create.is_pending || (is_blank f.name || is_blank f.slug)

-- `NewServiceForm`.
pub record ServiceRequest (N : Type 0) : Type 0 where
  pub category_id : String
  pub name : String
  pub slug : String
  pub description : String
  pub assignment_mode : String
  pub estimated_minutes : N

pub record ServiceForm (N : Type 0) : Type 0 where
  pub category_id : String
  pub name : String
  pub slug : String
  pub description : String
  pub mode : String
  pub minutes : String
  pub create : Mutation (ServiceRequest N)

pub data ServiceEvent : Type 0 where
  service_category service_mode service_name service_slug : String → ServiceEvent
  service_description service_minutes : String → ServiceEvent
  service_pressed service_created service_refused : ServiceEvent

abbrev pub new_service : {N : Type 0} → ServiceForm N
new_service = record {
  category_id = "";
  name = "";
  slug = "";
  description = "";
  mode = "AUTO";
  minutes = "60";
  create = unused;
}

unfoldable pub service_disabled : {N : Type 0} → ServiceForm N → Bool
service_disabled f =
    f.create.is_pending || (is_blank f.category_id || (is_blank f.name || is_blank f.slug))

module _ {N : Type 0} (number_or : String → ℕ → N) where
  unfoldable pub category_step : CategoryForm N → CategoryEvent → CategoryForm N
  unfolding category_disabled
  category_step f (category_name t) = record f { name = t }
  category_step f (category_slug t) = record f { slug = t }
  category_step f (category_order t) = record f { sort_order = t }
  category_step f category_pressed = if category_disabled f then f else record f {
    create =
        mutate f.create
          (record { name = f.name; slug = f.slug; sort_order = number_or f.sort_order 0 });
  }
  category_step f category_created =
      if f.create.is_pending
      then record f { name = ""; slug = ""; sort_order = "0"; create = settle f.create false }
      else f
  category_step f category_refused =
      if f.create.is_pending then record f { create = settle f.create true } else f

  unfoldable pub service_request : ServiceForm N → ServiceRequest N
  service_request f = record {
    category_id = f.category_id;
    name = f.name;
    slug = f.slug;
    description = f.description;
    assignment_mode = f.mode;
    estimated_minutes = number_or f.minutes 60;
  }

  unfoldable pub service_step : ServiceForm N → ServiceEvent → ServiceForm N
  unfolding service_disabled service_request
  service_step f (service_category t) = record f { category_id = t }
  service_step f (service_mode t) = record f { mode = t }
  service_step f (service_name t) = record f { name = t }
  service_step f (service_slug t) = record f { slug = t }
  service_step f (service_description t) = record f { description = t }
  service_step f (service_minutes t) = record f { minutes = t }
  service_step f service_pressed =
      if service_disabled f then f else record f { create = mutate f.create (service_request f) }
  service_step f service_created =
      if f.create.is_pending
      then record f { name = ""; slug = ""; description = ""; create = settle f.create false }
      else f
  service_step f service_refused =
      if f.create.is_pending then record f { create = settle f.create true } else f

  unfoldable pub service_run : ServiceForm N → List ServiceEvent → ServiceForm N
  service_run f [] = f
  service_run f (e ∷ es) = service_run (service_step f e) es

-- The form of `ServiceCard` for a new variant, with the id of its service.
pub record VariantRequest : Type 0 where
  pub service_id : String
  pub name : String
  pub price : String

pub record VariantForm : Type 0 where
  pub service_id : Option String
  pub name : String
  pub price : String
  pub add : Mutation VariantRequest

pub data VariantEvent : Type 0 where
  variant_name variant_price : String → VariantEvent
  variant_pressed variant_added variant_refused : VariantEvent

abbrev pub new_variant : Option String → VariantForm
new_variant id = record { service_id = id; name = ""; price = ""; add = unused }

unfoldable pub variant_disabled : VariantForm → Bool
variant_disabled f =
    f.add.is_pending || (is_blank f.name || (is_blank f.price || not (is_truthy f.service_id)))

unfoldable pub variant_step : VariantForm → VariantEvent → VariantForm
unfolding variant_disabled
variant_step f (variant_name t) = record f { name = t }
variant_step f (variant_price t) = record f { price = t }
variant_step f variant_pressed = if variant_disabled f then f else record f {
  add =
      mutate f.add (record { service_id = or_empty f.service_id; name = f.name; price = f.price });
}
variant_step f variant_added =
    if f.add.is_pending then record f { name = ""; price = ""; add = settle f.add false } else f
variant_step f variant_refused =
    if f.add.is_pending then record f { add = settle f.add true } else f

unfoldable pub variant_run : VariantForm → List VariantEvent → VariantForm
variant_run f [] = f
variant_run f (e ∷ es) = variant_run (variant_step f e) es
