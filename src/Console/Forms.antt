-- ===== src/Console/Forms.antt =====
-- What the forms of the console send.
use sethu_care.Prelude.{
  ℕ, ◌+◌, ◌≡◌, true, false, String, Option, some, List, [], ◌∷◌, arith, str_eq, length, All,
  if◌then◌else◌,
}
use sethu_care.Text.{is_truthy, is_truthy-or_empty}
use sethu_care.Console.{
  Mutation, ServiceRequest, ServiceForm, ServiceEvent, service_category, new_service, service_step,
  service_run, VariantRequest, VariantForm, VariantEvent, variant_name, new_variant, variant_step,
  variant_run,
}

-- Each request was answered, but for one if the mutation is pending.
pub record IsSettled {R : Type 0} (m : Mutation R) : Type 0 where
  pub counted : length m.sent ≡ m.answered + (if m.is_pending then 1 else 0)

abbrev pub IsGiven : {N : Type 0} → ServiceRequest N → Type 0
IsGiven r =
    (str_eq r.category_id "" ≡ false) × (str_eq r.name "" ≡ false) × (str_eq r.slug "" ≡ false)

abbrev pub IsPriced : VariantRequest → Type 0
IsPriced r =
    (is_truthy (some r.service_id) ≡ true)
    × (str_eq r.name "" ≡ false)
    × (str_eq r.price "" ≡ false)

module _ {N : Type 0} (number_or : String → ℕ → N) where
  pub record IsSound (f : ServiceForm N) : Type 0 where
    pub settled : IsSettled f.create
    pub given : All IsGiven f.create.sent

  service_step-IsSound :
      (f : ServiceForm N) (e : ServiceEvent) → IsSound f → IsSound (service_step number_or f e)
  unfolding service_step
  service_step-IsSound f (service_category t) h = ground arith
  service_step-IsSound f e h = ground arith

  run_from-IsSound :
      (f : ServiceForm N) (es : List ServiceEvent)
      → IsSound f
      → IsSound (service_run number_or f es)
  unfolding service_run
  run_from-IsSound f [] h = h
  run_from-IsSound f (e ∷ es) h =
      run_from-IsSound (service_step number_or f e) es (service_step-IsSound f e h)

  -- Whatever is typed, chosen, pressed and answered in the form of a new service: every request has a
  -- category, a name and a slug, and a second one is sent only after the first was answered.
  pub service_run-IsSound :
      (es : List ServiceEvent) → IsSound (service_run number_or new_service es)
  service_run-IsSound es = run_from-IsSound new_service es (ground arith)

pub record IsSoundVariant (f : VariantForm) : Type 0 where
  pub settled : IsSettled f.add
  pub given : All IsPriced f.add.sent

variant_step-IsSoundVariant :
    (f : VariantForm) (e : VariantEvent) → IsSoundVariant f → IsSoundVariant (variant_step f e)
unfolding variant_step
variant_step-IsSoundVariant f (variant_name t) h = ground arith
variant_step-IsSoundVariant f e h = ground (arith, is_truthy-or_empty f.service_id)

run_from-IsSoundVariant :
    (f : VariantForm) (es : List VariantEvent)
    → IsSoundVariant f
    → IsSoundVariant (variant_run f es)
unfolding variant_run
run_from-IsSoundVariant f [] h = h
run_from-IsSoundVariant f (e ∷ es) h =
    run_from-IsSoundVariant (variant_step f e) es (variant_step-IsSoundVariant f e h)

-- Whatever is typed, pressed and answered in the form of a new variant: every request names a service
-- that has an id, and has a name and a price, and a second one is sent only after the first was
-- answered.
pub variant_run-IsSoundVariant :
    (id : Option String) (es : List VariantEvent) → IsSoundVariant (variant_run (new_variant id) es)
variant_run-IsSoundVariant id es = run_from-IsSoundVariant (new_variant id) es (ground arith)
