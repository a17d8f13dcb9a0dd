-- ===== src/Address/Requests.antt =====
-- The addresses that the customer app asks the backend to save.
use Prim.Native.Char.{Char}
use sethu_care.Prelude.{
  ◌≡◌, refl, ◌⊎◌, inl, inr, true, false, String, none, some, List, [], ◌∷◌, str_eq, arith,
  Bool-cases, eq_iff,
}
use sethu_care.Text.{
  if_truthy, is_digit, is_blank, is_digits, trim, trim_start, trim_end, trim-trim,
}
use sethu_care.Text.Digits.{
  keep_digits, all_digits, keep_digits-all_digits, slice-all_digits, is_digits-all_digits,
  text_length-is_digits,
}
use sethu_care.Address.{
  CreateAddressRequest, AddressForm, FormEvent, type_label, type_pincode, initial_form, form_step,
  form_run, can_save, request_of, save,
}

digit-not_blank : (c : Char) → is_digit c ≡ true → is_blank c ≡ false
digit-not_blank c h = ground arith

trim_start-digits : (t : String) → all_digits t ≡ true → trim_start t ≡ t
unfolding trim_start
trim_start-digits String.[] h = refl
trim_start-digits (String.◌∷◌ c t) h = ground (arith, digit-not_blank c)

trim_end-digits : (t : String) → all_digits t ≡ true → trim_end t ≡ t
unfolding trim_end
trim_end-digits String.[] h = refl
trim_end-digits (String.◌∷◌ c t) h = ground (arith, digit-not_blank c, trim_end-digits t)

trim-digits : (t : String) → all_digits t ≡ true → trim t ≡ t
unfolding trim
trim-digits t h = rw (trim_start-digits t h) (trim_end-digits t h)

step-all_digits :
    (f : AddressForm) (e : FormEvent)
    → all_digits f.pincode ≡ true
    → all_digits (form_step f e).pincode ≡ true
unfolding form_step
step-all_digits f (type_pincode t) h = slice-all_digits 6 (keep_digits t) (keep_digits-all_digits t)
step-all_digits f (type_label t) h = h
step-all_digits f _ h = h

run-all_digits :
    (f : AddressForm) (es : List FormEvent)
    → all_digits f.pincode ≡ true
    → all_digits (form_run f es).pincode ≡ true
unfolding form_run
run-all_digits f [] h = h
run-all_digits f (e ∷ es) h = run-all_digits (form_step f e) es (step-all_digits f e h)

-- A request to save an address with nothing blank around its texts, and six digits in its pincode.
pub record IsClean (r : CreateAddressRequest) : Type 0 where
  pub line1_trimmed : trim r.line1 ≡ r.line1
  pub line1_given : str_eq r.line1 "" ≡ false
  pub city_trimmed : trim r.city ≡ r.city
  pub city_given : str_eq r.city "" ≡ false
  pub pincode_digits : is_digits 6 r.pincode ≡ true

-- What keeps a form from being saved.
abbrev pub LacksField : AddressForm → Type 0
LacksField f = (trim f.line1 ≡ "") ⊎ ((trim f.city ≡ "") ⊎ (is_digits 6 f.pincode ≡ false))

-- The request carries what the form holds.
pub record Carries (f : AddressForm) (r : CreateAddressRequest) : Type 0 where
  pub line1 : r.line1 ≡ trim f.line1
  pub city : r.city ≡ trim f.city
  pub pincode : r.pincode ≡ f.pincode
  pub line2 : r.line2 ≡ if_truthy (some (trim f.line2))
  pub label : r.label ≡ if_truthy (some (trim f.label))

request_of-Carries : (f : AddressForm) → all_digits f.pincode ≡ true → Carries f (request_of f)
request_of-Carries f digits = record {
  line1 = refl;
  city = refl;
  pincode = trim-digits f.pincode digits;
  line2 = ground arith;
  label = ground arith;
}

request_of-IsClean :
    (f : AddressForm) → all_digits f.pincode ≡ true → can_save f ≡ true → IsClean (request_of f)
unfolding can_save
request_of-IsClean f digits e =
    let same = trim-digits f.pincode digits in
    record {
      line1_trimmed = trim-trim f.line1;
      line1_given = ground arith;
      city_trimmed = trim-trim f.city;
      city_given = ground arith;
      pincode_digits = rw same (is_digits-all_digits 6 f.pincode digits (ground (arith, same)));
    }

-- A form that cannot be saved lacks a field.
can_save-LacksField :
    (f : AddressForm) → all_digits f.pincode ≡ true → can_save f ≡ false → LacksField f
unfolding can_save
can_save-LacksField f digits e = elim (Bool-cases (str_eq (trim f.line1) "")) [
  | inl l ↦ inl ((eq_iff _ _).0 l)
  | inr l ↦ elim (Bool-cases (str_eq (trim f.city) "")) [
    | inl c ↦ inr (inl ((eq_iff _ _).0 c))
    | inr c ↦ elim (Bool-cases (is_digits 6 f.pincode)) [
      | inr d ↦ inr (inr d)
      | inl d ↦
          let six = text_length-is_digits 6 f.pincode d in
          let same = trim-digits f.pincode digits in absurd (ground (arith, six, same))
    ]
  ]
]

-- Whatever is typed into the form of the sheet: it cannot be saved, and its first line or its city is
-- blank or its pincode is not six digits; or none of that is so, and the request that is sent carries
-- the form's texts, trimmed, and its pincode.
pub save-form_run :
    (es : List FormEvent)
    → let f = form_run initial_form es in
      ((save f ≡ none) × LacksField f)
      ⊎ ((r : CreateAddressRequest) × (save f ≡ some r) × IsClean r × Carries f r)
unfolding save
save-form_run es =
    let f = form_run initial_form es in
    let digits = run-all_digits initial_form es refl in
    elim (Bool-cases (can_save f)) [
      | inr e ↦ inl (rw e refl, can_save-LacksField f digits e)
      | inl e ↦
          inr (request_of f, rw e refl, request_of-IsClean f digits e, request_of-Carries f digits)
    ]
