-- ===== src/Checkout/Totals.antt =====
-- What the checkout totals promise.
use sethu_care.Prelude.{
  ℕ, ◌+◌, ◌≤◌, ◌<◌, ◌≡◌, refl, ◌⊎◌, inl, inr, Bool, true, false, not, String, Option, none, some,
  arith, str_eq, Bool-cases,
}
use sethu_care.Text.{trim}
use sethu_care.Checkout.{
  percent, flat, percent_off, find_rule, discount_for, rule_of, label_for, compute_checkout,
  code_of,
}

-- The rules that a code can name.
rule-cases :
    (upper : String → String) (promo : Option String)
    → (rule_of upper promo ≡ none)
      ⊎ ((rule_of upper promo ≡ some (record { kind = percent; value = 20; label = "20% off" }))
          ⊎ ((rule_of upper promo
                ≡ some (record { kind = flat; value = 10000; label = "₹100 off" }))
              ⊎ (rule_of upper promo
                  ≡ some (record { kind = flat; value = 15000; label = "₹150 off" }))))
unfolding rule_of find_rule
rule-cases upper promo = ground arith

label_of_none :
    (code : String) (member : Bool) → label_for code none member ≡ label_for "" none member
unfolding label_for
label_of_none code true = refl
label_of_none code false = refl

module _ (upper : String → String) where
  -- The discount is never more than the price, what is left to pay and the discount make up the
  -- price, and the price is passed on unchanged.
  pub checkout_adds_up :
      (base : ℕ) (promo : Option String) (member : Bool)
      → let totals = compute_checkout upper base promo member in
        (totals.discount_paise ≤ base)
        × (totals.final_paise + totals.discount_paise ≡ base)
        × (totals.base_paise ≡ base)
  unfolding compute_checkout
  checkout_adds_up base promo member = (omega arith, omega arith, refl)

  -- A dearer service never costs less, with the same code and membership.
  pub checkout_mono :
      (a b : ℕ) (promo : Option String) (member : Bool)
      → a ≤ b
      → (compute_checkout upper a promo member).final_paise
        ≤ (compute_checkout upper b promo member).final_paise
  unfolding compute_checkout discount_for percent_off
  checkout_mono a b promo member h = elim (rule-cases upper promo) [
    | inl e ↦
        rw e (elim (Bool-cases member) [ inl m ↦ rw m (omega arith) | inr m ↦ rw m (omega arith) ])
    | inr (inl e) ↦ rw e (omega arith)
    | inr (inr (inl e)) ↦ rw e (omega arith)
    | inr (inr (inr e)) ↦ rw e (omega arith)
  ]

  -- A code that names a rule takes precedence: the totals are the same for a member and for anybody
  -- else, and the code is not reported as invalid. Any other code leaves the price and the label as
  -- with no code, and is reported as invalid exactly if it is not blank.
  pub code_precedence :
      (base : ℕ) (promo : Option String) (member : Bool)
      → ((compute_checkout upper base promo true ≡ compute_checkout upper base promo false)
          × ((compute_checkout upper base promo member).invalid_code ≡ false))
        ⊎ (((compute_checkout upper base promo member).final_paise
              ≡ (compute_checkout upper base none member).final_paise)
            × ((compute_checkout upper base promo member).applied_label
                ≡ (compute_checkout upper base none member).applied_label)
            × ((compute_checkout upper base promo member).invalid_code
                ≡ not (str_eq (code_of upper promo) "")))
  unfolding compute_checkout discount_for label_for
  code_precedence base promo member = elim (rule-cases upper promo) [
    | inl e ↦
        inr (rw e refl, rw e (label_of_none (code_of upper promo) member), rw e (ground arith))
    | inr (inl e) ↦ inl (rw e refl, rw e (ground arith))
    | inr (inr (inl e)) ↦ inl (rw e refl, rw e (ground arith))
    | inr (inr (inr e)) ↦ inl (rw e refl, rw e (ground arith))
  ]

  -- The code WELCOME costs a member money from a price of ₹666.70 on: without it the membership
  -- takes off more.
  pub welcome_costs_member :
      (base : ℕ) (promo : String)
      → upper (trim promo) ≡ "WELCOME"
      → 66670 ≤ base
      → (compute_checkout upper base none true).final_paise
        < (compute_checkout upper base (some promo) true).final_paise
  unfolding compute_checkout discount_for rule_of find_rule percent_off
  welcome_costs_member base promo e h = rw e (omega arith)
