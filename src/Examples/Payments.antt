-- ===== src/Examples/Payments.antt =====
-- The checkout at concrete inputs.
use sethu_care.Prelude.{
  ◌+◌, ◌≡◌, ◌≤◌, ◌<◌, refl, true, false, String, none, some, List, [], ◌∷◌, arith,
}
use sethu_care.Text.{trim}
use sethu_care.Checkout.{percent_off, compute_checkout}
use sethu_care.Checkout.Totals.{checkout_adds_up, welcome_costs_member}
use sethu_care.Checkout.Confirm.{
  World, Event, type_promo, apply_promo, select_address, join_plus, press_pay, payment_succeeds,
  payment_fails, booking_created, booking_refused, totals, step, run, mount,
}
use sethu_care.Checkout.Confirm.Accounts.{
  chosen as chosen_in, IsConsistent, IsFair, run-IsConsistent, run-IsFair, refused-captured_again,
}

-- For codes that are typed in capitals.
abbrev same_case : String → String
same_case t = t

checkout_adds_up_example :
    let t = compute_checkout same_case 79900 (some "SUMMER20") false in
    (t.discount_paise ≤ 79900) × (t.final_paise + t.discount_paise ≡ 79900) × (t.base_paise ≡ 79900)
checkout_adds_up_example = checkout_adds_up same_case 79900 (some "SUMMER20") false

welcome_trimmed : trim " WELCOME " ≡ "WELCOME"
unfolding trim
welcome_trimmed = refl

welcome_costs_member_example :
    (compute_checkout same_case 79900 none true).final_paise
    < (compute_checkout same_case 79900 (some " WELCOME ") true).final_paise
welcome_costs_member_example =
    welcome_costs_member same_case 79900 " WELCOME " welcome_trimmed (omega arith)

-- A promo code, a payment that fails, another that succeeds, and the booking.
abbrev visit : List Event
visit =
    select_address "a1"
    ∷ type_promo "SUMMER20"
    ∷ apply_promo
    ∷ press_pay
    ∷ press_pay
    ∷ payment_fails
    ∷ join_plus true
    ∷ press_pay
    ∷ payment_succeeds
    ∷ press_pay
    ∷ booking_created (some "b1")
    ∷ []

abbrev opened : World
opened = mount "v1" (some "Deep clean") 79900 (some "Asha") false

visit_captured : (run same_case true opened visit).captured ≡ 63920 ∷ []
unfolding run mount totals compute_checkout step trim percent_off
visit_captured = refl

run-IsConsistent_example : IsConsistent (run same_case true opened visit)
run-IsConsistent_example =
    run-IsConsistent same_case true "v1" (some "Deep clean") 79900 (some "Asha") false visit

run-IsFair_example : IsFair (chosen_in visit) "v1" 79900 (run same_case true opened visit)
run-IsFair_example =
    run-IsFair same_case true "v1" (some "Deep clean") 79900 (some "Asha") false visit

-- An address is chosen; and then the payment was captured, and the booking is being created.
abbrev chosen : World
chosen = run same_case true opened (select_address "a1" ∷ [])

abbrev charged : World
charged = run same_case true opened (select_address "a1" ∷ press_pay ∷ payment_succeeds ∷ [])

refused-captured_again_example :
    let w = run same_case true charged (booking_refused ∷ press_pay ∷ payment_succeeds ∷ []) in
    (w.captured ≡ (totals same_case charged.screen).final_paise ∷ charged.captured)
    × (w.created ≡ charged.created)
unfolding run mount step
refused-captured_again_example =
    refused-captured_again same_case true charged
      (record { address_id = "a1"; variant_id = "v1"; quantity = 1 }) refl refl refl
