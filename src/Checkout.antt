-- ===== src/Checkout.antt =====
-- The checkout totals: mobile/apps/customer/src/features/checkout/discount.ts. Amounts are whole
-- paise. The double division in `percentOff` rounds as the exact one does while the product stays
-- below 2 ^ 46. `upper` is `String.prototype.toUpperCase`.
pub mod Totals
pub mod Confirm
use Prim.Native.String
use Prim.Native.String.{◌++◌ as text_append}
use sethu_care.Prelude.{
  ℕ, ◌+◌, ◌-◌, ◌*◌, ◌/◌, min, Bool, true, false, not, ◌&&◌, String, Option, none, some, List, [],
  ◌∷◌, str_eq, if◌then◌else◌,
}
use sethu_care.Text.{trim}

pub data PromoKind : Type 0 where
  percent flat : PromoKind

pub record PromoRule : Type 0 where
  pub kind : PromoKind
  pub value : ℕ
  pub label : String

abbrev pub promo_codes : List (String × PromoRule)
promo_codes =
    ("SUMMER20", record { kind = percent; value = 20; label = "20% off" })
    ∷ ("WELCOME", record { kind = flat; value = 10000; label = "₹100 off" })
    ∷ ("REFER10", record { kind = flat; value = 15000; label = "₹150 off" })
    ∷ []

abbrev pub member_percent : ℕ
member_percent = 15

pub record CheckoutTotals : Type 0 where
  pub base_paise : ℕ
  pub discount_paise : ℕ
  pub final_paise : ℕ
  pub applied_label : Option String
  pub invalid_code : Bool

-- `Math.round((basePaise * percent) / 100)`.
unfoldable pub percent_off : ℕ → ℕ → ℕ
percent_off base rate = (base * rate + 50) / 100

-- `PROMO_CODES[code]`.
unfoldable pub find_rule : String → List (String × PromoRule) → Option PromoRule
find_rule code [] = none
find_rule code ((name, rule) ∷ rules) = if str_eq name code then some rule else find_rule code rules

abbrev rule_off : PromoKind → ℕ → ℕ → ℕ
rule_off percent base value = percent_off base value
rule_off flat base value = value

-- The branches of `computeCheckout`: the discount before it is capped, and its label.
unfoldable pub discount_for : Option PromoRule → Bool → ℕ → ℕ
discount_for (some rule) member base = rule_off rule.kind base rule.value
discount_for none true base = percent_off base member_percent
discount_for none false base = 0

unfoldable pub label_for : String → Option PromoRule → Bool → Option String
label_for code (some rule) member = some (text_append code (text_append " · " rule.label))
label_for code none true = some "SETHU+ · 15% off"
label_for code none false = none

abbrev is_known : Option PromoRule → Bool
is_known none = false
is_known (some rule) = true

module _ (upper : String → String) where
  -- `promoCode?.trim().toUpperCase() ?? ""`.
  abbrev pub code_of : Option String → String
  code_of none = ""
  code_of (some promo) = upper (trim promo)

  unfoldable pub rule_of : Option String → Option PromoRule
  unfolding find_rule
  rule_of promo = if str_eq (code_of promo) "" then none else find_rule (code_of promo) promo_codes

  unfoldable pub compute_checkout : ℕ → Option String → Bool → CheckoutTotals
  unfolding discount_for label_for rule_of
  compute_checkout base promo member =
      let rule = rule_of promo in
      let discount = min (discount_for rule member base) base in
      record {
        base_paise = base;
        discount_paise = discount;
        final_paise = base - discount;
        applied_label = label_for (code_of promo) rule member;
        invalid_code = not (str_eq (code_of promo) "") && not (is_known rule);
      }
