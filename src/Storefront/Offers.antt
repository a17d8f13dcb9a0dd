-- ===== src/Storefront/Offers.antt =====
-- The offers tab mobile/apps/customer/src/app/(tabs)/offers/index.tsx, with the checkout
-- features/checkout/discount.ts that is to honour its codes.
use sethu_care.Prelude.{
  ℕ, ◌≡◌, refl, Bool, true, false, not, String, Option, none, some, List, [], ◌∷◌, All,
  if◌then◌else◌,
}
use sethu_care.Text.{trim}
use sethu_care.Device.{Device}
use sethu_care.Preferences.{Preferences, set_sethu_plus}
use sethu_care.Checkout.{compute_checkout}

pub record Offer : Type 0 where
  pub code : String
  pub title : String
  pub blurb : String
  pub badge : String
  pub tone : String

-- `OFFERS`.
abbrev pub offers : List Offer
offers =
    record {
      code = "SUMMER20";
      title = "20% off AC maintenance";
      blurb = "Beat the summer heat with a pro tune-up.";
      badge = "Limited";
      tone = "offer";
    }
    ∷ record {
      code = "WELCOME";
      title = "₹100 off your first booking";
      blurb = "New to SETHU-CARE? This one's on us.";
      badge = "New";
      tone = "accent";
    }
    ∷ record {
      code = "REFER10";
      title = "₹150 for every friend";
      blurb = "Share your code — you both get rewarded.";
      badge = "Refer";
      tone = "neutral";
    }
    ∷ []

abbrev pub membership_perks : List String
membership_perks =
    "Save 15% on every booking" ∷ "Priority slots & background-verified pros"
    ∷ "Free re-visit within the warranty period" ∷ []

-- What `Offers` shows: a card for each offer, and the membership's.
pub record OffersView : Type 0 where
  pub cards : List Offer
  pub code_label : String
  pub apply_label : String
  pub perks : List String
  pub member_label : String
  pub member_icon : Option String

unfoldable pub offers_view : Preferences → OffersView
offers_view p = record {
  cards = offers;
  code_label = "offers.code";
  apply_label = "offers.apply";
  perks = membership_perks;
  member_label = if p.sethu_plus then "offers.memberJoined" else "offers.member";
  member_icon = if p.sethu_plus then some "checkCircle" else none;
}

-- The button of an offer does nothing.
abbrev pub apply_pressed : Preferences × Device → Preferences × Device
apply_pressed pd = pd

-- The button of the membership.
unfoldable pub membership_pressed : Preferences × Device → Preferences × Device
membership_pressed (p, d) = set_sethu_plus (p, d) (not p.sethu_plus)

-- Every code that the tab advertises is one that the checkout takes, whatever is bought, by whom and
-- for whichever booking; and with it a member pays what anybody pays, so membership saves nothing.
pub offers-accepted :
    (upper : String → String) (base : ℕ) (member : Bool)
    → All (λ offer. upper offer.code ≡ offer.code) offers
    → All
        (λ offer. (compute_checkout upper base (some offer.code) member).invalid_code ≡ false)
        offers
      × All
          (λ offer.
            (compute_checkout upper base (some offer.code) true).final_paise
            ≡ (compute_checkout upper base (some offer.code) false).final_paise)
          offers
unfolding compute_checkout trim
offers-accepted upper base member (s, (w, (r, _))) =
    rw (s, w, r) ((refl, (refl, (refl, tt))), (refl, (refl, (refl, tt))))
