-- ===== src/Checkout/Confirm.antt =====
-- The checkout screen: mobile/apps/customer/src/app/book/confirm.tsx, with openRazorpayCheckout of
-- features/payment/razorpay.ts and useCreateBooking of features/booking/api.ts.
--
-- The screen's state is a record; a world adds what `onPay` waits for and what it has caused. The
-- payment SDK and the backend answer by events. `basePaise` is the number that the service screen
-- wrote in `pricePaise`. A text that is looked up in the locale files stands by its key.
pub mod Accounts
use Prim.Native.String
use Prim.Native.String.{◌++◌ as text_append}
use sethu_care.Prelude.{
  ℕ, ◌+◌, ◌-◌, Bool, true, false, not, ◌&&◌, String, Option, none, some, List, [], ◌∷◌, str_eq,
  if◌then◌else◌, ltb,
}
use sethu_care.Text.{trim, is_truthy, or_empty, or_else}
use sethu_care.Checkout.{CheckoutTotals, compute_checkout}

pub record Confirm : Type 0 where
  pub variant_id : String
  pub variant_name : Option String
  pub base_paise : ℕ
  pub user_name : Option String
  pub sethu_plus : Bool
  pub address_id : Option String
  pub promo_input : String
  pub applied_promo : String
  pub paying : Bool
  pub error : Option String

-- What the checkout of Razorpay is opened with, and what the closure of `onPay` keeps for the booking.
pub record Order : Type 0 where
  pub amount_paise : ℕ
  pub description : String
  pub name : Option String
  pub address_id : String
  pub variant_id : String

pub record CreateBookingRequest : Type 0 where
  pub address_id : String
  pub variant_id : String
  pub quantity : ℕ

pub data Route : Type 0 where
  booking_route : String → Route
  home_route : Route

-- The screen, the payment that is open, the booking that is being created, the amounts captured so
-- far (newest first), the requests sent, and the route that replaced the screen.
pub record World : Type 0 where
  pub screen : Confirm
  pub pending : Option Order
  pub creating : Option CreateBookingRequest
  pub captured : List ℕ
  pub sent : List CreateBookingRequest
  pub created : ℕ
  pub refused : ℕ
  pub route : Option Route

pub data Event : Type 0 where
  type_promo : String → Event
  apply_promo : Event
  select_address : String → Event
  join_plus : Bool → Event
  press_pay : Event
  payment_succeeds payment_fails : Event
  booking_created : Option String → Event
  booking_refused : Event

abbrev is_some {ℓ} : {A : Type ℓ} → Option A → Bool
is_some none = false
is_some (some a) = true

abbrev request_of : Order → CreateBookingRequest
request_of o = record { address_id = o.address_id; variant_id = o.variant_id; quantity = 1 }

-- What follows a captured payment: the call of `mutate`.
unfoldable pub on_captured : World → World
on_captured w = elim w.pending [
  | none ↦ w
  | some o ↦ record w {
    pending = none;
    creating = some (request_of o);
    captured = o.amount_paise ∷ w.captured;
    sent = request_of o ∷ w.sent;
  }
]

-- The `catch` of `onPay`.
unfoldable pub on_rejected : World → World
on_rejected w = elim w.pending [
  | none ↦ w
  | some o ↦ record w {
    pending = none;
    screen = record (w.screen) { error = some "booking:pay.failed"; paying = false };
  }
]

-- The callbacks of `mutate`.
unfoldable pub on_success : World → Option String → World
on_success w id = elim w.creating [
  | none ↦ w
  | some r ↦ record w {
    creating = none;
    created = w.created + 1;
    route = some (if is_truthy id then booking_route (or_empty id) else home_route);
  }
]

unfoldable pub on_error : World → World
on_error w = elim w.creating [
  | none ↦ w
  | some r ↦ record w {
    creating = none;
    refused = w.refused + 1;
    screen = record (w.screen) { error = some "common:errors.generic"; paying = false };
  }
]

-- `toUpperCase`, and then whether a Razorpay key is configured, are parameters.
module _ (upper : String → String) where
  unfoldable pub totals : Confirm → CheckoutTotals
  totals s = compute_checkout upper s.base_paise (some s.applied_promo) s.sethu_plus

  abbrev pub order_of : Confirm → String → Order
  order_of s address = record {
    amount_paise = (totals s).final_paise;
    description = or_else s.variant_name "booking:pay.title";
    name = s.user_name;
    address_id = address;
    variant_id = s.variant_id;
  }

  -- What the screen shows.
  unfoldable pub promo_error : Confirm → Option String
  promo_error s = if (totals s).invalid_code then some "booking:pay.invalidPromo" else none

  unfoldable pub discount_row : Confirm → Option (Option String × ℕ)
  discount_row s =
      if ltb 0 (totals s).discount_paise
      then some ((totals s).applied_label, (totals s).discount_paise)
      else none

module _ (upper : String → String) (configured : Bool) where
  -- `onPay` up to its first `await`.
  unfoldable pub on_pay : World → World
  on_pay w =
      if not (is_truthy w.screen.address_id)
      then w
      else if w.screen.paying
      then w
      else if not configured
      then record w { screen = record (w.screen) { error = some "booking:pay.notConfigured" } }
      else record w {
        screen = record (w.screen) { error = none; paying = true };
        pending = some (order_of upper w.screen (or_empty w.screen.address_id));
      }

  unfoldable pub step : World → Event → World
  unfolding on_pay on_captured on_rejected on_success on_error
  step w (type_promo next) = record w { screen = record (w.screen) { promo_input = upper next } }
  step w apply_promo =
      if str_eq (trim w.screen.promo_input) ""
      then w
      else record w { screen = record (w.screen) { applied_promo = trim w.screen.promo_input } }
  step w (select_address id) = record w { screen = record (w.screen) { address_id = some id } }
  step w (join_plus member) = record w { screen = record (w.screen) { sethu_plus = member } }
  step w press_pay = on_pay w
  step w payment_succeeds = on_captured w
  step w payment_fails = on_rejected w
  step w (booking_created id) = on_success w id
  step w booking_refused = on_error w

  unfoldable pub run : World → List Event → World
  run w [] = w
  run w (e ∷ es) = run (step w e) es

abbrev pub pay_disabled : Confirm → Bool
pay_disabled s = not (is_truthy s.address_id)

-- `mount`: the screen as the route opens it.
unfoldable pub mount : String → Option String → ℕ → Option String → Bool → World
mount variant_id variant_name base user_name member = record {
  screen = record {
    variant_id = variant_id;
    variant_name = variant_name;
    base_paise = base;
    user_name = user_name;
    sethu_plus = member;
    address_id = none;
    promo_input = "";
    applied_promo = "";
    paying = false;
    error = none;
  };
  pending = none;
  creating = none;
  captured = [];
  sent = [];
  created = 0;
  refused = 0;
  route = none;
}
