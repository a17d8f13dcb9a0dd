-- ===== src/Backend/Create.antt =====
-- Placing a booking: `Create` of internal/booking/service.go.
--
-- The keys of the new rows are arguments, and so is the variant that `GetServiceVariant` reads.
use sethu_care.Prelude.{ℕ, Bool, String, Option, none, some, ltb, if◌then◌else◌}
use sethu_care.Money.{ℤ, mul}
use sethu_care.Machine.{State, draft}

pub record Variant : Type 0 where
  pub id : String
  pub service_id : String
  pub base_price_paise : ℕ
  pub is_active : Bool
  pub estimated_minutes : ℕ

pub record CreateInput : Type 0 where
  pub customer_id : String
  pub address_id : String
  pub variant_id : String
  pub quantity : ℕ

-- The rows that the transaction writes: order, booking, its one item and the outbox's event.
pub record Created : Type 0 where
  pub order_id : String
  pub order_total_paise : ℤ
  pub booking_id : String
  pub customer_id : String
  pub address_id : String
  pub state : State
  pub quoted_total_paise : ℤ
  pub duration_minutes : ℕ
  pub item_service_id : String
  pub item_variant_id : String
  pub item_quantity : ℕ
  pub line_total_paise : ℤ
  pub event : String

pub data CreateReply : Type 0 where
  created : Created → CreateReply
  invalid_quantity variant_not_found variant_inactive overflow_panic : CreateReply

-- The writes, given the line's total.
abbrev pub create_rows : (order_id booking_id : String) → CreateInput → Variant → ℤ → Created
create_rows order_id booking_id input variant total = record {
  order_id = order_id;
  order_total_paise = total;
  booking_id = booking_id;
  customer_id = input.customer_id;
  address_id = input.address_id;
  state = draft;
  quoted_total_paise = total;
  duration_minutes = variant.estimated_minutes;
  item_service_id = variant.service_id;
  item_variant_id = input.variant_id;
  item_quantity = input.quantity;
  line_total_paise = total;
  event = "booking.created";
}

unfoldable pub create_priced :
    (order_id booking_id : String) → CreateInput → Variant → Option ℤ → CreateReply
create_priced order_id booking_id input variant none = overflow_panic
create_priced order_id booking_id input variant (some total) =
    created (create_rows order_id booking_id input variant total)

unfoldable pub create_with :
    (order_id booking_id : String) → CreateInput → Option Variant → CreateReply
create_with order_id booking_id input none = variant_not_found
create_with order_id booking_id input (some variant) =
    if variant.is_active
    then create_priced order_id booking_id input variant
        (mul variant.base_price_paise input.quantity)
    else variant_inactive

-- `Create`.
unfoldable pub create : (order_id booking_id : String) → CreateInput → Option Variant → CreateReply
create order_id booking_id input variant =
    if ltb input.quantity 1 then invalid_quantity else create_with order_id booking_id input variant
