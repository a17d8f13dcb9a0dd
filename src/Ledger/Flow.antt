-- ===== src/Ledger/Flow.antt =====
-- From the booking that is placed to the money that is booked: internal/booking/service.go (`Create`),
-- internal/ledger/service.go (`RecordCompletion`, `CaptureUPIPayment`).
use Prim.Native.String.{◌++◌ as text_append}
use sethu_care.Prelude.{
  ℕ, ◌*◌, ◌≤◌, ◌≡◌, refl, true, false, String, Option, none, some, List, ◌∷◌, any, str_eq, ◌==◌,
  arith, le→leb, eq_refl,
}
use sethu_care.Money.{pos, max_int64}
use sethu_care.Money.Bounds.{mul-exact}
use sethu_care.Backend.{is_payment_method}
use sethu_care.Backend.Create.{
  Variant, CreateInput, created, create, create_with, create_priced, create_rows,
}
use sethu_care.Ledger.{
  pending, revenue, Books, BookingRow, done, revenue_entry, payment_reference, pending_payment,
  open_collection, record_completion, land, capture_found, capture, completion_exists, get_booking,
  upsert_pending,
}
use sethu_care.Ledger.Once.{bill-online}

-- The booking's columns that the ledger reads, of the rows that `Create` wrote and the technician
-- whom it was assigned to since.
abbrev pub booking_row : String → String → String → ℕ → Option String → BookingRow
booking_row id order_id customer_id total holder = record {
  id = id;
  order_id = order_id;
  customer_id = customer_id;
  technician_id = holder;
  quoted_total_paise = total;
}

-- A booking of an active variant is quoted at the variant's price times the quantity, or the request
-- panics where an int64 does not hold that.
pub create-quoted :
    (order_id booking_id : String) (input : CreateInput) (variant : Variant)
    → 1 ≤ input.quantity
    → variant.is_active ≡ true
    → variant.base_price_paise * input.quantity ≤ max_int64
    → create order_id booking_id input (some variant)
      ≡ created (
          create_rows order_id booking_id input variant
            (pos (variant.base_price_paise * input.quantity)))
unfolding create create_with create_priced
create-quoted order_id booking_id input variant positive active fits =
    rw (mul-exact variant.base_price_paise input.quantity, le→leb _ _ fits) (ground arith)

-- The bookings are read with the row, it is not free of charge, and the books have nothing of it yet.
pub record IsUnbilled (rows : List BookingRow) (row : BookingRow) (books : Books) : Type 0 where
  pub read : get_booking row.id rows ≡ some row
  pub charged : (row.quoted_total_paise == 0) ≡ false
  pub unbooked : completion_exists row.order_id row.id books.entries ≡ false
  pub uncollected : any (λ q. str_eq q.booking_id row.id) books.payments ≡ false

online-opens :
    (rows : List BookingRow) (row : BookingRow) (method : String) (books : Books)
    → is_payment_method method ≡ true
    → str_eq method "CASH" ≡ false
    → IsUnbilled rows row books
    → record_completion rows row.id method books
      ≡ (record { entries = books.entries; payments = pending_payment row ∷ books.payments }, done)
unfolding record_completion open_collection upsert_pending
online-opens rows row method books valid online h =
    rw (valid, h.read, bill-online row method books h.charged h.unbooked online, h.uncollected) refl

capture-opened :
    (rows : List BookingRow) (row : BookingRow) (provider : Option String) (books : Books)
    → IsUnbilled rows row books
    → (capture rows (payment_reference row.id) provider record {
      entries = books.entries;
      payments = pending_payment row ∷ books.payments;
    }).0.entries
      ≡ revenue_entry (pending_payment row) row.customer_id ∷ books.entries
unfolding capture capture_found land
capture-opened rows row provider books h =
    rw (eq_refl (payment_reference row.id), h.read, h.unbooked) refl

-- A completion that is paid online opens one collection for the booking, pending under its reference,
-- of the booking's quoted total, and books nothing; capturing that collection by its reference books
-- exactly the quoted total as revenue of the booking's order, from its customer.
pub online-revenue :
    (rows : List BookingRow) (row : BookingRow) (method : String) (provider : Option String)
    (books : Books)
    → is_payment_method method ≡ true
    → str_eq method "CASH" ≡ false
    → IsUnbilled rows row books
    → let after = (record_completion rows row.id method books).0 in
      (after.entries ≡ books.entries)
      × (after.payments
          ≡ record {
            booking_id = row.id;
            order_id = row.order_id;
            amount_paise = row.quoted_total_paise;
            reference = text_append "SC" row.id;
            status = pending;
            provider_ref = none;
          }
            ∷ books.payments)
      × ((capture rows (text_append "SC" row.id) provider after).0.entries
          ≡ record {
            kind = revenue;
            amount_paise = row.quoted_total_paise;
            order_id = some row.order_id;
            booking_id = none;
            customer_id = some row.customer_id;
            technician_id = none;
            method = some "UPI";
          }
            ∷ books.entries)
online-revenue rows row method provider books valid online h =
    let opened = online-opens rows row method books valid online h in
    rw opened (refl, refl, capture-opened rows row provider books h)
