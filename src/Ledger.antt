-- ===== src/Ledger.antt =====
-- The money of a job: internal/ledger/service.go and enums.go, with the queries of
-- db/queries/ledger.sql and payments.sql, the booking that internal/booking/service.go (`Create`) opens,
-- and the handlers of internal/httpapi/payments.go and cash.go.
--
-- The ledger's rows and the collections are lists, newest first; each call runs alone, without a
-- database error. Amounts are in paise, and not negative: the columns they come from are checked.
pub mod Attached
pub mod Calls
pub mod Counts
pub mod Flow
pub mod Once
pub mod Position
pub mod Custody
use Prim.Native.String.{◌++◌ as text_append}
use sethu_care.Prelude.{
  ℕ, ◌+◌, ◌≡◌, refl, Bool, true, false, not, ◌&&◌, ◌||◌, String, Option, none, some, List, [], ◌∷◌,
  find, any, str_eq, leb, ltb, ◌==◌, if◌then◌else◌, map,
}
use sethu_care.Money.{ℤ, pos, negsuc, mul}
use sethu_care.Machine.{Role, admin, customer, technician}
use sethu_care.Backend.{Caller, is_payment_method, is_assigned_to}

pub data EntryKind : Type 0 where
  revenue cash_custody cash_deposit credit_issued credit_redeemed : EntryKind

abbrev pub is_revenue : EntryKind → Bool
is_revenue revenue = true
is_revenue _ = false

abbrev pub is_custody : EntryKind → Bool
is_custody cash_custody = true
is_custody _ = false

abbrev pub is_deposit : EntryKind → Bool
is_deposit cash_deposit = true
is_deposit _ = false

abbrev pub is_credit : EntryKind → Bool
is_credit credit_issued = true
is_credit _ = false

-- `AttachesToOrder`.
abbrev pub attaches_to_order : EntryKind → Bool
attaches_to_order revenue = true
attaches_to_order credit_issued = true
attaches_to_order credit_redeemed = true
attaches_to_order _ = false

-- `IsCash`.
abbrev pub is_cash : EntryKind → Bool
is_cash cash_custody = true
is_cash cash_deposit = true
is_cash _ = false

-- A row of ledger_entries, without its key and its time.
pub record Entry : Type 0 where
  pub kind : EntryKind
  pub amount_paise : ℕ
  pub order_id : Option String
  pub booking_id : Option String
  pub customer_id : Option String
  pub technician_id : Option String
  pub method : Option String

pub data PaymentStatus : Type 0 where
  pending captured : PaymentStatus

abbrev pub is_captured : PaymentStatus → Bool
is_captured captured = true
is_captured pending = false

-- A row of payments: the UPI collection of a booking.
pub record Payment : Type 0 where
  pub booking_id : String
  pub order_id : String
  pub amount_paise : ℕ
  pub reference : String
  pub status : PaymentStatus
  pub provider_ref : Option String

-- The columns of a booking that the ledger reads.
pub record BookingRow : Type 0 where
  pub id : String
  pub order_id : String
  pub customer_id : String
  pub technician_id : Option String
  pub quoted_total_paise : ℕ

pub record Books : Type 0 where
  pub entries : List Entry
  pub payments : List Payment

pub data Outcome : Type 0 where
  done booking_not_found invalid_method no_technician : Outcome
  no_custody not_your_custody already_deposited payment_not_found : Outcome

-- `GetBooking`.
abbrev pub get_booking : String → List BookingRow → Option BookingRow
get_booking id rows = find (λ r. str_eq r.id id) rows

abbrev pub insert_entry : Entry → Books → Books
insert_entry e books = record { entries = e ∷ books.entries; payments = books.payments }

-- `CompletionLedgerExists`.
unfoldable pub completion_exists : String → String → List Entry → Bool
completion_exists order booking entries =
    any
      (λ e.
        (is_assigned_to e.order_id order && is_revenue e.kind)
        || (is_assigned_to e.booking_id booking && is_custody e.kind))
      entries

-- `UpsertPendingPayment`: a collection that is there stays as it is.
unfoldable pub upsert_pending : Payment → List Payment → List Payment
upsert_pending p payments =
    if any (λ q. str_eq q.booking_id p.booking_id) payments then payments else p ∷ payments

-- `uuid.String()` without its dashes, behind "SC": `paymentReference`, on the 32 digits.
abbrev pub payment_reference : String → String
payment_reference id = text_append "SC" id

-- The entry of a cash completion, the technician known.
abbrev pub custody_entry : BookingRow → String → Entry
custody_entry row holder = record {
  kind = cash_custody;
  amount_paise = row.quoted_total_paise;
  order_id = none;
  booking_id = some row.id;
  customer_id = some row.customer_id;
  technician_id = some holder;
  method = some "CASH";
}

abbrev pub pending_payment : BookingRow → Payment
pending_payment row = record {
  booking_id = row.id;
  order_id = row.order_id;
  amount_paise = row.quoted_total_paise;
  reference = payment_reference row.id;
  status = pending;
  provider_ref = none;
}

unfoldable pub take_custody : BookingRow → Option String → Books → Books × Outcome
take_custody row none books = (books, no_technician)
take_custody row (some holder) books = (insert_entry (custody_entry row holder) books, done)

unfoldable pub open_collection : BookingRow → Books → Books × Outcome
open_collection row books = (
  record {
    entries = books.entries;
    payments = upsert_pending (pending_payment row) books.payments;
  },
  done,
)

-- `RecordCompletion` on the booking that it read.
unfoldable pub bill : Option BookingRow → String → Books → Books × Outcome
bill none method books = (books, booking_not_found)
bill (some row) method books =
    if row.quoted_total_paise == 0
    then (books, done)
    else if completion_exists row.order_id row.id books.entries
    then (books, done)
    else if str_eq method "CASH"
    then take_custody row row.technician_id books
    else open_collection row books

-- `RecordCompletion`: the consumer of booking.completed.
unfoldable pub record_completion : List BookingRow → String → String → Books → Books × Outcome
record_completion rows id method books =
    if is_payment_method method
    then bill (get_booking id rows) method books
    else (books, invalid_method)

abbrev pub credit_entry : BookingRow → ℕ → Entry
credit_entry row amount = record {
  kind = credit_issued;
  amount_paise = amount;
  order_id = some row.order_id;
  booking_id = none;
  customer_id = some row.customer_id;
  technician_id = none;
  method = none;
}

unfoldable pub credit : Option BookingRow → ℕ → Books → Books × Outcome
credit none amount books = (books, booking_not_found)
credit (some row) amount books =
    if any (λ e. is_assigned_to e.order_id row.order_id && is_credit e.kind) books.entries
    then (books, done)
    else (insert_entry (credit_entry row amount) books, done)

-- `IssueFailureCredit`: the consumer of booking.failed.
unfoldable pub issue_failure_credit : List BookingRow → String → ℕ → Books → Books × Outcome
issue_failure_credit rows id amount books =
    if amount == 0 then (books, done) else credit (get_booking id rows) amount books

abbrev pub is_custody_of : String → Entry → Bool
is_custody_of id e = is_assigned_to e.booking_id id && is_custody e.kind

abbrev pub is_deposit_of : String → Entry → Bool
is_deposit_of id e = is_assigned_to e.booking_id id && is_deposit e.kind

abbrev pub deposit_entry : String → String → ℕ → Entry
deposit_entry id holder amount = record {
  kind = cash_deposit;
  amount_paise = amount;
  order_id = none;
  booking_id = some id;
  customer_id = none;
  technician_id = some holder;
  method = some "CASH";
}

-- `RecordDeposit` on the row that `GetBookingCashCustody` gave.
unfoldable pub deposit : Option Entry → String → String → Books → Books × Outcome
deposit none id holder books = (books, no_custody)
deposit (some custody) id holder books =
    if is_assigned_to custody.technician_id holder
    then (if any (is_deposit_of id) books.entries
        then (books, already_deposited)
        else (insert_entry (deposit_entry id holder custody.amount_paise) books, done))
    else (books, not_your_custody)

-- `RecordDeposit`.
unfoldable pub record_deposit : String → String → Books → Books × Outcome
record_deposit id holder books = deposit (find (is_custody_of id) books.entries) id holder books

abbrev pub capture_row : String → Option String → Payment → Payment
capture_row reference provider p = record {
  booking_id = p.booking_id;
  order_id = p.order_id;
  amount_paise = p.amount_paise;
  reference = p.reference;
  status = if str_eq p.reference reference then captured else p.status;
  provider_ref =
      if str_eq p.reference reference && not (is_captured p.status)
      then provider
      else p.provider_ref;
}

abbrev pub revenue_entry : Payment → String → Entry
revenue_entry p payer = record {
  kind = revenue;
  amount_paise = p.amount_paise;
  order_id = some p.order_id;
  booking_id = none;
  customer_id = some payer;
  technician_id = none;
  method = some "UPI";
}

-- `MarkPaymentCaptured`.
unfoldable pub mark_captured : String → Option String → List Payment → List Payment
mark_captured reference provider payments = map (capture_row reference provider) payments

-- The transaction of `CaptureUPIPayment`: the revenue and the mark together.
unfoldable pub land : Option BookingRow → Payment → String → Option String → Books → Books × Outcome
land none p reference provider books = (books, booking_not_found)
land (some row) p reference provider books = (
  record {
    entries =
        if completion_exists p.order_id p.booking_id books.entries
        then books.entries
        else revenue_entry p row.customer_id ∷ books.entries;
    payments = mark_captured reference provider books.payments;
  },
  done,
)

unfoldable pub capture_found :
    List BookingRow → Option Payment → String → Option String → Books → Books × Outcome
capture_found rows none reference provider books = (books, payment_not_found)
capture_found rows (some p) reference provider books =
    if is_captured p.status
    then (books, done)
    else land (get_booking p.booking_id rows) p reference provider books

-- `CaptureUPIPayment`.
unfoldable pub capture : List BookingRow → String → Option String → Books → Books × Outcome
capture rows reference provider books =
    capture_found rows (find (λ p. str_eq p.reference reference) books.payments) reference provider
      books

-- `mayView`, on the parties of the collection's booking.
unfoldable pub may_view : Caller → BookingRow → Bool
may_view caller row = elim caller.role [
  | admin ↦ true
  | customer ↦ str_eq caller.id row.customer_id
  | technician ↦ is_assigned_to row.technician_id caller.id
]
