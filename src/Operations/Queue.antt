-- ===== src/Operations/Queue.antt =====
-- mobile/apps/admin/app/(app)/payments/page.tsx over `pending` and `capture` of
-- internal/httpapi/payments.go, and cash/page.tsx over `reconciliation` of internal/httpapi/cash.go.
use sethu_care.Prelude.{
  ℕ, ◌≤◌, ◌≡◌, refl, ap, Bool, true, false, not, String, Option, none, some, List, [], ◌∷◌, ◌++◌,
  map, keep, find, All, str_eq, if◌then◌else◌, leb, arith, ◌-◌, Bool-cases, inl, inr,
}
use sethu_care.Text.{or_empty}
use sethu_care.Money.{pos, rupees, max_int64}
use sethu_care.Ledger.{
  Books, BookingRow, Payment, PaymentStatus, pending, captured, is_captured, capture_row,
  get_booking, capture, capture_found, land, mark_captured,
}
use sethu_care.Ledger.Position.{MyCash, cash_texts, owes, position, minus, reconciliation}
use sethu_care.Ledger.Custody.{collected, deposited}
use sethu_care.Money.Positive.{is_positive-rupees}
use sethu_care.Operations.{
  PendingPayment, payments_page, CashRow, cash_line, cash_page, danger, lines_of, lines_of-table,
}

abbrev status_text : PaymentStatus → String
status_text pending = "PENDING"
status_text captured = "CAPTURED"

-- A row of the answer of `pending`.
abbrev pub payment_row : Payment → PendingPayment
payment_row p = record {
  reference = some p.reference;
  amount = some (rupees (pos p.amount_paise));
  status = some (status_text p.status);
  created_at = none;
}

abbrev keep_pending : Payment → List PendingPayment
keep_pending p = if is_captured p.status then [] else payment_row p ∷ []

-- `ListPendingPayments` and `pending`: oldest first. The time of a row is left out.
pub pending_payments : List Payment → List PendingPayment
pending_payments [] = []
pending_payments (p ∷ ps) = pending_payments ps ++ keep_pending p

-- A row of another reference.
abbrev pub is_other : String → PendingPayment → Bool
is_other reference row = not (str_eq (or_empty row.reference) reference)

keep-append :
    (p : PendingPayment → Bool) (xs ys : List PendingPayment)
    → keep p (xs ++ ys) ≡ keep p xs ++ keep p ys
keep-append p [] ys = refl
keep-append p (x ∷ xs) ys = elim (Bool-cases (p x)) [
  | inl e ↦ rw e (ap (λ zs. x ∷ zs) (keep-append p xs ys))
  | inr e ↦ rw e (keep-append p xs ys)
]

captured-row :
    (reference : String) (provider : Option String) (p : Payment)
    → keep_pending (capture_row reference provider p) ≡ keep (is_other reference) (keep_pending p)
captured-row reference provider p = elim (Bool-cases (str_eq p.reference reference)) [
  | inl e ↦ elim (Bool-cases (is_captured p.status)) [
    | inl c ↦ rw (e, c) refl
    | inr c ↦ rw (e, c) (rw e refl)
  ]
  | inr e ↦ elim (Bool-cases (is_captured p.status)) [
    | inl c ↦ rw (e, c) refl
    | inr c ↦ rw (e, c) (rw e refl)
  ]
]

marked-pending :
    (reference : String) (provider : Option String) (ps : List Payment)
    → pending_payments (mark_captured reference provider ps)
      ≡ keep (is_other reference) (pending_payments ps)
unfolding pending_payments mark_captured
marked-pending reference provider [] = refl
marked-pending reference provider (p ∷ ps) =
    let split = keep-append (is_other reference) (pending_payments ps) (keep_pending p) in
    rw (split, ← marked-pending reference provider ps, ← captured-row reference provider p) refl

-- Marking a pending collection of a booking as captured takes exactly the rows of its reference from
-- the payments page at the next read, and leaves the others as they are and in their order.
pub payments_page-captured :
    (to_locale : String → String) (rows : List BookingRow) (books : Books) (reference : String)
    (provider : Option String) (p : Payment) (row : BookingRow) (is_loading is_pending : Bool)
    → find (λ q. str_eq q.reference reference) books.payments ≡ some p
    → is_captured p.status ≡ false
    → get_booking p.booking_id rows ≡ some row
    → payments_page to_locale
        (some (pending_payments (capture rows reference provider books).0.payments))
        is_loading
        is_pending
      ≡ payments_page to_locale
          (some (keep (is_other reference) (pending_payments books.payments)))
          is_loading
          is_pending
unfolding capture capture_found land
payments_page-captured to_locale rows books reference provider p row is_loading is_pending e c g =
    rw (e, c, g)
      (ap (λ list. payments_page to_locale (some list) is_loading is_pending)
        (marked-pending reference provider books.payments))

-- A row of the answer of `reconciliation`.
abbrev pub cash_row : String × MyCash → CashRow
cash_row (t, c) = record {
  technician_id = some t;
  name = none;
  collected = some c.collected;
  deposited = some c.deposited;
  outstanding = some c.outstanding;
  oldest_collection_at = none;
}

owing-flagged :
    (to_date : String → String) (t : String) (c d : ℕ)
    → c ≤ max_int64
    → owes (record {
      technician_id = t;
      collected_paise = c;
      deposited_paise = d;
      outstanding_paise = minus c d;
    })
      ≡ true
    → (cash_line to_date (
        cash_row (
          t,
          cash_texts record {
            technician_id = t;
            collected_paise = c;
            deposited_paise = d;
            outstanding_paise = minus c d;
          },
        ))).pill_tone
      ≡ danger
unfolding cash_line
owing-flagged to_date t c d fits h = elim (Bool-cases (leb d c)) [
  | inl e ↦ let tested = is_positive-rupees (c - d) (omega arith) in rw (e, tested) (ground arith)
  | inr e ↦ absurd (ground arith)
]

reconciliation-flagged :
    (to_date : String → String) (ts : List String) (books : Books)
    → ((t : String) → collected t books.entries ≤ max_int64)
    → All
        (λ line. line.pill_tone ≡ danger)
        (map (cash_line to_date) (map cash_row (reconciliation ts books)))
unfolding reconciliation position
reconciliation-flagged to_date [] books fits = tt
reconciliation-flagged to_date (t ∷ ts) books fits = elim (Bool-cases (owes (position t books))) [
  | inl e ↦ rw e (
    owing-flagged to_date t (collected t books.entries) (deposited t books.entries) (fits t) e,
    reconciliation-flagged to_date ts books fits,
  )
  | inr e ↦ rw e (reconciliation-flagged to_date ts books fits)
]

-- Every row that the cash page shows is flagged as owing: the backend lists only technicians with
-- cash outstanding, so no row is ever shown as settled.
pub cash_page-flagged :
    (to_date : String → String) (ts : List String) (books : Books) (is_loading : Bool)
    → ((t : String) → collected t books.entries ≤ max_int64)
    → All
        (λ line. line.pill_tone ≡ danger)
        (lines_of (cash_page to_date (some (map cash_row (reconciliation ts books))) is_loading))
unfolding cash_page
cash_page-flagged to_date ts books is_loading fits =
    rw
      (lines_of-table (cash_line to_date) (map cash_row (reconciliation ts books)) is_loading 5
        "All clear — no outstanding cash.")
      (reconciliation-flagged to_date ts books fits)
