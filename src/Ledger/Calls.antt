-- ===== src/Ledger/Calls.antt =====
-- internal/ledger/service.go: what holds of the ledger's rows after any sequence of its calls.
use sethu_care.Prelude.{
  ℕ, ◌≡◌, refl, true, false, ◌&&◌, String, Option, none, some, List, [], ◌∷◌, find, any, str_eq,
  ◌==◌, Bool-cases, inl, inr,
}
use sethu_care.Backend.{is_assigned_to, is_payment_method}
use sethu_care.Ledger.{
  Entry, Books, BookingRow, Payment, Outcome, is_custody_of, is_deposit_of, custody_entry,
  deposit_entry, credit_entry, revenue_entry, take_custody, open_collection, bill,
  record_completion, credit, issue_failure_credit, deposit, record_deposit, land, capture_found,
  capture, completion_exists, get_booking, is_credit, is_captured,
}

-- The calls of the ledger, each with the bookings as they are when it runs.
pub data Call : Type 0 where
  completion : (rows : List BookingRow) (id method : String) → Call
  failure : (rows : List BookingRow) (id : String) (amount : ℕ) → Call
  handed_in : (id holder : String) → Call
  landed : (rows : List BookingRow) (reference : String) (provider : Option String) → Call

unfoldable pub call : Call → Books → Books × Outcome
call (Call.completion rows id method) books = record_completion rows id method books
call (Call.failure rows id amount) books = issue_failure_credit rows id amount books
call (Call.handed_in id holder) books = record_deposit id holder books
call (Call.landed rows reference provider) books = capture rows reference provider books

-- The books after a list of calls, from the first to the last.
unfoldable pub calls : List Call → Books → Books
calls [] books = books
calls (c ∷ later) books = calls later (call c books).0

abbrev pub no_books : Books
no_books = record { entries = []; payments = [] }

-- A property of the rows that each insertion keeps under the guard that the code puts before it.
pub record IsKept {ℓ} (P : List Entry → Type ℓ) : Type ℓ where
  pub revenue_kept :
      (p : Payment) (payer : String) (es : List Entry)
      → completion_exists p.order_id p.booking_id es ≡ false
      → P es
      → P (revenue_entry p payer ∷ es)
  pub custody_kept :
      (row : BookingRow) (holder : String) (es : List Entry)
      → completion_exists row.order_id row.id es ≡ false
      → P es
      → P (custody_entry row holder ∷ es)
  pub credit_kept :
      (row : BookingRow) (amount : ℕ) (es : List Entry)
      → any (λ e. is_assigned_to e.order_id row.order_id && is_credit e.kind) es ≡ false
      → P es
      → P (credit_entry row amount ∷ es)
  pub deposit_kept :
      (id holder : String) (es : List Entry) (c : Entry)
      → find (is_custody_of id) es ≡ some c
      → is_assigned_to c.technician_id holder ≡ true
      → any (is_deposit_of id) es ≡ false
      → P es
      → P (deposit_entry id holder c.amount_paise ∷ es)

module _ {ℓ} (P : List Entry → Type ℓ) (kept : IsKept P) where
  deposit-kept :
      (found : Option Entry) (id holder : String) (books : Books)
      → find (is_custody_of id) books.entries ≡ found
      → P books.entries
      → P (deposit found id holder books).0.entries
  unfolding deposit
  deposit-kept none id holder books e h = h
  deposit-kept (some c) id holder books e h =
      elim (Bool-cases (is_assigned_to c.technician_id holder)) [
        | inr other ↦ rw other h
        | inl mine ↦ elim (Bool-cases (any (is_deposit_of id) books.entries)) [
          | inl there ↦ rw (mine, there) h
          | inr fresh ↦
              rw (mine, fresh) (kept.deposit_kept id holder books.entries c e mine fresh h)
        ]
      ]

  take_custody-kept :
      (row : BookingRow) (holder : Option String) (books : Books)
      → completion_exists row.order_id row.id books.entries ≡ false
      → P books.entries
      → P (take_custody row holder books).0.entries
  unfolding take_custody
  take_custody-kept row none books fresh h = h
  take_custody-kept row (some holder) books fresh h =
      kept.custody_kept row holder books.entries fresh h

  bill-kept :
      (found : Option BookingRow) (method : String) (books : Books)
      → P books.entries
      → P (bill found method books).0.entries
  unfolding bill open_collection
  bill-kept none method books h = h
  bill-kept (some row) method books h = elim (Bool-cases (row.quoted_total_paise == 0)) [
    | inl e ↦ rw e h
    | inr e ↦ elim (Bool-cases (completion_exists row.order_id row.id books.entries)) [
      | inl b ↦ rw (e, b) h
      | inr b ↦ elim (Bool-cases (str_eq method "CASH")) [
        | inl c ↦ rw (e, b, c) (take_custody-kept row row.technician_id books b h)
        | inr c ↦ rw (e, b, c) h
      ]
    ]
  ]

  record_completion-kept :
      (rows : List BookingRow) (id method : String) (books : Books)
      → P books.entries
      → P (record_completion rows id method books).0.entries
  unfolding record_completion
  record_completion-kept rows id method books h = elim (Bool-cases (is_payment_method method)) [
    | inl e ↦ rw e (bill-kept (get_booking id rows) method books h)
    | inr e ↦ rw e h
  ]

  credit-kept :
      (found : Option BookingRow) (amount : ℕ) (books : Books)
      → P books.entries
      → P (credit found amount books).0.entries
  unfolding credit
  credit-kept none amount books h = h
  credit-kept (some row) amount books h =
      elim (Bool-cases
        (any (λ e. is_assigned_to e.order_id row.order_id && is_credit e.kind) books.entries)) [
          | inl e ↦ rw e h
          | inr e ↦ rw e (kept.credit_kept row amount books.entries e h)
        ]

  issue_failure_credit-kept :
      (rows : List BookingRow) (id : String) (amount : ℕ) (books : Books)
      → P books.entries
      → P (issue_failure_credit rows id amount books).0.entries
  unfolding issue_failure_credit
  issue_failure_credit-kept rows id amount books h = elim (Bool-cases (amount == 0)) [
    | inl e ↦ rw e h
    | inr e ↦ rw e (credit-kept (get_booking id rows) amount books h)
  ]

  land-kept :
      (found : Option BookingRow) (p : Payment) (reference : String) (provider : Option String)
      (books : Books)
      → P books.entries
      → P (land found p reference provider books).0.entries
  unfolding land
  land-kept none p reference provider books h = h
  land-kept (some row) p reference provider books h =
      elim (Bool-cases (completion_exists p.order_id p.booking_id books.entries)) [
        | inl e ↦ rw e h
        | inr e ↦ rw e (kept.revenue_kept p row.customer_id books.entries e h)
      ]

  capture_found-kept :
      (rows : List BookingRow) (found : Option Payment) (reference : String)
      (provider : Option String) (books : Books)
      → P books.entries
      → P (capture_found rows found reference provider books).0.entries
  unfolding capture_found
  capture_found-kept rows none reference provider books h = h
  capture_found-kept rows (some p) reference provider books h =
      elim (Bool-cases (is_captured p.status)) [
        | inl e ↦ rw e h
        | inr e ↦ rw e (land-kept (get_booking p.booking_id rows) p reference provider books h)
      ]

  call-kept : (c : Call) (books : Books) → P books.entries → P (call c books).0.entries
  unfolding call record_deposit capture
  call-kept (Call.completion rows id method) books h = record_completion-kept rows id method books h
  call-kept (Call.failure rows id amount) books h = issue_failure_credit-kept rows id amount books h
  call-kept (Call.handed_in id holder) books h = deposit-kept _ id holder books refl h
  call-kept (Call.landed rows reference provider) books h =
      capture_found-kept rows _ reference provider books h

  pub calls-kept : (cs : List Call) (books : Books) → P books.entries → P (calls cs books).entries
  unfolding calls
  calls-kept [] books h = h
  calls-kept (c ∷ cs) books h = calls-kept cs (call c books).0 (call-kept c books h)
