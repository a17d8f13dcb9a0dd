-- ===== src/Ledger/Once.antt =====
-- At-least-once delivery: internal/ledger/service.go run again on the same event, as the dispatcher of
-- internal/app/consumers.go may do.
use sethu_care.Prelude.{
  ◌≡◌, refl, ap, true, false, String, Option, none, some, List, ◌∷◌, find, any, str_eq, ◌==◌, arith,
  Bool-cases, inl, inr, eq_refl, find-holds, find-map,
}
use sethu_care.Backend.{is_payment_method}
use sethu_care.Ledger.{
  Entry, Books, BookingRow, Payment, done, custody_entry, pending_payment, take_custody,
  open_collection, bill, record_completion, land, capture_found, capture, completion_exists,
  get_booking, insert_entry, upsert_pending, mark_captured, capture_row, is_captured,
  payment_not_found,
}

upsert_pending-again :
    (p : Payment) (payments : List Payment)
    → upsert_pending p (upsert_pending p payments) ≡ upsert_pending p payments
unfolding upsert_pending
upsert_pending-again p payments =
    elim (Bool-cases (any (λ q. str_eq q.booking_id p.booking_id) payments)) [
      | inl e ↦ rw (e, e) refl
      | inr e ↦ rw e (rw (eq_refl p.booking_id) refl)
    ]

bill-zero :
    (row : BookingRow) (method : String) (books : Books)
    → (row.quoted_total_paise == 0) ≡ true
    → bill (some row) method books ≡ (books, done)
unfolding bill
bill-zero row method books e = rw e refl

bill-billed :
    (row : BookingRow) (method : String) (books : Books)
    → completion_exists row.order_id row.id books.entries ≡ true
    → bill (some row) method books ≡ (books, done)
unfolding bill
bill-billed row method books b = ground (arith, b)

pub bill-cash :
    (row : BookingRow) (method : String) (books : Books)
    → (row.quoted_total_paise == 0) ≡ false
    → completion_exists row.order_id row.id books.entries ≡ false
    → str_eq method "CASH" ≡ true
    → bill (some row) method books ≡ take_custody row row.technician_id books
unfolding bill
bill-cash row method books e b c = rw (e, b, c) refl

pub bill-online :
    (row : BookingRow) (method : String) (books : Books)
    → (row.quoted_total_paise == 0) ≡ false
    → completion_exists row.order_id row.id books.entries ≡ false
    → str_eq method "CASH" ≡ false
    → bill (some row) method books ≡ open_collection row books
unfolding bill
bill-online row method books e b c = rw (e, b, c) refl

custody-completion_exists :
    (row : BookingRow) (holder : String) (es : List Entry)
    → completion_exists row.order_id row.id (custody_entry row holder ∷ es) ≡ true
unfolding completion_exists
custody-completion_exists row holder es = rw (eq_refl row.id) refl

cash-again :
    (row : BookingRow) (holder : Option String) (method : String) (books : Books)
    → row.technician_id ≡ holder
    → (row.quoted_total_paise == 0) ≡ false
    → completion_exists row.order_id row.id books.entries ≡ false
    → str_eq method "CASH" ≡ true
    → (bill (some row) method (take_custody row holder books).0).0
      ≡ (take_custody row holder books).0
unfolding take_custody
cash-again row none method books t e b c = rw (bill-cash row method books e b c, t) refl
cash-again row (some holder) method books t e b c =
    let there = custody-completion_exists row holder books.entries in
    rw (bill-billed row method (insert_entry (custody_entry row holder) books) there) refl

online-again :
    (row : BookingRow) (method : String) (books : Books)
    → (row.quoted_total_paise == 0) ≡ false
    → completion_exists row.order_id row.id books.entries ≡ false
    → str_eq method "CASH" ≡ false
    → (bill (some row) method (open_collection row books).0).0 ≡ (open_collection row books).0
unfolding open_collection
online-again row method books e b c =
    let opened : Books = record {
      entries = books.entries;
      payments = upsert_pending (pending_payment row) books.payments;
    } in
    rw (bill-online row method opened e b c) (
      ap (λ ps. record { entries = books.entries; payments = ps })
        (upsert_pending-again (pending_payment row) books.payments))

bill-again :
    (found : Option BookingRow) (method : String) (books : Books)
    → (bill found method (bill found method books).0).0 ≡ (bill found method books).0
unfolding bill
bill-again none method books = refl
bill-again (some row) method books = elim (Bool-cases (row.quoted_total_paise == 0)) [
  | inl e ↦ simp (bill-zero row method books e) refl
  | inr e ↦ elim (Bool-cases (completion_exists row.order_id row.id books.entries)) [
    | inl b ↦ simp (bill-billed row method books b) refl
    | inr b ↦ elim (Bool-cases (str_eq method "CASH")) [
      | inl c ↦
          simp (bill-cash row method books e b c)
            (cash-again row row.technician_id method books refl e b c)
      | inr c ↦ simp (bill-online row method books e b c) (online-again row method books e b c)
    ]
  ]
]

-- A redelivered booking.completed changes nothing: the second run leaves the books of the first.
pub record_completion-again :
    (rows : List BookingRow) (id method : String) (books : Books)
    → (record_completion rows id method (record_completion rows id method books).0).0
      ≡ (record_completion rows id method books).0
unfolding record_completion
record_completion-again rows id method books = elim (Bool-cases (is_payment_method method)) [
  | inl e ↦ rw e (bill-again (get_booking id rows) method books)
  | inr e ↦ rw e refl
]

captured-find :
    (reference : String) (provider : Option String) (ps : List Payment) (p : Payment)
    → find (λ q. str_eq q.reference reference) ps ≡ some p
    → find (λ q. str_eq q.reference reference) (mark_captured reference provider ps)
      ≡ some (capture_row reference provider p)
unfolding mark_captured
captured-find reference provider ps p e =
    find-map (λ q. str_eq q.reference reference) (capture_row reference provider) ps p (λ q. refl) e

capture_row-status :
    (reference : String) (provider : Option String) (p : Payment)
    → str_eq p.reference reference ≡ true
    → is_captured (capture_row reference provider p).status ≡ true
capture_row-status reference provider p h = rw h refl

capture_found-none :
    (rows : List BookingRow) (reference : String) (provider : Option String) (books : Books)
    → capture_found rows none reference provider books ≡ (books, payment_not_found)
unfolding capture_found
capture_found-none rows reference provider books = refl

capture_found-settled :
    (rows : List BookingRow) (p : Payment) (reference : String) (provider : Option String)
    (books : Books)
    → is_captured p.status ≡ true
    → capture_found rows (some p) reference provider books ≡ (books, done)
unfolding capture_found
capture_found-settled rows p reference provider books h = rw h refl

capture_found-open :
    (rows : List BookingRow) (p : Payment) (reference : String) (provider : Option String)
    (books : Books)
    → is_captured p.status ≡ false
    → capture_found rows (some p) reference provider books
      ≡ land (get_booking p.booking_id rows) p reference provider books
unfolding capture_found
capture_found-open rows p reference provider books h = rw h refl

land-again :
    (rows : List BookingRow) (row : Option BookingRow) (p : Payment) (reference : String)
    (first second : Option String) (books : Books)
    → find (λ q. str_eq q.reference reference) books.payments ≡ some p
    → get_booking p.booking_id rows ≡ row
    → is_captured p.status ≡ false
    → (capture rows reference second (land row p reference first books).0).0
      ≡ (land row p reference first books).0
unfolding land capture capture_found
land-again rows none p reference first second books e g open_still = rw (e, open_still, g) refl
land-again rows (some row) p reference first second books e g open_still =
    let marked = captured-find reference first books.payments p e in
    let shut = capture_row-status reference first p (find-holds _ books.payments p e) in
    rw marked (rw shut refl)

capture_found-again :
    (rows : List BookingRow) (found : Option Payment) (reference : String)
    (first second : Option String) (books : Books)
    → find (λ q. str_eq q.reference reference) books.payments ≡ found
    → (capture rows reference second (capture_found rows found reference first books).0).0
      ≡ (capture_found rows found reference first books).0
unfolding capture
capture_found-again rows none reference first second books e =
    rw
      (
        capture_found-none rows reference first books,
        e,
        capture_found-none rows reference second books,
      )
      refl
capture_found-again rows (some p) reference first second books e =
    elim (Bool-cases (is_captured p.status)) [
      | inl shut ↦
          rw
            (
              capture_found-settled rows p reference first books shut,
              e,
              capture_found-settled rows p reference second books shut,
            )
            refl
      | inr unsettled ↦ rw (capture_found-open rows p reference first books unsettled) (
          land-again rows (get_booking p.booking_id rows) p reference first second books e refl
            unsettled)
    ]

-- A duplicate capture changes nothing, whatever reference of the provider it brings: the second run
-- leaves the books of the first.
pub capture-again :
    (rows : List BookingRow) (reference : String) (first second : Option String) (books : Books)
    → (capture rows reference second (capture rows reference first books).0).0
      ≡ (capture rows reference first books).0
unfolding capture
capture-again rows reference first second books =
    capture_found-again rows _ reference first second books refl
