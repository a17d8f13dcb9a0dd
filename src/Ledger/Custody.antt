-- ===== src/Ledger/Custody.antt =====
-- The cash that technicians hold: internal/ledger/service.go (`RecordCompletion`, `RecordDeposit`), with
-- the view technician_cash_position of db/migrations/00008_ledger.sql.
pub mod Reach
use sethu_care.Prelude.{
  ℕ, ◌+◌, ◌≤◌, ◌≡◌, refl, ap, subst, Bool, true, false, not, ◌&&◌, ◌||◌, String, Option, none, some,
  List, [], ◌∷◌, find, any, str_eq, leb, ltb, ◌==◌, if◌then◌else◌, arith, Bool-cases, Option-cases,
  inl, inr, eq_iff, found-head, found-tail,
}
use sethu_care.Backend.{is_assigned_to, is_payment_method}
use sethu_care.Ledger.{
  EntryKind, cash_custody, cash_deposit, Entry, Books, BookingRow, Payment, Outcome, done,
  is_custody, is_deposit, is_revenue, is_custody_of, is_deposit_of, custody_entry, deposit_entry,
  credit_entry, revenue_entry, take_custody, open_collection, bill, record_completion, credit,
  issue_failure_credit, deposit, record_deposit, land, capture_found, capture, completion_exists,
  get_booking, insert_entry,
}

-- `collected_paise` and `deposited_paise` of a technician.
abbrev pub collected : String → List Entry → ℕ
collected t [] = 0
collected t (e ∷ es) =
    (if is_assigned_to e.technician_id t && is_custody e.kind then e.amount_paise else 0)
    + collected t es

abbrev pub deposited : String → List Entry → ℕ
deposited t [] = 0
deposited t (e ∷ es) =
    (if is_assigned_to e.technician_id t && is_deposit e.kind then e.amount_paise else 0)
    + deposited t es

-- No deposit among `ds` is for the booking of the entry.
abbrev is_open : List Entry → Option String → Bool
is_open ds none = true
is_open ds (some id) = not (any (is_deposit_of id) ds)

-- What the technician collected among `es` for bookings that `ds` has no deposit for.
abbrev pub held : String → List Entry → List Entry → ℕ
held t ds [] = 0
held t ds (e ∷ es) =
    (if is_assigned_to e.technician_id t && (is_custody e.kind && is_open ds e.booking_id)
      then e.amount_paise
      else 0)
    + held t ds es

abbrev pub custody_count : String → List Entry → ℕ
custody_count id [] = 0
custody_count id (e ∷ es) = (if is_custody_of id e then 1 else 0) + custody_count id es

-- What the ledger's rows keep to: a booking has one custody row at most, a deposit follows a custody,
-- and each technician's collections are what was deposited and what is held.
pub record IsBalanced (es : List Entry) : Type 0 where
  pub once : (id : String) → custody_count id es ≤ 1
  pub follows : (id : String) → any (is_deposit_of id) es ≡ true → any (is_custody_of id) es ≡ true
  pub balance : (t : String) → collected t es ≡ held t es es + deposited t es

is_open-other :
    (e : Entry) (ds : List Entry) (b : Option String)
    → is_deposit e.kind ≡ false
    → is_open (e ∷ ds) b ≡ is_open ds b
is_open-other e ds none h = refl
is_open-other e ds (some id) h = ground arith

is_open-deposit :
    (id holder : String) (amount : ℕ) (ds : List Entry) (b : Option String)
    → is_assigned_to b id ≡ false
    → is_open (deposit_entry id holder amount ∷ ds) b ≡ is_open ds b
is_open-deposit id holder amount ds none h = refl
is_open-deposit id holder amount ds (some j) h = ground (arith, eq_iff id j, eq_iff j id)

is_open-closed :
    (id holder : String) (amount : ℕ) (ds : List Entry) (b : Option String)
    → is_assigned_to b id ≡ true
    → is_open (deposit_entry id holder amount ∷ ds) b ≡ false
is_open-closed id holder amount ds none h = cc
is_open-closed id holder amount ds (some j) h = ground (arith, eq_iff id j, eq_iff j id)

pub is_open-fresh :
    (id : String) (ds : List Entry) (b : Option String)
    → is_assigned_to b id ≡ true
    → any (is_deposit_of id) ds ≡ false
    → is_open ds b ≡ true
is_open-fresh id ds none h k = refl
is_open-fresh id ds (some j) h k = let same : j ≡ id = (eq_iff _ _).0 h in rw (same, k) refl

-- An entry that is no deposit closes nothing.
pub held-other :
    (t : String) (e : Entry) (ds es : List Entry)
    → is_deposit e.kind ≡ false
    → held t (e ∷ ds) es ≡ held t ds es
held-other t e ds [] h = refl
held-other t e ds (x ∷ es) h = rw (is_open-other e ds x.booking_id h, held-other t e ds es h) refl

pub count_none :
    (id : String) (es : List Entry) → any (is_custody_of id) es ≡ false → custody_count id es ≡ 0
count_none id [] h = refl
count_none id (e ∷ es) h = ground (arith, count_none id es)

-- What a row is worth among what the technician holds.
abbrev worth : String → List Entry → Entry → ℕ
worth t ds x =
    if is_assigned_to x.technician_id t && (is_custody x.kind && is_open ds x.booking_id)
    then x.amount_paise
    else 0

worth-other :
    (t id holder : String) (amount : ℕ) (ds : List Entry) (x : Entry)
    → is_custody_of id x ≡ false
    → worth t (deposit_entry id holder amount ∷ ds) x ≡ worth t ds x
worth-other t id holder amount ds x h = elim (Bool-cases (is_assigned_to x.booking_id id)) [
  | inl e ↦ let no_custody : is_custody x.kind ≡ false = ground arith in rw no_custody refl
  | inr e ↦ rw (is_open-deposit id holder amount ds x.booking_id e) refl
]

held-unrelated :
    (t id holder : String) (amount : ℕ) (ds es : List Entry)
    → custody_count id es ≡ 0
    → held t (deposit_entry id holder amount ∷ ds) es ≡ held t ds es
held-unrelated t id holder amount ds [] h = refl
held-unrelated t id holder amount ds (x ∷ es) h = omega (
  arith,
  worth-other t id holder amount ds x (ground arith),
  held-unrelated t id holder amount ds es (ground arith),
)

-- A deposit closes exactly the custody row that was found.
pub held-deposit :
    (t id holder : String) (amount : ℕ) (ds es : List Entry) (c : Entry)
    → find (is_custody_of id) es ≡ some c
    → custody_count id es ≤ 1
    → any (is_deposit_of id) ds ≡ false
    → held t ds es
      ≡ (if is_assigned_to c.technician_id t then c.amount_paise else 0)
        + held t (deposit_entry id holder amount ∷ ds) es
held-deposit t id holder amount ds [] c e once fresh = cc
held-deposit t id holder amount ds (x ∷ es) c e once fresh =
    elim (Bool-cases (is_custody_of id x)) [
      | inl hit ↦
          let same : x ≡ c = found-head _ c x _ hit e in
          let of_id : is_assigned_to x.booking_id id ≡ true = ground arith in
          let closed = is_open-closed id holder amount ds x.booking_id of_id in
          let opened = is_open-fresh id ds x.booking_id of_id fresh in
          let rest = held-unrelated t id holder amount ds es (ground arith) in
          rw (← same, closed, opened) (ground (arith, rest))
      | inr miss ↦
          let rest =
            held-deposit t id holder amount ds es c (found-tail _ c x _ miss e) (ground arith)
              fresh in
          omega (arith, rest, worth-other t id holder amount ds x miss)
    ]
