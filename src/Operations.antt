-- ===== src/Operations.antt =====
-- The operations pages of the console, under mobile/apps/admin/app/(app): payments/page.tsx,
-- cash/page.tsx, employees/page.tsx, assignments/page.tsx and the overview page.tsx.
--
-- An amount is the list of the code points of its text. The printing of dates and of fractions is a
-- parameter; a query gives its data, or none before the first answer.
pub mod Queue
pub mod Assign
use sethu_care.Prelude.{
  ℕ, ◌+◌, ◌≡◌, refl, Bool, true, false, not, ◌&&◌, ◌||◌, String, Option, none, some, List, [], ◌∷◌,
  ◌++◌, map, length, str_eq, ltb, if◌then◌else◌,
}
use sethu_care.Text.{is_truthy, or_empty, or_else}
use sethu_care.Money.{Chars}
use sethu_care.Money.Positive.{is_positive}

pub data Tone : Type 0 where
  success warning danger neutral : Tone

-- The body of a table: one row with a message, or the rows.
pub data Table {ℓ} (A : Type ℓ) : Type ℓ where
  empty_row : (col_span : ℕ) (message : String) → Table A
  rows : List A → Table A

-- `data?.list ?? []`.
abbrev pub list_of {ℓ} : {A : Type ℓ} → Option (List A) → List A
list_of none = []
list_of (some xs) = xs

unfoldable pub table {ℓ} : {A B : Type ℓ} → (A → B) → List A → Bool → ℕ → String → Table B
table show [] is_loading col_span message =
    empty_row col_span (if is_loading then "Loading…" else message)
table show (x ∷ xs) is_loading col_span message = rows (map show (x ∷ xs))

-- The rows that a table shows.
abbrev pub lines_of {ℓ} : {A : Type ℓ} → Table A → List A
lines_of (empty_row _ _) = []
lines_of (rows xs) = xs

pub lines_of-table {ℓ} :
    {A B : Type ℓ} (show : A → B) (xs : List A) (is_loading : Bool) (col_span : ℕ)
    (message : String)
    → lines_of (table show xs is_loading col_span message) ≡ map show xs
unfolding table
lines_of-table show [] is_loading col_span message = refl
lines_of-table show (x ∷ xs) is_loading col_span message = refl

-- `PendingPaymentResponse`.
pub record PendingPayment : Type 0 where
  pub reference : Option String
  pub amount : Option Chars
  pub status : Option String
  pub created_at : Option String

pub record PaymentLine : Type 0 where
  pub reference : Option String
  pub amount : Option Chars
  pub status_label : String
  pub status_tone : Tone
  pub opened : String
  pub disabled : Bool

-- `value ? print(value) : "—"`.
abbrev pub printed : (String → String) → Option String → String
printed print t = if is_truthy t then print (or_empty t) else "—"

unfoldable pub payment_line : (String → String) → Bool → PendingPayment → PaymentLine
payment_line to_locale is_pending p = record {
  reference = p.reference;
  amount = p.amount;
  status_label = or_empty p.status;
  status_tone = warning;
  opened = printed to_locale p.created_at;
  disabled = is_pending || not (is_truthy p.reference);
}

-- `PaymentsPage`.
unfoldable pub payments_page :
    (String → String)
    → Option (List PendingPayment)
    → (is_loading is_pending : Bool) → Table PaymentLine
payments_page to_locale answer is_loading is_pending =
    table (payment_line to_locale is_pending) (list_of answer) is_loading 5
      "No payments awaiting capture."

-- The press on "Mark captured": the reference that is sent.
unfoldable pub mark_captured : PaymentLine → Option String
mark_captured line =
    if line.disabled
    then none
    else if is_truthy line.reference
    then some (or_empty line.reference)
    else none

-- `CashPositionResponse`.
pub record CashRow : Type 0 where
  pub technician_id : Option String
  pub name : Option String
  pub collected : Option Chars
  pub deposited : Option Chars
  pub outstanding : Option Chars
  pub oldest_collection_at : Option String

-- What the pill of a row says.
pub data CashPill : Type 0 where
  owed : Chars → CashPill
  settled : CashPill

pub record CashLine : Type 0 where
  pub name : Option String
  pub collected : Option Chars
  pub deposited : Option Chars
  pub pill : CashPill
  pub pill_tone : Tone
  pub oldest : String

-- `Number(undefined)` is no number, and no number is above zero.
abbrev pub number_is_positive : Option Chars → Bool
number_is_positive none = false
number_is_positive (some t) = is_positive t

unfoldable pub cash_line : (String → String) → CashRow → CashLine
cash_line to_date row =
    let owes = number_is_positive row.outstanding in
    record {
      name = row.name;
      collected = row.collected;
      deposited = row.deposited;
      pill = if owes then owed (or_else row.outstanding []) else settled;
      pill_tone = if owes then danger else success;
      oldest = printed to_date row.oldest_collection_at;
    }

-- `CashPage`.
unfoldable pub cash_page :
    (String → String) → Option (List CashRow) → (is_loading : Bool) → Table CashLine
cash_page to_date answer is_loading =
    table (cash_line to_date) (list_of answer) is_loading 5 "All clear — no outstanding cash."

-- `TechnicianResponse`; the fractions are of a type that only their printing opens.
pub record Technician (F : Type 0) : Type 0 where
  pub technician_id : Option String
  pub name : Option String
  pub city : Option String
  pub on_leave : Option Bool
  pub is_online : Option Bool
  pub rating : Option F
  pub acceptance_rate : Option F
  pub active_jobs : Option ℕ
  pub max_concurrent_jobs : Option ℕ

pub record TechnicianLine : Type 0 where
  pub name : Option String
  pub city : Option String
  pub status_label : String
  pub status_tone : Tone
  pub rating : String
  pub acceptance : String
  pub load : Option ℕ × Option ℕ

abbrev pub is_set : Option Bool → Bool
is_set none = false
is_set (some b) = b

-- The status of a technician: leave goes before being online.
unfoldable pub status_of : Option Bool → Option Bool → String × Tone
status_of on_leave is_online =
    if is_set on_leave
    then ("On leave", warning)
    else if is_set is_online
    then ("Online", success)
    else ("Offline", neutral)

module _ {F : Type 0} (zero_fraction : F) (fixed_one percent : F → String) where
  unfoldable pub technician_line : Technician F → TechnicianLine
  unfolding status_of
  technician_line t =
      let (label, tone) = status_of t.on_leave t.is_online in
      record {
        name = t.name;
        city = t.city;
        status_label = label;
        status_tone = tone;
        rating = fixed_one (or_else t.rating zero_fraction);
        acceptance = percent (or_else t.acceptance_rate zero_fraction);
        load = (t.active_jobs, t.max_concurrent_jobs);
      }

  -- `EmployeesPage`.
  unfoldable pub employees_page :
      Option (List (Technician F)) → (is_loading : Bool) → Table TechnicianLine
  employees_page answer is_loading =
      table technician_line (list_of answer) is_loading 6 "No technicians yet."

-- The three numbers of `OverviewPage`: the lengths of the two queues, and the sum over the rows of
-- the reconciliation. `add` and `number` are the doubles' sum and `Number`.
module _ {F : Type 0} (zero_fraction : F) (add : F → F → F) (number : Chars → F) where
  pub sum_from : F → List CashRow → F
  sum_from acc [] = acc
  sum_from acc (row ∷ more) = sum_from (add acc (number (or_else row.outstanding (b'0' ∷ [])))) more

  unfoldable pub overview :
      {Q : Type 0}
      → Option (List Q)
      → Option (List PendingPayment)
      → Option (List CashRow)
      → ℕ × ℕ × F
  unfolding sum_from
  overview queue payments cash =
      (length (list_of queue), length (list_of payments), sum_from zero_fraction (list_of cash))
