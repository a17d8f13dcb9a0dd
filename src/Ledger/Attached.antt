-- ===== src/Ledger/Attached.antt =====
-- The checks of the table ledger_entries, in db/migrations/00008_ledger.sql, on what
-- internal/ledger/service.go inserts.
use sethu_care.Prelude.{
  ◌≡◌, refl, Bool, true, false, ◌&&◌, ◌||◌, not, String, Option, none, some, List, All, str_eq,
  if◌then◌else◌,
}
use sethu_care.Ledger.{Entry, attaches_to_order, is_cash}
use sethu_care.Ledger.Calls.{Call, IsKept, calls, calls-kept, no_books}

abbrev is_there : Option String → Bool
is_there none = false
is_there (some _) = true

abbrev is_method : String → Option String → Bool
is_method m none = false
is_method m (some n) = str_eq n m

-- The two constraints: money is attached to the order or to the visit and its technician, as its kind
-- says, and what is cash is paid in cash.
pub attaches_rightly : Entry → Bool
attaches_rightly e =
    (if attaches_to_order e.kind
      then is_there e.order_id
      else is_there e.booking_id && is_there e.technician_id)
    && (not (is_cash e.kind) || is_method "CASH" e.method)

IsAttached : List Entry → Type 0
IsAttached es = All (λ e. attaches_rightly e ≡ true) es

IsAttached-kept : IsKept IsAttached
unfolding IsAttached attaches_rightly
IsAttached-kept = record {
  revenue_kept = λ p payer es _ h. (refl, h);
  custody_kept = λ row holder es _ h. (refl, h);
  credit_kept = λ row amount es _ h. (refl, h);
  deposit_kept = λ id holder es c _ _ _ h. (refl, h);
}

-- The database refuses no row that the service inserts: every entry is attached at the level that its
-- kind asks for, and the cash kinds are paid in cash.
pub calls-attaches_rightly :
    (cs : List Call) → All (λ e. attaches_rightly e ≡ true) (calls cs no_books).entries
unfolding IsAttached
calls-attaches_rightly cs = calls-kept IsAttached IsAttached-kept cs no_books tt
