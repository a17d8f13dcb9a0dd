-- ===== src/Ledger/Position.antt =====
-- What a technician owes: `PositionForTechnician` and `Reconciliation` of internal/ledger/service.go over
-- the view technician_cash_position, and the answers `myCash` and `reconciliation` of
-- internal/httpapi/cash.go.
use sethu_care.Prelude.{
  ℕ, ◌-◌, ◌≡◌, Bool, false, String, List, leb, ltb, if◌then◌else◌, arith, map, keep,
}
use sethu_care.Money.{ℤ, pos, negsuc, Chars, rupees}
use sethu_care.Ledger.{Books}
use sethu_care.Ledger.Custody.{collected, deposited, held}
use sethu_care.Ledger.Calls.{Call, calls, no_books}
use sethu_care.Ledger.Custody.Reach.{calls-IsBalanced}

-- The difference of two sums, as the view computes it.
abbrev pub minus : ℕ → ℕ → ℤ
minus a b = if leb b a then pos (a - b) else negsuc (b - a - 1)

-- `CashPosition`, less the name and the age.
pub record CashPosition : Type 0 where
  pub technician_id : String
  pub collected_paise : ℕ
  pub deposited_paise : ℕ
  pub outstanding_paise : ℤ

-- `PositionForTechnician`: without rows all three sums are zero.
unfoldable pub position : String → Books → CashPosition
position t books = record {
  technician_id = t;
  collected_paise = collected t books.entries;
  deposited_paise = deposited t books.entries;
  outstanding_paise = minus (collected t books.entries) (deposited t books.entries);
}

-- The texts of an answer.
pub record MyCash : Type 0 where
  pub collected : Chars
  pub deposited : Chars
  pub outstanding : Chars

abbrev pub cash_texts : CashPosition → MyCash
cash_texts p = record {
  collected = rupees (pos p.collected_paise);
  deposited = rupees (pos p.deposited_paise);
  outstanding = rupees p.outstanding_paise;
}

-- `myCash`.
unfoldable pub my_cash : String → Books → MyCash
unfolding position
my_cash t books = cash_texts (position t books)

abbrev pub owes : CashPosition → Bool
owes p = elim p.outstanding_paise [ pos n ↦ ltb 0 n | negsuc n ↦ false ]

-- `ListCashReconciliation` over the technicians, in the order of their oldest collections, and
-- `reconciliation`: only who still owes.
unfoldable pub reconciliation : List String → Books → List (String × MyCash)
unfolding position
reconciliation technicians books =
    map (λ p. (p.technician_id, cash_texts p)) (keep owes (map (λ t. position t books) technicians))

-- What a technician owes is what they hold, in all books that arise.
pub outstanding-held :
    (cs : List Call) (t : String)
    → (position t (calls cs no_books)).outstanding_paise
      ≡ pos (held t (calls cs no_books).entries (calls cs no_books).entries)
unfolding position
outstanding-held cs t =
    let balanced = calls-IsBalanced cs in let b = balanced.balance t in ground arith
