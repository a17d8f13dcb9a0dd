-- ===== src/Earnings.antt =====
-- The earnings tab of the technician: mobile/apps/provider/src/app/(tabs)/earnings/index.tsx over
-- useMyCash of features/earnings/api.ts. A text of the locale files stands by its key.
use sethu_care.Prelude.{
  ◌≤◌, ◌≡◌, Bool, true, false, String, Option, none, some, List, [], ◌∷◌, ◌==◌, if◌then◌else◌,
  arith,
}
use sethu_care.Text.{or_else}
use sethu_care.Money.{Chars, max_int64}
use sethu_care.Money.Positive.{is_positive, is_positive-rupees}
use sethu_care.Ledger.Custody.{held}
use sethu_care.Ledger.Calls.{Call, calls, no_books}
use sethu_care.Ledger.Position.{MyCash, my_cash, outstanding-held}

-- `MyCashResponse`, each field optional.
pub record CashData : Type 0 where
  pub collected : Option Chars
  pub deposited : Option Chars
  pub outstanding : Option Chars

-- The card of the held amount and the two small cards.
pub record EarningsCards : Type 0 where
  pub icon_tone : String
  pub amount_tone : String
  pub amount : Chars
  pub all_clear : Option String
  pub collected : Chars
  pub deposited : Chars

pub data EarningsView : Type 0 where
  error_state skeleton : EarningsView
  cards : EarningsCards → EarningsView

abbrev pub zero_text : Chars
zero_text = b'0' ∷ []

abbrev field : (CashData → Option Chars) → Option CashData → Chars
field f none = zero_text
field f (some d) = or_else (f d) zero_text

-- `Earnings`.
unfoldable pub earnings : Option CashData → (is_loading is_error : Bool) → EarningsView
earnings answer is_loading is_error =
    let outstanding = field (λ d. d.outstanding) answer in
    let holding_cash = is_positive outstanding in
    if is_error
    then error_state
    else if is_loading
    then skeleton
    else cards record {
      icon_tone = if holding_cash then "primary" else "muted";
      amount_tone = if holding_cash then "primary" else "default";
      amount = outstanding;
      all_clear = if holding_cash then none else some "jobs:earnings.allClear";
      collected = field (λ d. d.collected) answer;
      deposited = field (λ d. d.deposited) answer;
    }

-- The answer of `myCash` as the client reads it.
abbrev pub answered : MyCash → CashData
answered c = record {
  collected = some c.collected;
  deposited = some c.deposited;
  outstanding = some c.outstanding;
}

abbrev pub says_all_clear : EarningsView → Bool
says_all_clear error_state = false
says_all_clear skeleton = false
says_all_clear (cards c) = elim c.all_clear [ none ↦ false | some _ ↦ true ]

-- In all books that arise, the tab that shows a technician's position says that all is clear exactly
-- when the technician holds no cash of a booking that was not deposited, as long as an int64 holds
-- the sum.
pub earnings-all_clear :
    (cs : List Call) (t : String)
    → held t (calls cs no_books).entries (calls cs no_books).entries ≤ max_int64
    → says_all_clear (earnings (some (answered (my_cash t (calls cs no_books)))) false false)
      ≡ (held t (calls cs no_books).entries (calls cs no_books).entries == 0)
unfolding earnings my_cash
earnings-all_clear cs t fits =
    let owed = outstanding-held cs t in
    let tested =
      is_positive-rupees (held t (calls cs no_books).entries (calls cs no_books).entries) fits in
    rw (owed, tested) (ground arith)
