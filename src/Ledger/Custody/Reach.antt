-- ===== src/Ledger/Custody/Reach.antt =====
-- internal/ledger/service.go: the books that arise, and what the technicians owe in them.
use sethu_care.Prelude.{
  ◌≤◌, ◌≡◌, refl, subst, true, false, String, Option, none, some, List, ◌∷◌, find, any, str_eq,
  arith, Bool-cases, inl, inr, eq_iff, any_weaken, find-any,
}
use sethu_care.Backend.{is_assigned_to}
use sethu_care.Ledger.{
  Entry, BookingRow, is_custody, is_deposit, is_custody_of, is_deposit_of, custody_entry,
  deposit_entry, credit_entry, revenue_entry, completion_exists,
}
use sethu_care.Ledger.Custody.{
  collected, deposited, held-other, held-deposit, custody_count, count_none, IsBalanced,
}
use sethu_care.Ledger.Calls.{Call, IsKept, calls, calls-kept, no_books}

plain-IsBalanced :
    (e : Entry) (es : List Entry)
    → is_custody e.kind ≡ false
    → is_deposit e.kind ≡ false
    → IsBalanced es
    → IsBalanced (e ∷ es)
plain-IsBalanced e es nc nd h = record {
  once = λ id. let before = h.once id in ground arith;
  follows = λ id k. let before = h.follows id in ground arith;
  balance = λ t. let same = held-other t e es es nd in let before = h.balance t in ground arith;
}

exists_custody :
    (order id : String) (es : List Entry)
    → completion_exists order id es ≡ false
    → any (is_custody_of id) es ≡ false
unfolding completion_exists
exists_custody order id es h = any_weaken _ (is_custody_of id) es (λ e none_there. ground arith) h

no_deposit :
    (id : String) (es : List Entry)
    → IsBalanced es
    → any (is_custody_of id) es ≡ false
    → any (is_deposit_of id) es ≡ false
no_deposit id es h fresh = elim (Bool-cases (any (is_deposit_of id) es)) [
  | inl e ↦ let there = h.follows id e in cc
  | inr e ↦ e
]

custody-IsBalanced :
    (row : BookingRow) (holder : String) (es : List Entry)
    → any (is_custody_of row.id) es ≡ false
    → IsBalanced es
    → IsBalanced (custody_entry row holder ∷ es)
custody-IsBalanced row holder es fresh h = record {
  once = λ id.
      let before = h.once id in
      elim (Bool-cases (str_eq row.id id)) [
        | inl e ↦
            let same : row.id ≡ id = (eq_iff _ _).0 e in
            let none_there : custody_count id es ≡ 0 =
              subst (λ x. custody_count x es ≡ 0) same (count_none row.id es fresh) in
            rw e (ground (arith, none_there))
        | inr e ↦ rw e (ground (arith, before))
      ];
  follows = λ id k. ground (arith, h.follows id);
  balance = λ t.
      let same = held-other t (custody_entry row holder) es es refl in
      let opened = no_deposit row.id es h fresh in
      let before = h.balance t in rw (opened, same) (ground (arith, before));
}

same_holder :
    (kept : Option String) (holder t : String)
    → is_assigned_to kept holder ≡ true
    → is_assigned_to kept t ≡ str_eq holder t
same_holder none holder t h = cc
same_holder (some k) holder t h = let same : k ≡ holder = (eq_iff _ _).0 h in rw same refl

deposit-IsBalanced :
    (id holder : String) (es : List Entry) (c : Entry)
    → find (is_custody_of id) es ≡ some c
    → is_assigned_to c.technician_id holder ≡ true
    → any (is_deposit_of id) es ≡ false
    → IsBalanced es
    → IsBalanced (deposit_entry id holder c.amount_paise ∷ es)
deposit-IsBalanced id holder es c found mine fresh h = record {
  once = λ b. let before = h.once b in ground arith;
  follows = λ b k. elim (Bool-cases (str_eq id b)) [
    | inl e ↦
        let same : id ≡ b = (eq_iff _ _).0 e in
        let there : any (is_custody_of b) es ≡ true =
          subst (λ x. any (is_custody_of x) es ≡ true) same (find-any _ es c found) in
        ground (arith, there)
    | inr e ↦ ground (arith, h.follows b)
  ];
  balance = λ t.
      let closed = held-deposit t id holder c.amount_paise es es c found (h.once id) fresh in
      let owner = same_holder c.technician_id holder t mine in
      let before = h.balance t in ground arith;
}

IsBalanced-kept : IsKept IsBalanced
IsBalanced-kept = record {
  revenue_kept = λ p payer es _ h. plain-IsBalanced (revenue_entry p payer) es refl refl h;
  custody_kept = λ row holder es none_there h.
      custody-IsBalanced row holder es (exists_custody row.order_id row.id es none_there) h;
  credit_kept = λ row amount es _ h. plain-IsBalanced (credit_entry row amount) es refl refl h;
  deposit_kept =
      λ id holder es c found mine fresh h. deposit-IsBalanced id holder es c found mine fresh h;
}

-- From empty books, whatever is called in whatever order and however often: a booking has at most one
-- custody row, a deposit is only of cash that was collected, and what each technician collected is what
-- they deposited and what they still hold for bookings without a deposit.
pub calls-IsBalanced : (cs : List Call) → IsBalanced (calls cs no_books).entries
calls-IsBalanced cs =
    calls-kept IsBalanced IsBalanced-kept cs no_books
      record { once = λ id. omega arith; follows = λ id k. cc; balance = λ t. refl }

-- Nobody deposits more than they collected.
pub deposited-le_collected :
    (cs : List Call) (t : String)
    → deposited t (calls cs no_books).entries ≤ collected t (calls cs no_books).entries
deposited-le_collected cs t =
    let balanced = calls-IsBalanced cs in let b = balanced.balance t in omega arith
