-- ===== src/Ledger/Counts.antt =====
-- internal/ledger/service.go: what the ledger books once for an order.
use sethu_care.Prelude.{
  ℕ, ◌+◌, ◌≤◌, ◌≡◌, refl, subst, Bool, true, false, ◌&&◌, String, List, [], ◌∷◌, any, str_eq,
  if◌then◌else◌, arith, Bool-cases, inl, inr, eq_iff, any_weaken,
}
use sethu_care.Backend.{is_assigned_to}
use sethu_care.Ledger.{Entry, EntryKind, is_revenue, is_credit, completion_exists}
use sethu_care.Ledger.Calls.{Call, IsKept, calls, calls-kept, no_books}

-- How many rows credit the order, and how many book its revenue.
abbrev pub entry_count : (EntryKind → Bool) → String → List Entry → ℕ
entry_count kind order [] = 0
entry_count kind order (e ∷ es) =
    (if is_assigned_to e.order_id order && kind e.kind then 1 else 0) + entry_count kind order es

IsBookedOnce : List Entry → Type 0
IsBookedOnce es =
    (order : String) → (entry_count is_revenue order es ≤ 1) × (entry_count is_credit order es ≤ 1)

count_none :
    (kind : EntryKind → Bool) (order : String) (es : List Entry)
    → any (λ e. is_assigned_to e.order_id order && kind e.kind) es ≡ false
    → entry_count kind order es ≡ 0
count_none kind order [] h = refl
count_none kind order (e ∷ es) h = ground (arith, count_none kind order es)

-- An entry for `own` on books that have none for it keeps every count at one.
count-added :
    (kind : EntryKind → Bool) (own order : String) (es : List Entry) (hit : Bool)
    → any (λ e. is_assigned_to e.order_id own && kind e.kind) es ≡ false
    → entry_count kind order es ≤ 1
    → (if str_eq own order && hit then 1 else 0) + entry_count kind order es ≤ 1
count-added kind own order es hit fresh h = elim (Bool-cases (str_eq own order)) [
  | inl e ↦
      let same : own ≡ order = (eq_iff _ _).0 e in
      let none_there : entry_count kind order es ≡ 0 =
        subst (λ x. entry_count kind x es ≡ 0) same (count_none kind own es fresh) in
      ground (arith, none_there)
  | inr e ↦ rw e (ground (arith, h))
]

IsBookedOnce-kept : IsKept IsBookedOnce
unfolding IsBookedOnce completion_exists
IsBookedOnce-kept = record {
  revenue_kept = λ p payer es fresh h order.
      let no_revenue =
        any_weaken _ (λ e. is_assigned_to e.order_id p.order_id && is_revenue e.kind) es
          (λ e none_there. ground arith) fresh in
      (
        count-added is_revenue p.order_id order es true no_revenue (h order).0,
        ground (arith, h order),
      );
  custody_kept = λ row holder es fresh h order. ground (arith, h order);
  credit_kept = λ row amount es fresh h order.
      (ground (arith, h order), count-added is_credit row.order_id order es true fresh (h order).1);
  deposit_kept = λ id holder es c _ _ _ h order. ground (arith, h order);
}

-- However often and in whatever order the calls come, an order's revenue is booked at most once, and
-- at most one credit is issued for it.
pub calls-booked_once :
    (cs : List Call) (order : String)
    → (entry_count is_revenue order (calls cs no_books).entries ≤ 1)
      × (entry_count is_credit order (calls cs no_books).entries ≤ 1)
unfolding IsBookedOnce
calls-booked_once cs =
    calls-kept IsBookedOnce IsBookedOnce-kept cs no_books λ order. (omega arith, omega arith)
