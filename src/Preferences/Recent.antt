-- ===== src/Preferences/Recent.antt =====
-- The list of recent searches.
use sethu_care.Prelude.{
  ℕ, zero, suc, ap, inl, inr, eq_refl, take-take, ◌≤◌, ◌≡◌, ◌≢◌, refl, Bool, true, false, not,
  String, some, List, [], ◌∷◌, arith, str_eq, eq_iff, take, keep, length, length-take, All,
  All-take, All-keep, Bool-cases,
}
use sethu_care.Text.{trim, trim-trim}
use sethu_care.Preferences.{max_recent_searches, next_recent}
use mathlib.Core.List.{head?}

module _ (lower : String → String) where
  -- No entry is another spelling of the term.
  abbrev pub IsFresh : String → List String → Type 0
  IsFresh term = All (λ t. lower t ≢ lower term)

  abbrev pub AreDistinct : List String → Type 0
  AreDistinct [] = Unit
  AreDistinct (t ∷ ts) = IsFresh t ts × AreDistinct ts

  AreDistinct-take : (n : ℕ) (ts : List String) → AreDistinct ts → AreDistinct (take n ts)
  AreDistinct-take zero ts h = tt
  AreDistinct-take (suc n) [] h = tt
  AreDistinct-take (suc n) (t ∷ ts) (f, h) =
      (All-take (λ u. lower u ≢ lower t) n ts f, AreDistinct-take n ts h)

  AreDistinct-keep :
      (p : String → Bool) (ts : List String) → AreDistinct ts → AreDistinct (keep p ts)
  AreDistinct-keep p [] h = tt
  AreDistinct-keep p (t ∷ ts) (f, h) = elim (Bool-cases (p t)) [
    | inl e ↦ rw e (All-keep (λ u. lower u ≢ lower t) p ts f, AreDistinct-keep p ts h)
    | inr e ↦ rw e (AreDistinct-keep p ts h)
  ]

  abbrev differs : String → String → Bool
  differs term t = not (str_eq (lower t) (lower term))

  differs-ne : (term t : String) → differs term t ≡ true → lower t ≢ lower term
  differs-ne term t h e = cc (rw (e, eq_refl (lower term)) at h)

  ne-differs : (term t : String) → lower t ≢ lower term → differs term t ≡ true
  ne-differs term t h = ground (arith, eq_iff (lower t) (lower term))

  IsFresh-keep : (term : String) (ts : List String) → IsFresh term (keep (differs term) ts)
  IsFresh-keep term [] = tt
  IsFresh-keep term (t ∷ ts) = elim (Bool-cases (differs term t)) [
    | inl e ↦ rw e (differs-ne term t e, IsFresh-keep term ts)
    | inr e ↦ rw e (IsFresh-keep term ts)
  ]

  keep_of_IsFresh :
      (term : String) (ts : List String) → IsFresh term ts → keep (differs term) ts ≡ ts
  keep_of_IsFresh term [] h = refl
  keep_of_IsFresh term (t ∷ ts) (n, h) =
      rw (ne-differs term t n) (ap (λ us. t ∷ us) (keep_of_IsFresh term ts h))

  -- The list holds at most six searches, no two of them spelled alike but for case, and each is
  -- trimmed and not blank.
  pub record IsTidy (ts : List String) : Type 0 where
    pub few : length ts ≤ max_recent_searches
    pub distinct : AreDistinct ts
    pub trimmed : All (λ t. (trim t ≡ t) × (str_eq t "" ≡ false)) ts

  -- A search keeps the list tidy and puts the searched term first, whatever was searched before.
  pub next_recent-IsTidy :
      (term : String) (recent : List String)
      → str_eq (trim term) "" ≡ false
      → IsTidy recent
      → IsTidy (next_recent lower (trim term) recent)
        × (head? (next_recent lower (trim term) recent) ≡ some (trim term))
  unfolding next_recent
  next_recent-IsTidy term recent ne h =
      let p = differs (trim term) in
      (
        record {
          few = omega (arith, length-take {0} 5 (keep p recent));
          distinct =
              AreDistinct-take 6 (trim term ∷ keep p recent)
                (IsFresh-keep (trim term) recent, AreDistinct-keep p recent h.distinct);
          trimmed =
              ((trim-trim term, ne), All-take _ 5 (keep p recent) (All-keep _ p recent h.trimmed));
        },
        refl,
      )

  -- Searching the same term again changes nothing.
  pub next_recent_idempotent :
      (term : String) (recent : List String)
      → next_recent lower term (next_recent lower term recent) ≡ next_recent lower term recent
  unfolding next_recent
  next_recent_idempotent term recent =
      let rest = keep (differs term) recent in
      rw (eq_refl (lower term)) (
        rw
          (keep_of_IsFresh term (take 5 rest)
            (All-take (λ u. lower u ≢ lower term) 5 rest (IsFresh-keep term recent)))
          (ap (λ us. term ∷ us) (take-take 5 rest)))
