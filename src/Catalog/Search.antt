-- ===== src/Catalog/Search.antt =====
-- What a search finds and remembers.
use mathlib.Core.List.{Memᴰ}
use sethu_care.Prelude.{
  ◌≡◌, refl, inl, inr, Bool, true, false, String, List, [], ◌∷◌, arith, str_eq, keep, Bool-cases,
}
use sethu_care.Text.{or_empty, trim, trim-trim}
use sethu_care.Text.Search.{includes_text, includes_text_trans}
use sethu_care.Device.{Device}
use sethu_care.Preferences.{Preferences, Json, add_recent_search}
use sethu_care.Preferences.Recent.{IsTidy, next_recent-IsTidy}
use sethu_care.Catalog.{Service, needle, matches, results, submit}

keep-Memᴰ {ℓ} :
    {A : Type ℓ} (p q : A → Bool) (xs : List A) {x : A}
    → ((y : A) → p y ≡ true → q y ≡ true)
    → Memᴰ x (keep p xs)
    → Memᴰ x (keep q xs)
keep-Memᴰ p q [] h m = m
keep-Memᴰ p q (y ∷ ys) {x} h m = elim (Bool-cases (p y)) [
  | inl e ↦
      let here : Memᴰ x (y ∷ keep p ys) = rw e at m in
      rw (h y e) (elim here [
        | Memᴰ.head same ↦ Memᴰ.head same
        | Memᴰ.tail later ↦ Memᴰ.tail (keep-Memᴰ p q ys h later)
      ])
  | inr e ↦
      let later : Memᴰ x (keep p ys) = rw e at m in
      let found = keep-Memᴰ p q ys h later in
      elim (Bool-cases (q y)) [ inl k ↦ rw k (Memᴰ.tail found) | inr k ↦ rw k found ]
]

module _ (lower : String → String) where
  matches-part :
      (long short : String) (s : Service)
      → includes_text long short ≡ true
      → matches lower long s ≡ true
      → matches lower short s ≡ true
  unfolding matches
  matches-part long short s h m = ground (
    arith,
    includes_text_trans (lower (or_empty s.name)) long short,
    includes_text_trans (lower (or_empty s.description)) long short,
  )

  -- Typing on only narrows a search: what is found for a query is found for any query whose needle,
  -- not blank, is part of its needle.
  results-narrow :
      (services : List Service) (long short : String) {s : Service}
      → str_eq (needle lower short) "" ≡ false
      → includes_text (needle lower long) (needle lower short) ≡ true
      → Memᴰ s (results lower services long)
      → Memᴰ s (results lower services short)
  unfolding results
  results-narrow services long short {s} ne part m =
      elim (Bool-cases (str_eq (needle lower long) "")) [
        | inl e ↦ let nowhere : Memᴰ s [] = rw e at m in elim nowhere [ ]
        | inr e ↦
            let here : Memᴰ s (keep (matches lower (needle lower long)) services) = rw e at m in
            rw ne (
              keep-Memᴰ (matches lower (needle lower long)) (matches lower (needle lower short))
                services (λ y. matches-part (needle lower long) (needle lower short) y part) here)
      ]

  -- A search keeps the recent searches tidy, blank or not: at most six, distinct but for case, trimmed
  -- and not blank.
  pub submit-IsTidy :
      (json : Json) (s : Preferences × Device) (query : String)
      → IsTidy lower s.0.recent_searches
      → IsTidy lower (submit lower json s query).0.recent_searches
  unfolding submit add_recent_search
  submit-IsTidy json (p, d) query h = elim (Bool-cases (str_eq (trim query) "")) [
    | inl e ↦ rw e h
    | inr e ↦
        let again : str_eq (trim (trim query)) "" ≡ false = rw (trim-trim query) e in
        rw (e, again) (next_recent-IsTidy lower (trim query) p.recent_searches again h).0
  ]

  -- A search asks the store for one more search, blank or not.
  pub submit-add_recent_search :
      (json : Json) (s : Preferences × Device) (query : String)
      → submit lower json s query ≡ add_recent_search lower json s (trim query)
  unfolding submit add_recent_search
  submit-add_recent_search json (p, d) query = elim (Bool-cases (str_eq (trim query) "")) [
    | inl e ↦ rw (trim-trim query) (rw e refl)
    | inr e ↦ rw e refl
  ]
