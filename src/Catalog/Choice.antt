-- ===== src/Catalog/Choice.antt =====
-- The variant that the service screen hands to the checkout.
use mathlib.Core.List.{Memᴰ}
use sethu_care.Prelude.{
  ◌≡◌, refl, ◌⊎◌, inl, inr, Bool, true, String, Option, none, some, List, [], ◌∷◌, find, Bool-cases,
  sym, subst, Option-cases,
}
use sethu_care.Catalog.{Variant, same_id, selected, book, confirm_of}

find-Memᴰ {ℓ} :
    {A : Type ℓ} (p : A → Bool) (xs : List A) {x : A}
    → find p xs ≡ some x
    → Memᴰ x xs × (p x ≡ true)
find-Memᴰ p [] e = cc
find-Memᴰ p (y ∷ ys) {x} e = elim (Bool-cases (p y)) [
  | inl k ↦
      let same : some y ≡ some x = rw k at e in
      let one : y ≡ x = cc in (Memᴰ.head (sym one), subst (λ z. p z ≡ true) one k)
  | inr k ↦
      let later : find p ys ≡ some x = rw k at e in
      let (m, q) = find-Memᴰ p ys later in (Memᴰ.tail m, q)
]

-- Booking leads to the checkout of a variant of the service: the one that was tapped, if its id is
-- still listed, and otherwise the first. Only a service with no variants leads nowhere.
pub book-selected :
    (first : Variant) (rest : List Variant) (selected_id : Option String)
    → (v : Variant) × (book (first ∷ rest) selected_id ≡ some (confirm_of v))
      × Memᴰ v (first ∷ rest)
      × ((same_id v.id selected_id ≡ true)
          ⊎ ((v ≡ first)
              × (find (λ (w : Variant). same_id w.id selected_id) (first ∷ rest) ≡ none)))
unfolding book selected
book-selected first rest selected_id =
    elim (Option-cases (find (λ (w : Variant). same_id w.id selected_id) (first ∷ rest))) [
      | inl e ↦ (first, rw (e, book) refl, Memᴰ.head refl, inr (refl, e))
      | inr (v, e) ↦
          let (m, q) = find-Memᴰ (λ (w : Variant). same_id w.id selected_id) (first ∷ rest) e in
          (v, rw (e, book) refl, m, inl q)
    ]
