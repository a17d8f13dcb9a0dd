-- ===== src/Prelude/Lists.antt =====
-- Lists measured by native numbers, and the predicate that holds of every element.
use Prim.Native.Nat.{ℕ, zero, suc, ◌+◌, ◌≤◌}
use mathlib.Core.Path.{◌≡◌, refl, ap, subst}
use mathlib.Core.Bool.{Bool, true, false}
use mathlib.Core.Option.{Option, none, some}
use mathlib.Core.List.{List, [], ◌∷◌, ◌++◌, map}
use mathlib.Core.Logic.{inl, inr}
use native.Mathlib.Omega.{arith}
use sethu_care.Prelude.Tests.{if◌then◌else◌, Bool-cases, found-head, found-tail}

module _ {ℓ} {A : Type ℓ} where
  abbrev pub length : List A → ℕ
  length [] = 0
  length (x ∷ xs) = suc (length xs)

  abbrev pub take : ℕ → List A → List A
  take zero xs = []
  take (suc n) [] = []
  take (suc n) (x ∷ xs) = x ∷ take n xs

  -- `Array.prototype.filter`.
  abbrev pub keep : (A → Bool) → List A → List A
  keep p [] = []
  keep p (x ∷ xs) = if p x then x ∷ keep p xs else keep p xs

  -- `Array.prototype.find`.
  abbrev pub find : (A → Bool) → List A → Option A
  find p [] = none
  find p (x ∷ xs) = if p x then some x else find p xs

  -- `Array.prototype.some`.
  abbrev pub any : (A → Bool) → List A → Bool
  any p [] = false
  any p (x ∷ xs) = if p x then true else any p xs

  pub length-append : (xs ys : List A) → length (xs ++ ys) ≡ length xs + length ys
  length-append [] ys = omega arith
  length-append (x ∷ xs) ys = omega (arith, length-append xs ys)

  pub length-take : (n : ℕ) (xs : List A) → length (take n xs) ≤ n
  length-take zero xs = omega arith
  length-take (suc n) [] = omega arith
  length-take (suc n) (x ∷ xs) = omega (arith, length-take n xs)

  pub take-take : (n : ℕ) (xs : List A) → take n (take n xs) ≡ take n xs
  take-take zero xs = refl
  take-take (suc n) [] = refl
  take-take (suc n) (x ∷ xs) = ap (λ ys. x ∷ ys) (take-take n xs)

-- What passes no test passes none that is stricter.
pub any_weaken {ℓ} :
    {A : Type ℓ} (p q : A → Bool) (xs : List A)
    → ((x : A) → p x ≡ false → q x ≡ false)
    → any p xs ≡ false
    → any q xs ≡ false
any_weaken p q [] weaker h = refl
any_weaken p q (x ∷ xs) weaker h = ground (arith, weaker x, any_weaken p q xs weaker)

pub find-any {ℓ} :
    {A : Type ℓ} (p : A → Bool) (xs : List A) (x : A) → find p xs ≡ some x → any p xs ≡ true
find-any p [] x e = cc
find-any p (y ∷ ys) x e = ground (arith, find-any p ys x)

pub find-holds {ℓ} :
    {A : Type ℓ} (p : A → Bool) (xs : List A) (x : A) → find p xs ≡ some x → p x ≡ true
find-holds p [] x e = cc
find-holds p (y ∷ ys) x e = elim (Bool-cases (p y)) [
  | inl hit ↦ subst (λ z. p z ≡ true) (found-head (p y) x y (find p ys) hit e) hit
  | inr miss ↦ find-holds p ys x (found-tail (p y) x y (find p ys) miss e)
]

-- A map that the test does not notice maps what is found.
pub find-map {ℓ} :
    {A : Type ℓ} (p : A → Bool) (f : A → A) (xs : List A) (x : A)
    → ((y : A) → p (f y) ≡ p y)
    → find p xs ≡ some x
    → find p (map f xs) ≡ some (f x)
find-map p f [] x same e = cc
find-map p f (y ∷ ys) x same e = elim (Bool-cases (p y)) [
  | inl hit ↦ rw (same y, hit) (ap (λ z. some (f z)) (found-head (p y) x y (find p ys) hit e))
  | inr miss ↦ rw (same y, miss) (find-map p f ys x same (found-tail (p y) x y (find p ys) miss e))
]

module _ {ℓ κ} {A : Type ℓ} (P : A → Type κ) where
  abbrev pub All : List A → Type κ
  All [] = Unit
  All (x ∷ xs) = P x × All xs

  pub All-append : (xs ys : List A) → All xs → All ys → All (xs ++ ys)
  All-append [] ys _ k = k
  All-append (x ∷ xs) ys (p, h) k = (p, All-append xs ys h k)

  pub All-take : (n : ℕ) (xs : List A) → All xs → All (take n xs)
  All-take zero xs _ = tt
  All-take (suc n) [] _ = tt
  All-take (suc n) (x ∷ xs) (p, h) = (p, All-take n xs h)

  pub find-All : (q : A → Bool) (xs : List A) → All xs → (x : A) → find q xs ≡ some x → P x
  find-All q [] h x e = cc
  find-All q (y ∷ ys) (p, h) x e = go (q y) e (find-All q ys h x)
    where
      go :
          (b : Bool) → (if b then some y else find q ys) ≡ some x → (find q ys ≡ some x → P x) → P x
      go true k _ = let same : y ≡ x = cc in subst P same p
      go false k rest = rest k

  pub All-keep : (q : A → Bool) (xs : List A) → All xs → All (keep q xs)
  All-keep q [] _ = tt
  All-keep q (x ∷ xs) (p, h) = go (q x) (All-keep q xs h)
    where
      go : (b : Bool) → All (keep q xs) → All (if b then x ∷ keep q xs else keep q xs)
      go true k = (p, k)
      go false k = k
