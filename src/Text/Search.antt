-- ===== src/Text/Search.antt =====
-- Looking for a text in another.
use Prim.Native.Char.{code}
use sethu_care.Prelude.{
  ◌≡◌, refl, inl, inr, Bool, true, false, ◌||◌, String, arith, ◌==◌, if◌then◌else◌, Bool-cases,
}

-- `text.startsWith(part)` and `text.includes(part)`.
unfoldable pub starts_with : String → String → Bool
starts_with t String.[] = true
starts_with String.[] (String.◌∷◌ p ps) = false
starts_with (String.◌∷◌ c t) (String.◌∷◌ p ps) =
    if code c == code p then starts_with t ps else false

unfoldable pub includes_text : String → String → Bool
unfolding starts_with
includes_text String.[] part = starts_with "" part
includes_text (String.◌∷◌ c t) part = starts_with (String.◌∷◌ c t) part || includes_text t part

pub starts_with-empty : (t : String) → starts_with t "" ≡ true
unfolding starts_with
starts_with-empty String.[] = refl
starts_with-empty (String.◌∷◌ c t) = refl

starts_with_trans :
    (a b c : String) → starts_with a b ≡ true → starts_with b c ≡ true → starts_with a c ≡ true
unfolding starts_with
starts_with_trans a b String.[] h k = starts_with-empty a
starts_with_trans String.[] String.[] (String.◌∷◌ z c) h k = k
starts_with_trans (String.◌∷◌ x a) String.[] (String.◌∷◌ z c) h k = cc
starts_with_trans String.[] (String.◌∷◌ y b) (String.◌∷◌ z c) h k = cc
starts_with_trans (String.◌∷◌ x a) (String.◌∷◌ y b) (String.◌∷◌ z c) h k =
    ground (arith, starts_with_trans a b c)

includes_text-empty : (t : String) → includes_text t "" ≡ true
unfolding includes_text
includes_text-empty String.[] = refl
includes_text-empty (String.◌∷◌ c t) = refl

includes_text-front :
    (a b c : String) → starts_with a b ≡ true → includes_text b c ≡ true → includes_text a c ≡ true
unfolding includes_text
includes_text-front a b String.[] h k = includes_text-empty a
includes_text-front String.[] String.[] (String.◌∷◌ z c) h k = k
includes_text-front (String.◌∷◌ x a) String.[] (String.◌∷◌ z c) h k = cc
includes_text-front String.[] (String.◌∷◌ y b) (String.◌∷◌ z c) h k = cc
includes_text-front (String.◌∷◌ x a) (String.◌∷◌ y b) (String.◌∷◌ z c) h k = ground (
  arith,
  starts_with_trans (String.◌∷◌ x a) (String.◌∷◌ y b) (String.◌∷◌ z c),
  includes_text-front a b (String.◌∷◌ z c),
)

-- What holds a text holds what that text holds.
pub includes_text_trans :
    (a b c : String)
    → includes_text a b ≡ true
    → includes_text b c ≡ true
    → includes_text a c ≡ true
unfolding includes_text
includes_text_trans String.[] b c h k = includes_text-front "" b c h k
includes_text_trans (String.◌∷◌ x a) b c h k = elim (Bool-cases (starts_with (String.◌∷◌ x a) b)) [
  | inl e ↦ includes_text-front (String.◌∷◌ x a) b c e k
  | inr e ↦
      let later : includes_text a c ≡ true = includes_text_trans a b c (rw e at h) k in ground arith
]
