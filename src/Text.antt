-- ===== src/Text.antt =====
-- JavaScript text as the apps use it, over the native `String`: truthiness, the decimal digit
-- class `\d` of a regular expression, `trim`, and the `?? ""` of an optional text.
use Prim.Native.Char.{Char, code}
use Prim.Native.String.{◌++◌ as text_append}
pub mod Digits
pub mod Search
use mathlib.Core.List.{Memᴰ}
use sethu_care.Prelude.{
  ℕ, suc, ◌≡◌, ◌⊎◌, List, [], ◌∷◌, All, refl, true, inl, inr, arith, Bool-cases, eq_iff, Bool,
  false, not, ◌&&◌, ◌||◌, String, Option, none, some, leb, ◌==◌, str_eq, if◌then◌else◌,
}

-- A text in a test: `null`, `undefined` and "" are false.
abbrev pub is_truthy : Option String → Bool
is_truthy none = false
is_truthy (some t) = not (str_eq t "")

-- `t ?? ""`.
abbrev pub or_empty : Option String → String
or_empty none = ""
or_empty (some t) = t

pub is_truthy-or_empty :
    (t : Option String) → is_truthy t ≡ true → is_truthy (some (or_empty t)) ≡ true
is_truthy-or_empty none h = cc
is_truthy-or_empty (some t) h = h

-- A text is one of a list, or differs from each.
pub text_cases :
    (names : List String) (t : String) → Memᴰ t names ⊎ All (λ n. str_eq t n ≡ false) names
text_cases [] t = inr tt
text_cases (n ∷ ns) t = elim (Bool-cases (str_eq t n)) [
  | inl e ↦ inl (Memᴰ.head ((eq_iff _ _).0 e))
  | inr e ↦ elim (text_cases ns t) [ inl m ↦ inl (Memᴰ.tail m) | inr a ↦ inr (e, a) ]
]

pub All-Memᴰ {ℓ} :
    (P : String → Type ℓ) (names : List String) {t : String} → All P names → Memᴰ t names → P t
All-Memᴰ P [] h m = elim m [ ]
All-Memᴰ P (n ∷ ns) (p, ps) (Memᴰ.head e) = rw e p
All-Memᴰ P (n ∷ ns) (p, ps) (Memᴰ.tail m) = All-Memᴰ P ns ps m

-- `t ?? other`.
abbrev pub or_else {ℓ} : {A : Type ℓ} → Option A → A → A
or_else none other = other
or_else (some t) other = t

-- `t ?? other` where the other may be missing too.
abbrev pub or_option {ℓ} : {A : Type ℓ} → Option A → Option A → Option A
or_option none other = other
or_option (some t) other = some t

-- The text where it is there and not blank, as `t ? … : null` shows it.
abbrev pub if_truthy : Option String → Option String
if_truthy t = if is_truthy t then t else none

-- `.filter(Boolean)` and `.join(separator)`.
unfoldable pub truthy_texts : List (Option String) → List String
truthy_texts [] = []
truthy_texts (t ∷ ts) = if is_truthy t then or_empty t ∷ truthy_texts ts else truthy_texts ts

unfoldable pub join : String → List String → String
join separator [] = ""
join separator (t ∷ []) = t
join separator (t ∷ u ∷ ts) = text_append t (text_append separator (join separator (u ∷ ts)))

unfoldable pub join_truthy : String → List (Option String) → String
unfolding truthy_texts join
join_truthy separator ts = join separator (truthy_texts ts)

abbrev pub is_digit : Char → Bool
is_digit c = leb b'0' (code c) && leb (code c) b'9'

-- `/^\d{n}$/`.
unfoldable pub is_digits : ℕ → String → Bool
is_digits n String.[] = n == 0
is_digits ℕ.zero (String.◌∷◌ c t) = false
is_digits (suc n) (String.◌∷◌ c t) = is_digit c && is_digits n t

pub cons-ne-empty : (c : Char) (t : String) → str_eq (String.◌∷◌ c t) "" ≡ false
cons-ne-empty c t = elim (Bool-cases (str_eq (String.◌∷◌ c t) "")) [
  | inl e ↦ let same : String.◌∷◌ c t ≡ "" = (eq_iff _ _).0 e in cc
  | inr e ↦ e
]

pub is_digits-ne_empty : (n : ℕ) (t : String) → is_digits (suc n) t ≡ true → str_eq t "" ≡ false
unfolding is_digits
is_digits-ne_empty n String.[] h = ground arith
is_digits-ne_empty n (String.◌∷◌ c t) h = cons-ne-empty c t

-- The characters that `trim` removes: `WhiteSpace` and `LineTerminator` of ECMAScript.
abbrev pub is_blank : Char → Bool
is_blank c =
    (leb 9 (code c) && leb (code c) 13)
    || (code c == 32
        || (code c == 0xa0
            || (code c == 0x1680
                || ((leb 0x2000 (code c) && leb (code c) 0x200a)
                    || (code c == 0x2028
                        || (code c == 0x2029
                            || (code c == 0x202f
                                || (code c == 0x205f
                                    || (code c == 0x3000 || code c == 0xfeff)))))))))

unfoldable pub trim_start : String → String
trim_start String.[] = ""
trim_start (String.◌∷◌ c t) = if is_blank c then trim_start t else String.◌∷◌ c t

-- A blank goes if nothing is left behind it.
abbrev pub drop_blank : Char → String → String
drop_blank c rest = if is_blank c && str_eq rest "" then "" else String.◌∷◌ c rest

unfoldable pub trim_end : String → String
trim_end String.[] = ""
trim_end (String.◌∷◌ c t) = drop_blank c (trim_end t)

unfoldable pub trim : String → String
unfolding trim_start trim_end
trim t = trim_end (trim_start t)

trimmed : trim "  a b  " ≡ "a b"
unfolding trim
trimmed = refl

drop_blank-start :
    (c : Char) (rest : String)
    → is_blank c ≡ false
    → trim_start (drop_blank c rest) ≡ drop_blank c rest
unfolding trim_start
drop_blank-start c rest h = rw (h, trim_start) (rw h)

-- Nothing to trim at the front is left so by trimming the end.
trim_end-start : (t : String) → trim_start (trim_end (trim_start t)) ≡ trim_end (trim_start t)
unfolding trim_start trim_end
trim_end-start String.[] = refl
trim_end-start (String.◌∷◌ c t) = elim (Bool-cases (is_blank c)) [
  | inl b ↦ rw b (trim_end-start t)
  | inr b ↦ rw b (drop_blank-start c (trim_end t) b)
]

drop_blank-end :
    (c : Char) (rest : String)
    → trim_end rest ≡ rest
    → trim_end (drop_blank c rest) ≡ drop_blank c rest
unfolding trim_end
drop_blank-end c rest h = elim (Bool-cases (is_blank c && str_eq rest "")) [
  | inl b ↦ rw b refl
  | inr b ↦ rw b (rw h (rw b refl))
]

trim_end-trim_end : (t : String) → trim_end (trim_end t) ≡ trim_end t
unfolding trim_end
trim_end-trim_end String.[] = refl
trim_end-trim_end (String.◌∷◌ c t) = drop_blank-end c (trim_end t) (trim_end-trim_end t)

pub trim-trim : (t : String) → trim (trim t) ≡ trim t
unfolding trim
trim-trim t = rw (trim_end-start t) (trim_end-trim_end (trim_start t))
