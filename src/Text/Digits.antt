-- ===== src/Text/Digits.antt =====
-- Texts of digits, as the phone and pincode fields keep them.
use sethu_care.Prelude.{
  ℕ, zero, suc, ◌≡◌, refl, inl, inr, Bool, true, ◌&&◌, String, arith, if◌then◌else◌, Bool-cases,
}
use sethu_care.Text.{is_digit, is_digits}

-- `text.replace(/\D/g, "")`.
unfoldable pub keep_digits : String → String
keep_digits String.[] = ""
keep_digits (String.◌∷◌ c t) = if is_digit c then String.◌∷◌ c (keep_digits t) else keep_digits t

-- `text.slice(0, n)` and `text.length`, on texts of digits.
unfoldable pub slice : ℕ → String → String
slice zero t = ""
slice (suc n) String.[] = ""
slice (suc n) (String.◌∷◌ c t) = String.◌∷◌ c (slice n t)

unfoldable pub text_length : String → ℕ
text_length String.[] = 0
text_length (String.◌∷◌ c t) = suc (text_length t)

abbrev pub all_digits : String → Bool
all_digits String.[] = true
all_digits (String.◌∷◌ c t) = is_digit c && all_digits t

pub keep_digits-all_digits : (t : String) → all_digits (keep_digits t) ≡ true
unfolding keep_digits
keep_digits-all_digits String.[] = refl
keep_digits-all_digits (String.◌∷◌ c t) = elim (Bool-cases (is_digit c)) [
  | inl e ↦ rw e (rw e (keep_digits-all_digits t))
  | inr e ↦ rw e (keep_digits-all_digits t)
]

pub slice-all_digits : (n : ℕ) (t : String) → all_digits t ≡ true → all_digits (slice n t) ≡ true
unfolding slice
slice-all_digits zero t h = refl
slice-all_digits (suc n) String.[] h = refl
slice-all_digits (suc n) (String.◌∷◌ c t) h = ground (arith, slice-all_digits n t)

pub is_digits-all_digits :
    (n : ℕ) (t : String) → all_digits t ≡ true → text_length t ≡ n → is_digits n t ≡ true
unfolding is_digits text_length
is_digits-all_digits n String.[] h e = ground arith
is_digits-all_digits zero (String.◌∷◌ c t) h e = absurd (omega arith)
is_digits-all_digits (suc n) (String.◌∷◌ c t) h e = ground (arith, is_digits-all_digits n t)

pub text_length-is_digits : (n : ℕ) (t : String) → is_digits n t ≡ true → text_length t ≡ n
unfolding is_digits text_length
text_length-is_digits n String.[] h = ground arith
text_length-is_digits zero (String.◌∷◌ c t) h = cc
text_length-is_digits (suc n) (String.◌∷◌ c t) h = ground (arith, text_length-is_digits n t)
