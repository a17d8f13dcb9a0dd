-- ===== src/Money/Positive.antt =====
-- The test `Number(text) > 0` of the screens on the amounts that internal/money/money.go (`Rupees`)
-- prints.
use sethu_care.Prelude.{
  ℕ, ◌+◌, ◌/◌, ◌%◌, ◌^◌, ◌≤◌, ◌<◌, ◌≡◌, ◌≢◌, refl, Bool, true, false, ◌&&◌, ◌||◌, [], ◌∷◌, ◌++◌,
  any, ltb, leb, ◌==◌, if◌then◌else◌, arith, Bool-cases, inl, inr,
}
use sethu_care.Money.{
  pos, Chars, max_int64, value, each_digit, decimal, magnitude, rupees, is_empty,
}
use sethu_care.Money.Roundtrip.{value-decimal, each_digit-decimal, is_empty-decimal}

abbrev pub is_nonzero_digit : ℕ → Bool
is_nonzero_digit c = leb b'1' c && leb c b'9'

-- `Number(text) > 0` for a text of decimal digits with an optional sign and point: it has no minus,
-- and some digit is not zero.
unfoldable pub is_positive : Chars → Bool
is_positive [] = false
is_positive (c ∷ s) = if c == b'-' then false else any is_nonzero_digit (c ∷ s)

value-zeros : (s : Chars) → each_digit s ≡ true → any is_nonzero_digit s ≡ false → value s 0 ≡ 0
value-zeros [] h k = refl
value-zeros (c ∷ s) h k =
    let zero_digit : c ≡ b'0' = ground arith in
    rw zero_digit (value-zeros s (ground arith) (ground arith))

any-append :
    (s t : Chars) → any is_nonzero_digit (s ++ t) ≡ any is_nonzero_digit s || any is_nonzero_digit t
any-append [] t = refl
any-append (c ∷ s) t = ground (arith, any-append s t)

decimal-nonzero : (n : ℕ) → 0 < n → n < 10 ^ 19 → any is_nonzero_digit (decimal n) ≡ true
decimal-nonzero n h k = elim (Bool-cases (any is_nonzero_digit (decimal n))) [
  | inl e ↦ e
  | inr e ↦
      let none_there = value-zeros (decimal n) (each_digit-decimal n) e in
      let spelled = value-decimal n k in absurd (omega (arith, none_there, spelled))
]

is_positive-digits :
    (s rest : Chars)
    → each_digit s ≡ true
    → is_empty s ≡ false
    → is_positive (s ++ rest) ≡ any is_nonzero_digit (s ++ rest)
unfolding is_positive
is_positive-digits [] rest h k = cc
is_positive-digits (c ∷ s) rest h k =
    let no_minus : (c == b'-') ≡ false = ground arith in rw no_minus refl

paise-nonzero :
    (n : ℕ)
    → n % 100 ≢ 0
    → any is_nonzero_digit (b'.' ∷ (b'0' + n % 100 / 10) ∷ (b'0' + n % 10) ∷ []) ≡ true
paise-nonzero n h = ground arith

magnitude-nonzero : (n : ℕ) → 0 < n → n ≤ max_int64 → any is_nonzero_digit (magnitude n) ≡ true
unfolding magnitude
magnitude-nonzero n h k = elim (Bool-cases (n / 100 == 0)) [
  | inl e ↦
      let tail = paise-nonzero n (λ z. absurd (ground arith)) in
      rw
        (any-append (decimal (n / 100)) (b'.' ∷ (b'0' + n % 100 / 10) ∷ (b'0' + n % 10) ∷ []), tail)
        (ground arith)
  | inr e ↦
      let front = decimal-nonzero (n / 100) (ground arith) (omega arith) in
      rw
        (
          any-append (decimal (n / 100)) (b'.' ∷ (b'0' + n % 100 / 10) ∷ (b'0' + n % 10) ∷ []),
          front,
        )
        refl
]

zero_not_positive : is_positive (magnitude 0) ≡ false
unfolding is_positive magnitude decimal
zero_not_positive = refl

-- The screens' test on a printed amount says whether the amount is positive.
pub is_positive-rupees : (n : ℕ) → n ≤ max_int64 → is_positive (rupees (pos n)) ≡ ltb 0 n
unfolding rupees magnitude
is_positive-rupees n h = elim (Bool-cases (n == 0)) [
  | inl e ↦ let z : n ≡ 0 = ground arith in rw z zero_not_positive
  | inr e ↦
      let front =
        is_positive-digits (decimal (n / 100)) (b'.' ∷ (b'0' + n % 100 / 10) ∷ (b'0' + n % 10) ∷ [])
          (each_digit-decimal (n / 100)) (is_empty-decimal (n / 100)) in
      let shown = magnitude-nonzero n (ground arith) h in rw front (ground (arith, shown))
]
