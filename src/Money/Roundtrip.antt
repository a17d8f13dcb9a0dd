-- ===== src/Money/Roundtrip.antt =====
-- internal/money/money.go: an amount printed by `Rupees` is read back by `FromRupees`.
use Prim.Native.Nat.{◌^◌}
use native.Mathlib.Nat.{div-add-mod'}
use sethu_care.Prelude.{
  ℕ, zero, suc, ◌+◌, ◌/◌, ◌%◌, ◌≤◌, ◌<◌, ◌≡◌, refl, ap, Bool, true, false, not, ◌&&◌, some, ◌==◌,
  arith, Bool-cases, inl, inr, [], ◌∷◌, ◌++◌,
}
use sethu_care.Money.{
  ℤ, pos, negsuc, Chars, max_int64, amount, signed, value, each_digit, negate, parse_int, emit,
  decimal, magnitude, rupees, from_rupees, parse_signed, parse_unsigned, amount_of, cut, trim_space,
  trim_left, trim_right, is_space, is_empty, or_zero, byte_length, paise_to_rupee_string,
}
use sethu_care.Money.Bounds.{total_of-exact}

emit-zero : (k n : ℕ) (out : Chars) → (n == 0) ≡ true → emit (suc k) n out ≡ out
unfolding emit
emit-zero k n out e = rw (e, emit) refl

emit-step :
    (k n : ℕ) (out : Chars)
    → (n == 0) ≡ false
    → emit (suc k) n out ≡ emit k (n / 10) ((b'0' + n % 10) ∷ out)
unfolding emit
emit-step k n out e = rw (e, emit) refl

value-emit : (k n : ℕ) (out : Chars) → n < 10 ^ k → value (emit k n out) 0 ≡ value out n
unfolding emit
value-emit zero n out h = let z : n ≡ 0 = omega arith in rw z refl
value-emit (suc k) n out h = elim (Bool-cases (n == 0)) [
  | inl e ↦ let z : n ≡ 0 = ground arith in rw (emit-zero k n out e, z) refl
  | inr e ↦
      let shorter = value-emit k (n / 10) ((b'0' + n % 10) ∷ out) (omega arith) in
      rw (emit-step k n out e, shorter) (ap (value out) (omega arith))
]

each_digit-emit : (k n : ℕ) (out : Chars) → each_digit out ≡ true → each_digit (emit k n out) ≡ true
unfolding emit
each_digit-emit zero n out h = h
each_digit-emit (suc k) n out h = elim (Bool-cases (n == 0)) [
  | inl e ↦ rw (emit-zero k n out e) h
  | inr e ↦
      rw (emit-step k n out e) (each_digit-emit k (n / 10) ((b'0' + n % 10) ∷ out) (ground arith))
]

is_empty-emit : (k n : ℕ) (out : Chars) → is_empty out ≡ false → is_empty (emit k n out) ≡ false
unfolding emit
is_empty-emit zero n out h = h
is_empty-emit (suc k) n out h = elim (Bool-cases (n == 0)) [
  | inl e ↦ rw (emit-zero k n out e) h
  | inr e ↦ rw (emit-step k n out e) (is_empty-emit k (n / 10) ((b'0' + n % 10) ∷ out) refl)
]

pub value-decimal : (n : ℕ) → n < 10 ^ 19 → value (decimal n) 0 ≡ n
unfolding decimal
value-decimal n h = elim (Bool-cases (n == 0)) [
  | inl e ↦ let z : n ≡ 0 = ground arith in rw (e, z) refl
  | inr e ↦ rw e (value-emit 19 n [] h)
]

pub each_digit-decimal : (n : ℕ) → each_digit (decimal n) ≡ true
unfolding decimal
each_digit-decimal n = elim (Bool-cases (n == 0)) [
  | inl e ↦ rw e refl
  | inr e ↦ rw e (each_digit-emit 19 n [] refl)
]

pub is_empty-decimal : (n : ℕ) → is_empty (decimal n) ≡ false
unfolding decimal
is_empty-decimal n = elim (Bool-cases (n == 0)) [
  | inl e ↦ rw e refl
  | inr e ↦ rw (e, emit-step 18 n [] e) (is_empty-emit 18 (n / 10) _ refl)
]

or_zero-full : (s : Chars) → is_empty s ≡ false → or_zero s ≡ s
or_zero-full [] h = cc
or_zero-full (c ∷ s) h = refl

cut-digits : (s rest : Chars) → each_digit s ≡ true → cut (s ++ (b'.' ∷ rest)) ≡ (s, rest)
unfolding cut
cut-digits [] rest h = refl
cut-digits (c ∷ s) rest h =
    let no_point : (c == b'.') ≡ false = ground arith in
    rw (no_point, cut-digits s rest (ground arith)) refl

-- No character of the text is a space.
abbrev is_solid : Chars → Bool
is_solid [] = true
is_solid (c ∷ s) = not (is_space c) && is_solid s

is_solid-append : (s t : Chars) → each_digit s ≡ true → is_solid t ≡ true → is_solid (s ++ t) ≡ true
is_solid-append [] t h k = k
is_solid-append (c ∷ s) t h k = ground (arith, is_solid-append s t)

trim_right-solid : (s : Chars) → is_solid s ≡ true → trim_right s ≡ s
unfolding trim_right
trim_right-solid [] h = refl
trim_right-solid (c ∷ s) h =
    let solid : is_space c ≡ false = ground arith in
    rw (trim_right-solid s (ground arith), solid) refl

trim_space-solid : (s : Chars) → is_solid s ≡ true → trim_space s ≡ s
unfolding trim_space trim_left
trim_space-solid [] h = trim_right-solid [] refl
trim_space-solid (c ∷ s) h =
    let solid : is_space c ≡ false = ground arith in rw solid (trim_right-solid (c ∷ s) h)

-- What `Rupees` writes behind the point.
abbrev two_digits : ℕ → Chars
two_digits n = (b'0' + n % 100 / 10) ∷ (b'0' + n % 10) ∷ []

two_digits-value : (n : ℕ) → value (two_digits n) 0 ≡ n % 100
two_digits-value n = omega arith

parse_int-fits : (s : Chars) (n : ℕ) → value s 0 ≡ n → n ≤ max_int64 → parse_int s ≡ some n
unfolding parse_int
parse_int-fits s n e h = rw e (ground arith)

-- One or more digits before the point and two behind it are read as such.
parse_unsigned-digits :
    (negative : Bool) (whole frac : Chars)
    → is_empty whole ≡ false
    → byte_length frac ≡ 2
    → each_digit whole ≡ true
    → each_digit frac ≡ true
    → parse_unsigned negative (whole, frac) ≡ amount_of negative (parse_int whole) (parse_int frac)
unfolding parse_unsigned
parse_unsigned-digits negative [] frac full two dw df = cc
parse_unsigned-digits negative (c ∷ s) [] full two dw df = absurd (omega arith)
parse_unsigned-digits negative (c ∷ s) (d ∷ t) full two dw df = ground arith

two_digits-digits : (n : ℕ) → each_digit (two_digits n) ≡ true
two_digits-digits n = ground arith

two_digits-bytes : (n : ℕ) → byte_length (two_digits n) ≡ 2
two_digits-bytes n = ground arith

parse-magnitude :
    (negative : Bool) (n : ℕ)
    → n ≤ max_int64
    → parse_unsigned negative (cut (magnitude n)) ≡ amount (signed negative (pos n))
unfolding magnitude
parse-magnitude negative n h =
    let parts = cut-digits (decimal (n / 100)) (two_digits n) (each_digit-decimal (n / 100)) in
    let whole =
      parse_int-fits (decimal (n / 100)) (n / 100) (value-decimal _ (omega arith)) (omega arith) in
    let paise = parse_int-fits (two_digits n) (n % 100) (two_digits-value n) (omega arith) in
    let read =
      parse_unsigned-digits negative (decimal (n / 100)) (two_digits n) (is_empty-decimal (n / 100))
        (two_digits-bytes n) (each_digit-decimal (n / 100)) (two_digits-digits n) in
    rw
      (
        parts,
        read,
        whole,
        paise,
        total_of-exact negative (n / 100) (n % 100) (omega arith) (omega arith),
        div-add-mod' n 100,
      )
      (ground arith)

is_solid-magnitude : (n : ℕ) → is_solid (magnitude n) ≡ true
unfolding magnitude
is_solid-magnitude n =
    is_solid-append (decimal (n / 100)) _ (each_digit-decimal (n / 100)) (ground arith)

-- The first character of a printed magnitude is a digit, so it is no sign.
parse_signed-digit :
    (s : Chars) (rest : Chars)
    → each_digit s ≡ true
    → is_empty s ≡ false
    → parse_signed (s ++ rest) ≡ parse_unsigned false (cut (s ++ rest))
unfolding parse_signed
parse_signed-digit [] rest h full = cc
parse_signed-digit (c ∷ s) rest h full =
    let no_minus : (c == b'-') ≡ false = ground arith in
    let no_plus : (c == b'+') ≡ false = ground arith in rw (no_minus, no_plus) refl

from_rupees-magnitude : (n : ℕ) → n ≤ max_int64 → from_rupees (magnitude n) ≡ amount (pos n)
unfolding from_rupees magnitude
from_rupees-magnitude n h =
    let first =
      parse_signed-digit (decimal (n / 100)) (b'.' ∷ two_digits n) (each_digit-decimal (n / 100))
        (is_empty-decimal (n / 100)) in
    rw (trim_space-solid (magnitude n) (is_solid-magnitude n), first) (parse-magnitude false n h)

from_rupees-minus :
    (n : ℕ) → n ≤ max_int64 → from_rupees (b'-' ∷ magnitude n) ≡ amount (negate (pos n))
unfolding from_rupees parse_signed
from_rupees-minus n h =
    let solid : is_solid (b'-' ∷ magnitude n) ≡ true = is_solid-magnitude n in
    rw (trim_space-solid (b'-' ∷ magnitude n) solid) (parse-magnitude true n h)

-- The amounts of an int64 but the least: those whose negative is one too.
abbrev pub IsSymmetric : ℤ → Type 0
IsSymmetric (pos n) = n ≤ max_int64
IsSymmetric (negsuc n) = suc n ≤ max_int64

-- Every amount but the least int64 is read back from its print, negative ones included.
pub from_rupees-rupees : (m : ℤ) → IsSymmetric m → from_rupees (rupees m) ≡ amount m
unfolding rupees
from_rupees-rupees (pos n) h = from_rupees-magnitude n h
from_rupees-rupees (negsuc n) h =
    let inside : (n == max_int64) ≡ false = ground arith in rw inside (from_rupees-minus (suc n) h)

-- What the apps send for an amount in paise is what the backend reads: the same paise.
pub from_rupees-paise_to_rupee_string :
    (paise : ℕ) → paise < 2 ^ 51 → from_rupees (paise_to_rupee_string paise) ≡ amount (pos paise)
unfolding paise_to_rupee_string
from_rupees-paise_to_rupee_string paise h = from_rupees-magnitude paise (omega arith)
