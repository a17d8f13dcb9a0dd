-- ===== src/Money.antt =====
-- Amounts of money in paise: internal/money/money.go (`FromRupees`, `Rupees`, `Mul`) and the apps'
-- mobile/packages/domain/src/money.ts.
--
-- A text is the list of its code points. An int64 is an integer of its own type; a product of
-- naturals wraps around as int64 does. A panic of `Mul` is `none`.
pub mod Accepted
pub mod Bounds
pub mod Positive
pub mod Roundtrip
use sethu_care.Prelude.{
  ℕ, zero, suc, ◌+◌, ◌-◌, ◌*◌, ◌/◌, ◌%◌, ◌^◌, ◌≡◌, refl, Bool, true, false, not, ◌&&◌, ◌||◌, List,
  [], ◌∷◌, ◌++◌, Option, none, some, ltb, leb, ◌==◌, if◌then◌else◌,
}

pub data ℤ : Type 0 where
  pos negsuc : ℕ → ℤ

abbrev pub Chars : Type 0
Chars = List ℕ

-- `math.MaxInt64`.
abbrev pub max_int64 : ℕ
max_int64 = 2 ^ 63 - 1

-- What `FromRupees` answers: an amount, or one of the three errors.
pub data Parsed : Type 0 where
  amount : ℤ → Parsed
  invalid_amount sub_paise overflow : Parsed

-- `unicode.IsSpace`.
abbrev pub is_space : ℕ → Bool
is_space c =
    (leb 9 c && leb c 13)
    || (c == 32
        || (c == 0x85
            || (c == 0xa0
                || (c == 0x1680
                    || ((leb 0x2000 c && leb c 0x200a)
                        || (c == 0x2028
                            || (c == 0x2029 || (c == 0x202f || (c == 0x205f || c == 0x3000)))))))))

unfoldable pub trim_left : Chars → Chars
trim_left [] = []
trim_left (c ∷ s) = if is_space c then trim_left s else c ∷ s

abbrev pub is_empty : Chars → Bool
is_empty [] = true
is_empty (c ∷ s) = false

unfoldable pub trim_right : Chars → Chars
trim_right [] = []
trim_right (c ∷ s) = let rest = trim_right s in if is_space c && is_empty rest then [] else c ∷ rest

-- `strings.TrimSpace`.
unfoldable pub trim_space : Chars → Chars
unfolding trim_left trim_right
trim_space s = trim_right (trim_left s)

-- `len`: the bytes of the UTF-8.
abbrev pub byte_length : Chars → ℕ
byte_length [] = 0
byte_length (c ∷ s) =
    (if ltb c 0x80 then 1 else if ltb c 0x800 then 2 else if ltb c 0x10000 then 3 else 4)
    + byte_length s

abbrev pub in_front : ℕ → Chars × Chars → Chars × Chars
in_front c (before, after) = (c ∷ before, after)

-- `strings.Cut(text, ".")`.
unfoldable pub cut : Chars → Chars × Chars
cut [] = ([], [])
cut (c ∷ s) = let rest = cut s in if c == b'.' then ([], s) else in_front c rest

abbrev pub is_digit : ℕ → Bool
is_digit c = leb b'0' c && leb c b'9'

abbrev pub each_digit : Chars → Bool
each_digit [] = true
each_digit (c ∷ s) = is_digit c && each_digit s

-- `allDigits`.
abbrev pub all_digits : Chars → Bool
all_digits s = each_digit s && not (is_empty s)

-- The number that digits spell behind `n`.
abbrev pub value : Chars → ℕ → ℕ
value [] n = n
value (c ∷ s) n = value s (n * 10 + (c - b'0'))

-- `strconv.ParseInt(text, 10, 64)` on one or more digits: none is `ErrRange`.
unfoldable pub parse_int : Chars → Option ℕ
parse_int s = let n = value s 0 in if leb n max_int64 then some n else none

abbrev pub negate : ℤ → ℤ
negate (pos zero) = pos 0
negate (pos (suc n)) = negsuc n
negate (negsuc n) = pos (suc n)

-- A natural as the int64 that its low 64 bits are.
abbrev pub wrap : ℕ → ℤ
wrap n = let u = n % 2 ^ 64 in if ltb u (2 ^ 63) then pos u else negsuc (2 ^ 64 - u - 1)

-- Go's division of an int64 by a positive divisor, which truncates.
abbrev pub quotient : ℤ → ℕ → ℤ
quotient (pos n) d = pos (n / d)
quotient (negsuc n) d = negate (pos (suc n / d))

abbrev pub is_nat : ℤ → ℕ → Bool
is_nat (pos m) n = m == n
is_nat (negsuc m) n = false

-- `total > math.MaxInt64 - fracPaise`.
abbrev pub is_above : ℤ → ℕ → Bool
is_above (pos m) n = ltb n m
is_above (negsuc m) n = false

abbrev pub plus : ℤ → ℕ → ℤ
plus (pos m) n = pos (m + n)
plus (negsuc m) n = if leb n m then negsuc (m - n) else pos (n - suc m)

abbrev pub signed : Bool → ℤ → ℤ
signed true m = negate m
signed false m = m

-- The arithmetic of `FromRupees`: whole rupees and the paise behind the point.
unfoldable pub total_of : Bool → ℕ → ℕ → Parsed
total_of negative whole paise =
    let total = wrap (whole * 100) in
    if not (whole == 0) && not (is_nat (quotient total 100) whole)
    then overflow
    else if is_above total (max_int64 - paise)
    then overflow
    else amount (signed negative (plus total paise))

-- Its errors of `ParseInt`.
abbrev pub amount_of : Bool → Option ℕ → Option ℕ → Parsed
amount_of negative none paise = overflow
amount_of negative (some whole) none = invalid_amount
amount_of negative (some whole) (some paise) = total_of negative whole paise

abbrev pub or_zero : Chars → Chars
or_zero [] = b'0' ∷ []
or_zero (c ∷ s) = c ∷ s

-- `for len(frac) < 2 { frac += "0" }`.
abbrev pub pad : Chars → Chars
pad s =
    if byte_length s == 0
    then s ++ (b'0' ∷ b'0' ∷ [])
    else if byte_length s == 1
    then s ++ (b'0' ∷ [])
    else s

-- The rest of `FromRupees` after the sign.
unfoldable pub parse_unsigned : Bool → Chars × Chars → Parsed
parse_unsigned negative (whole, frac) =
    if is_empty whole && is_empty frac
    then invalid_amount
    else if ltb 2 (byte_length frac)
    then sub_paise
    else if all_digits (or_zero whole) && all_digits (pad frac)
    then amount_of negative (parse_int (or_zero whole)) (parse_int (pad frac))
    else invalid_amount

-- The sign, which is one byte.
unfoldable pub parse_signed : Chars → Parsed
parse_signed [] = invalid_amount
parse_signed (c ∷ s) =
    if c == b'-'
    then parse_unsigned true (cut s)
    else if c == b'+'
    then parse_unsigned false (cut s)
    else parse_unsigned false (cut (c ∷ s))

-- `FromRupees`.
unfoldable pub from_rupees : Chars → Parsed
from_rupees input = parse_signed (trim_space input)

-- The digits of a positive number in front of `out`, as many as the fuel allows.
unfoldable pub emit : (fuel : ℕ) → ℕ → Chars → Chars
emit zero n out = out
emit (suc fuel) n out = elim (n == 0) [
  | true ↦ out
  | false ↦ emit fuel (n / 10) ((b'0' + n % 10) ∷ out)
]

-- `%d` of a number below 10 ^ 19, which every int64 is.
unfoldable pub decimal : ℕ → Chars
decimal n = if n == 0 then b'0' ∷ [] else emit 19 n []

-- `%d.%02d` of the rupees and of the paise that are left.
unfoldable pub magnitude : ℕ → Chars
magnitude n = decimal (n / 100) ++ (b'.' ∷ (b'0' + n % 100 / 10) ∷ (b'0' + n % 10) ∷ [])

-- `Rupees`. The least int64 is its own negative, so its quotient and remainder print signed.
unfoldable pub rupees : ℤ → Chars
rupees (pos n) = magnitude n
rupees (negsuc n) =
    if n == max_int64
    then b'-' ∷ b'-' ∷ (decimal (suc n / 100) ++ (b'.' ∷ b'-' ∷ b'8' ∷ []))
    else b'-' ∷ magnitude (suc n)

-- `paiseToRupeeString`: `(paise / 100).toFixed(2)`. Below 2 ^ 51 paise the nearest double to the
-- quotient is closer to it than half a paisa, so the digits are exact.
unfoldable pub paise_to_rupee_string : ℕ → Chars
unfolding magnitude
paise_to_rupee_string paise = magnitude paise

-- `Mul` of an amount that is not negative by a quantity that is not.
unfoldable pub mul : ℕ → ℕ → Option ℤ
mul price quantity =
    if price == 0 || quantity == 0
    then some (pos 0)
    else let product = wrap (price * quantity) in
      if is_nat (quotient product quantity) price then some product else none
