-- ===== src/Money/Accepted.antt =====
-- internal/money/money.go: what `FromRupees` accepts.
use sethu_care.Prelude.{
  ℕ, zero, suc, ◌+◌, ◌*◌, ◌≤◌, ◌<◌, ◌≡◌, subst, Bool, true, false, ◌&&◌, some, ltb, leb, ◌==◌,
  arith, Bool-cases, Option-cases, leb→le, inl, inr, [], ◌∷◌,
}
use sethu_care.Money.{
  ℤ, pos, Chars, max_int64, Parsed, amount, total_of, signed, value, each_digit, all_digits,
  parse_int, from_rupees, parse_signed, parse_unsigned, amount_of, cut, trim_space, is_empty,
  or_zero, pad, byte_length, rupees,
}
use sethu_care.Money.Bounds.{total_of-exact}
use sethu_care.Money.Roundtrip.{IsSymmetric, from_rupees-rupees}

-- What an answer promises: an amount whose negative is an int64 too, or an error.
abbrev IsSafe : Parsed → Type 0
IsSafe (amount m) = IsSymmetric m
IsSafe _ = Unit

pad-value : (s : Chars) → byte_length s ≤ 2 → each_digit (pad s) ≡ true → value (pad s) 0 < 100
pad-value [] h d = omega arith
pad-value (c ∷ []) h d = ground arith
pad-value (c ∷ d ∷ []) h k = ground arith
pad-value (c ∷ d ∷ e ∷ t) h k = absurd (ground arith)

parse_int-bound : (s : Chars) (n : ℕ) → parse_int s ≡ some n → (n ≤ max_int64) × (n ≡ value s 0)
unfolding parse_int
parse_int-bound s n h = ground arith

signed-IsSymmetric :
    (negative : Bool) (n : ℕ) → n ≤ max_int64 → IsSymmetric (signed negative (pos n))
signed-IsSymmetric false n h = h
signed-IsSymmetric true zero h = omega arith
signed-IsSymmetric true (suc n) h = h

total_of-IsSafe :
    (negative : Bool) (whole paise : ℕ)
    → whole ≤ max_int64
    → paise < 100
    → IsSafe (total_of negative whole paise)
total_of-IsSafe negative whole paise hw hp =
    elim (Bool-cases (leb (whole * 100 + paise) max_int64)) [
      | inl e ↦
          rw (total_of-exact negative whole paise hw hp, e)
            (signed-IsSymmetric negative _ (leb→le _ _ e))
      | inr e ↦ rw (total_of-exact negative whole paise hw hp, e) tt
    ]

amount_of-IsSafe :
    (negative : Bool) (whole paise : Chars)
    → value paise 0 < 100
    → IsSafe (amount_of negative (parse_int whole) (parse_int paise))
amount_of-IsSafe negative whole paise h = elim (Option-cases (parse_int whole)) [
  | inl e ↦ rw e tt
  | inr (w, e) ↦ elim (Option-cases (parse_int paise)) [
    | inl e' ↦ rw (e, e') tt
    | inr (p, e') ↦
        let (fits, _) = parse_int-bound whole w e in
        let (_, same) = parse_int-bound paise p e' in
        rw (e, e') (total_of-IsSafe negative w p fits (omega arith))
  ]
]

parse_unsigned-IsSafe :
    (negative : Bool) (parts : Chars × Chars) → IsSafe (parse_unsigned negative parts)
unfolding parse_unsigned
parse_unsigned-IsSafe negative (whole, frac) = elim (Bool-cases (is_empty whole && is_empty frac)) [
  | inl e ↦ rw e tt
  | inr e ↦ elim (Bool-cases (ltb 2 (byte_length frac))) [
    | inl b ↦ rw (e, b) tt
    | inr b ↦ elim (Bool-cases (all_digits (or_zero whole) && all_digits (pad frac))) [
      | inl d ↦
          rw (e, b, d)
            (amount_of-IsSafe negative (or_zero whole) (pad frac)
              (pad-value frac (ground arith) (ground arith)))
      | inr d ↦ rw (e, b, d) tt
    ]
  ]
]

parse_signed-IsSafe : (s : Chars) → IsSafe (parse_signed s)
unfolding parse_signed
parse_signed-IsSafe [] = tt
parse_signed-IsSafe (c ∷ s) = elim (Bool-cases (c == b'-')) [
  | inl e ↦ rw e (parse_unsigned-IsSafe true (cut s))
  | inr e ↦ elim (Bool-cases (c == b'+')) [
    | inl p ↦ rw (e, p) (parse_unsigned-IsSafe false (cut s))
    | inr p ↦ rw (e, p) (parse_unsigned-IsSafe false (cut (c ∷ s)))
  ]
]

-- Printing is faithful to every text that is accepted: the print of its amount is read as that
-- amount again, with no error and nothing wrapped around.
pub from_rupees-stable :
    (text : Chars) (m : ℤ) → from_rupees text ≡ amount m → from_rupees (rupees m) ≡ amount m
unfolding from_rupees
from_rupees-stable text m h =
    let safe : IsSafe (parse_signed (trim_space text)) = parse_signed-IsSafe (trim_space text) in
    from_rupees-rupees m (subst IsSafe h safe)
