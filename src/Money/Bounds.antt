-- ===== src/Money/Bounds.antt =====
-- internal/money/money.go: the overflow checks of `FromRupees` and of `Mul`.
use sethu_care.Prelude.{
  ℕ, zero, suc, ◌+◌, ◌*◌, ◌/◌, ◌%◌, ◌^◌, ◌≤◌, ◌<◌, ◌≡◌, refl, sym, ap, Bool, true, false, ◌||◌,
  none, some, ltb, leb, ◌==◌, if◌then◌else◌, arith, Bool-cases, leb→le, inl, inr,
}
use native.Mathlib.Nat.{mul-div_cancel, div-mul-le_self}
use sethu_care.Money.{
  pos, max_int64, amount, overflow, total_of, signed, wrap, is_nat, quotient, mul, negate,
}

-- Division back finds every product by 100 that wrapped around.
times_hundred :
    (w : ℕ) → w ≤ max_int64 → max_int64 < w * 100 → is_nat (quotient (wrap (w * 100)) 100) w ≡ false
times_hundred w small big = ground arith

wrap_small : (n : ℕ) → n ≤ max_int64 → wrap n ≡ pos n
wrap_small n h = ground arith

-- The two checks of `FromRupees`, on whole rupees that fit and paise below 100, refuse exactly the
-- amounts whose size is above the greatest int64, of either sign (so also the least int64, which would
-- fit), and an amount that they accept is the true one: nothing wraps around.
pub total_of-exact :
    (negative : Bool) (whole paise : ℕ)
    → whole ≤ max_int64
    → paise < 100
    → total_of negative whole paise ≡ (
        if leb (whole * 100 + paise) max_int64
        then amount (signed negative (pos (whole * 100 + paise)))
        else overflow)
unfolding total_of
total_of-exact negative whole paise hw hp = elim (Bool-cases (leb (whole * 100) max_int64)) [
  | inl e ↦
      let wrapped = wrap_small (whole * 100) (omega (arith, leb→le _ _ e)) in
      rw wrapped (ground arith)
  | inr e ↦ let caught = times_hundred whole hw (ground arith) in rw caught (ground arith)
]

exact_quotient :
    (p q n : ℕ) → 0 < q → n ≡ p * q → n ≤ max_int64 → is_nat (quotient (wrap n) q) p ≡ true
exact_quotient p q n h e small =
    let back : n / q ≡ p = rw e (mul-div_cancel p h) in
    rw (wrap_small n small) (rw back (ground arith))

not_nat : (m p : ℕ) → 0 < p → is_nat (negate (pos m)) p ≡ false
not_nat zero p h = ground arith
not_nat (suc m) p h = refl

small_quotient : (p q u : ℕ) → u < p * q → (u / q == p) ≡ false
small_quotient p q u h = elim (Bool-cases (u / q == p)) [
  | inl e ↦
      let same : u / q ≡ p = ground arith in
      let low : p * q ≤ u = rw (sym same) (div-mul-le_self u q) in absurd (omega arith)
  | inr e ↦ e
]

wrapped_quotient :
    (p q n : ℕ) → 0 < p → n ≡ p * q → max_int64 < n → is_nat (quotient (wrap n) q) p ≡ false
wrapped_quotient p q n h e big = elim (Bool-cases (ltb (n % 2 ^ 64) (2 ^ 63))) [
  | inl b ↦ rw b (small_quotient p q (n % 2 ^ 64) (rw (sym e) (ground arith)))
  | inr b ↦ rw b (not_nat _ p h)
]

zero_product : (p q : ℕ) → (p == 0 || q == 0) ≡ true → p * q ≡ 0
zero_product zero q h = omega arith
zero_product (suc p) zero h = omega arith
zero_product (suc p) (suc q) h = ground arith

-- Division back by the quantity finds every product that wrapped around: `Mul` gives the true
-- product, and panics exactly where an int64 does not hold it.
pub mul-exact :
    (price quantity : ℕ)
    → mul price quantity
      ≡ (if leb (price * quantity) max_int64 then some (pos (price * quantity)) else none)
unfolding mul
mul-exact price quantity = elim (Bool-cases (price == 0 || quantity == 0)) [
  | inl e ↦
      let none_due : price * quantity ≡ 0 = zero_product price quantity e in rw (e, none_due) refl
  | inr e ↦ elim (Bool-cases (leb (price * quantity) max_int64)) [
    | inl fits ↦
        rw (e, fits, exact_quotient price quantity _ (ground arith) refl (ground arith))
          (ap some (wrap_small _ (ground arith)))
    | inr big ↦
        rw (e, big, wrapped_quotient price quantity _ (ground arith) refl (ground arith)) refl
  ]
]
