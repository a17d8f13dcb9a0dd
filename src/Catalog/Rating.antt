-- ===== src/Catalog/Rating.antt =====
-- The placeholder rating of a service.
use sethu_care.Prelude.{ℕ, ◌+◌, ◌*◌, ◌%◌, ◌≤◌, ◌≡◌, refl, ap, ◌∙◌, List, [], ◌∷◌, arith}
use sethu_care.Catalog.{hash_from, sample_rating}

-- The number that the units are the digits of in base 31, after `n`.
abbrev pub base_31 : ℕ → List ℕ → ℕ
base_31 n [] = n
base_31 n (unit ∷ units) = base_31 (n * 31 + unit) units

reduce_step : (n u : ℕ) → (n % 1000 * 31 + u) % 1000 ≡ (n * 31 + u) % 1000
reduce_step n u = omega arith

hash_from-base_31 : (n : ℕ) (units : List ℕ) → hash_from (n % 1000) units ≡ base_31 n units % 1000
unfolding hash_from
hash_from-base_31 n [] = refl
hash_from-base_31 n (u ∷ us) =
    ap (λ h. hash_from h us) (reduce_step n u) ∙ hash_from-base_31 (n * 31 + u) us

-- Reducing modulo 1000 at each unit loses nothing that the rating shows: it is 4.6 and as many tenths
-- as the whole number to the base 31 leaves modulo 4, so it lies between 4.6 and 4.9.
pub sample_rating-base_31 :
    (units : List ℕ)
    → (sample_rating units ≡ 46 + base_31 0 units % 4)
      × (46 ≤ sample_rating units)
      × (sample_rating units ≤ 49)
unfolding sample_rating
sample_rating-base_31 units =
    let same = hash_from-base_31 0 units in (omega (arith, same), omega arith, omega arith)
