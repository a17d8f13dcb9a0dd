-- ===== src/Booking/History.antt =====
-- The customer's list of bookings.
use sethu_care.Prelude.{
  ◌+◌, ◌≡◌, refl, inl, inr, Bool, true, false, not, String, List, [], ◌∷◌, arith, str_eq, length,
  All, keep, map, Bool-cases,
}
use sethu_care.Text.{text_cases, All-Memᴰ}
use sethu_care.Booking.{
  BookingResponse, active_bookings, completed_bookings, filtered, is_terminal, status, list_label,
  tone_for, StatusTone, success, danger, state_keys,
}

keep_parts {ℓ} :
    {A : Type ℓ} (p : A → Bool) (xs : List A)
    → (length (keep (λ x. not (p x)) xs) + length (keep p xs) ≡ length xs)
      × All (λ x. p x ≡ false) (keep (λ x. not (p x)) xs)
      × All (λ x. p x ≡ true) (keep p xs)
keep_parts p [] = (refl, tt, tt)
keep_parts p (x ∷ xs) =
    let (n, fs, ts) = keep_parts p xs in
    elim (Bool-cases (p x)) [
      | inl e ↦ rw e (omega (arith, n), fs, (e, ts))
      | inr e ↦ rw e (omega (arith, n), (e, fs), ts)
    ]

-- The two filters part the list: each booking is in one of them and in one only, the completed ones
-- being those in a terminal state.
pub filtered_parts :
    (bs : List BookingResponse)
    → (length (filtered active_bookings bs) + length (filtered completed_bookings bs) ≡ length bs)
      × All (λ b. is_terminal b ≡ false) (filtered active_bookings bs)
      × All (λ b. is_terminal b ≡ true) (filtered completed_bookings bs)
unfolding filtered
filtered_parts bs = keep_parts is_terminal bs

abbrev pub is_success : StatusTone → Bool
is_success success = true
is_success _ = false

abbrev pub is_danger : StatusTone → Bool
is_danger danger = true
is_danger _ = false

abbrev Agrees : String → Type 0
Agrees s =
    str_eq s "" ≡ false
    → str_eq s "PENDING" ≡ false
    → (list_label s ≡ (status s).1)
      × (is_success (tone_for s) ≡ is_success (status s).0)
      × (is_danger (tone_for s) ≡ is_danger (status s).0)

agreed : All Agrees (map (λ k. k.0) state_keys)
unfolding list_label status tone_for
agreed = (
  λ a b. cc,
  (
    λ a b. (refl, refl, refl),
    (
      λ a b. (refl, refl, refl),
      (
        λ a b. (refl, refl, refl),
        (
          λ a b. (refl, refl, refl),
          (
            λ a b. (refl, refl, refl),
            (
              λ a b. (refl, refl, refl),
              (λ a b. (refl, refl, refl), (λ a b. (refl, refl, refl), tt)),
            ),
          ),
        ),
      ),
    ),
  ),
)

-- The list and the booking screen label a state alike, unless the state is missing or PENDING; and
-- they agree on which states are a success and which are a failure.
pub list_label-status :
    (s : String)
    → str_eq s "" ≡ false
    → str_eq s "PENDING" ≡ false
    → (list_label s ≡ (status s).1)
      × (is_success (tone_for s) ≡ is_success (status s).0)
      × (is_danger (tone_for s) ≡ is_danger (status s).0)
unfolding list_label status tone_for
list_label-status s a b = elim (text_cases (map (λ k. k.0) state_keys) s) [
  | inl m ↦ All-Memᴰ Agrees _ agreed m a b
  | inr (_, (d, (e, (f, (g, (h, (i, (j, (k, _))))))))) ↦
      simp (a, b, d, e, f, g, h, i, j, k) (refl, refl, refl)
]
