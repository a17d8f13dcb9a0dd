-- ===== src/Booking/Rail.antt =====
-- The progress rail against the moves of the state machine.
use sethu_care.Prelude.{
  ℕ, ◌+◌, ◌≡◌, refl, Bool, true, false, String, none, some, List, [], ◌∷◌, arith,
}
use sethu_care.Machine.{
  State, draft, en_route, arrived, in_progress, completed, other_state, is_valid, Action, confirm,
  depart, arrive, verify_start, request_completion, verify_completion, moved, apply, state_text,
}
use sethu_care.Booking.{Mark, done, booking_progress}

abbrev count_done : List (String × Mark) → ℕ
count_done [] = 0
count_done ((s, done) ∷ ms) = count_done ms + 1
count_done ((s, m) ∷ ms) = count_done ms

-- The checks that the rail shows; none where it is hidden.
abbrev pub checks : String → ℕ
checks s = elim (booking_progress s) [ none ↦ 0 | some marks ↦ count_done marks ]

-- A departure, an arrival and a verified start.
abbrev pub is_work : Action → Bool
is_work depart = true
is_work arrive = true
is_work verify_start = true
is_work _ = false

rail : State → ℕ
rail en_route = 1
rail arrived = 2
rail in_progress = 3
rail completed = 4
rail _ = 0

checks-state_text : (s : State) → is_valid s ≡ true → checks (state_text s) ≡ rail s
unfolding state_text booking_progress rail
checks-state_text en_route v = refl
checks-state_text (other_state t) v = cc
checks-state_text _ v = refl

apply-is_valid :
    (s : State) (a : Action) {t : State}
    → apply s a ≡ moved t
    → (is_valid s ≡ true) × (is_valid t ≡ true)
unfolding apply
apply-is_valid draft confirm e = ground arith
apply-is_valid _ _ e = ground arith

rail-apply :
    (s : State) (a : Action) {t : State}
    → apply s a ≡ moved t
    → (is_work a ≡ true → rail t ≡ rail s + 1)
      × (a ≡ request_completion → (rail s ≡ 3) × (rail t ≡ 0))
      × (a ≡ verify_completion → (rail s ≡ 0) × (rail t ≡ 4))
unfolding apply rail
rail-apply draft confirm e = ground arith
rail-apply _ _ e = ground arith

-- A departure, an arrival and a verified start each add one check to the rail; a request for
-- completion takes its three checks away, and a verified completion brings four.
pub checks-apply :
    (s : State) (a : Action) {t : State}
    → apply s a ≡ moved t
    → (is_work a ≡ true → checks (state_text t) ≡ checks (state_text s) + 1)
      × (a ≡ request_completion → (checks (state_text s) ≡ 3) × (checks (state_text t) ≡ 0))
      × (a ≡ verify_completion → (checks (state_text s) ≡ 0) × (checks (state_text t) ≡ 4))
checks-apply s a {t} e =
    let (before, after) = apply-is_valid s a e in
    rw (checks-state_text s before, checks-state_text t after) (rail-apply s a e)
