-- ===== src/Verification/Purposes.antt =====
-- internal/verification/purpose.go: a code for the start of a job says nothing about its completion.
use sethu_care.Machine.{Action, verify_start, verify_completion}
use sethu_care.Prelude.{
  ◌≢◌, inl, inr, sym, Option-cases, ℕ, ◌≡◌, refl, Bool, false, String, Option, none, some, List, [],
  ◌∷◌, ◌++◌, find, str_eq, arith,
}
use sethu_care.Verification.{
  start, completion, otp_purpose_for, guard_action, Purpose, Challenge, is_live, live_challenge,
  purpose_text, check, check_found, guard,
}

find-skip :
    (p : Challenge → Bool) (before after : List Challenge) (c : Challenge)
    → p c ≡ false
    → find p (before ++ (c ∷ after)) ≡ find p (before ++ after)
find-skip p [] after c h = rw h refl
find-skip p (d ∷ before) after c h = rw (find-skip p before after c h) refl

purposes_differ :
    (a b : Action) (p q : Purpose)
    → a ≢ b
    → otp_purpose_for a ≡ some p
    → otp_purpose_for b ≡ some q
    → str_eq (purpose_text q) (purpose_text p) ≡ false
purposes_differ verify_start verify_start p q n e e' = absurd (n refl)
purposes_differ verify_completion verify_completion p q n e e' = absurd (n refl)
purposes_differ verify_start verify_completion p q n e e' =
    let own : start ≡ p = cc in let other : completion ≡ q = cc in rw (sym own, sym other) refl
purposes_differ verify_completion verify_start p q n e e' =
    let own : completion ≡ p = cc in let other : start ≡ q = cc in rw (sym own, sym other) refl
purposes_differ verify_start _ p q n e e' = cc
purposes_differ verify_completion _ p q n e e' = cc
purposes_differ _ b p q n e e' = cc

module _ (compare_hash : String → String → Bool) where
  check_found-verdict :
      (found : Option Challenge) (given : String) (t t' : List Challenge)
      → (check_found compare_hash found given t).1 ≡ (check_found compare_hash found given t').1
  unfolding check_found check
  check_found-verdict none given t t' = refl
  check_found-verdict (some c) given t t' = ground arith

  -- A challenge of another purpose.
  guard-purpose_text :
      (booking : String) (purpose : Purpose) (now : ℕ) (given : String)
      (before after : List Challenge) (other : Challenge)
      → str_eq other.purpose (purpose_text purpose) ≡ false
      → (guard compare_hash booking purpose now given (before ++ (other ∷ after))).1
        ≡ (guard compare_hash booking purpose now given (before ++ after)).1
  unfolding guard live_challenge
  guard-purpose_text booking purpose now given before after other h =
      let dead : is_live booking (purpose_text purpose) now other ≡ false = ground arith in
      rw (find-skip (is_live booking (purpose_text purpose) now) before after other dead)
        (check_found-verdict _ given _ _)

  -- A challenge that was issued for an action with a code has no part in the answer to any other
  -- action: with it in the table or without, the guard of the other action says the same of every
  -- code. So the challenge for the start of a job admits nobody to its completion, nor the other way
  -- round. (The codes of two challenges may still coincide.)
  pub guard-other_purpose :
      (booking : String) (action issued_for : Action) (purpose : Purpose) (now : ℕ) (given : String)
      (before after : List Challenge) (other : Challenge)
      → action ≢ issued_for
      → otp_purpose_for issued_for ≡ some purpose
      → other.purpose ≡ purpose_text purpose
      → (guard_action compare_hash
          (otp_purpose_for action)
          booking
          now
          given
          (before ++ (other ∷ after))).1
        ≡ (guard_action compare_hash (otp_purpose_for action) booking now given (before ++ after)).1
  unfolding guard_action
  guard-other_purpose booking action issued_for purpose now given before after other n e issued =
      elim (Option-cases (otp_purpose_for action)) [
        | inl none_due ↦ rw none_due refl
        | inr (own, due) ↦ rw due (
            guard-purpose_text booking own now given before after other
              (rw issued (purposes_differ action issued_for own purpose n due e)))
      ]
