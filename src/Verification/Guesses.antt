-- ===== src/Verification/Guesses.antt =====
-- Wrong codes: the guard of internal/verification/service.go in the transaction of
-- internal/booking/service.go (`Apply`).
use sethu_care.Prelude.{
  ℕ, ◌≡◌, refl, Bool, true, false, String, Option, none, some, List, [], ◌∷◌, All, find, find-All,
  arith,
}
use sethu_care.Machine.{
  Action, Applied, moved, illegal_transition, unknown_state, verify_start, verify_completion, apply,
  to_action,
}
use sethu_care.Backend.{
  Booking, Caller, TransitionRequest, Row, transition, service_apply, commit, needs_code,
  text_or_empty,
}
use sethu_care.Verification.{
  Purpose, Challenge, is_accepted, is_ok, live_challenge, is_live, purpose_text, check, check_found,
  guard, guard_action, guarded_transition, otp_purpose_for, start, completion,
}

-- A refusal writes nothing to the booking.
commit-refused :
    (b : Booking) (action : Action) (chosen : Option String) (current : Row) (r : Applied)
    → is_ok (commit b action chosen current r).1 ≡ false
    → (commit b action chosen current r).0 ≡ b
unfolding commit
commit-refused b action chosen current (moved to) h = ground arith
commit-refused b action chosen current (illegal_transition _ _) h = refl
commit-refused b action chosen current (unknown_state _) h = refl

pub transition-refused :
    (caller : Caller) (b : Booking) (request : TransitionRequest) (code_matches : Bool)
    (current : Row)
    → is_ok (transition caller b request code_matches current).1 ≡ false
    → (transition caller b request code_matches current).0 ≡ b
unfolding transition service_apply
transition-refused caller b request code_matches current h = ground (
  arith,
  commit-refused b (to_action request.action) request.technician_id current
      (apply b.state (to_action request.action)),
)

-- An action that needs a code does not pass without one that matches.
transition-no_code :
    (caller : Caller) (b : Booking) (request : TransitionRequest) (current : Row)
    → needs_code (to_action request.action) ≡ true
    → is_ok (transition caller b request false current).1 ≡ false
unfolding transition service_apply
transition-no_code caller b request current needs = ground arith

module _ (compare_hash : String → String → Bool) where
  -- No challenge of the table is matched by the code.
  abbrev pub IsWrong : List Challenge → String → Type 0
  IsWrong table given = All (λ c. compare_hash c.code_hash given ≡ false) table

  check-wrong :
      (challenge : Challenge) (given : String) (table : List Challenge)
      → compare_hash challenge.code_hash given ≡ false
      → is_accepted (check compare_hash challenge given table).1 ≡ false
  unfolding check
  check-wrong challenge given table h = ground arith

  found-wrong :
      (found : Option Challenge) (given : String) (table : List Challenge)
      → ((c : Challenge) → found ≡ some c → compare_hash c.code_hash given ≡ false)
      → is_accepted (check_found compare_hash found given table).1 ≡ false
  unfolding check_found
  found-wrong none given table h = refl
  found-wrong (some c) given table h = check-wrong c given table (h c refl)

  guard-wrong :
      (booking : String) (purpose : Purpose) (now : ℕ) (given : String) (table : List Challenge)
      → IsWrong table given
      → is_accepted (guard compare_hash booking purpose now given table).1 ≡ false
  unfolding guard live_challenge
  guard-wrong booking purpose now given table h =
      found-wrong (find (is_live booking (purpose_text purpose) now) table) given table
        (find-All _ _ table h)

  guard_action-wrong :
      (action : Action) (booking : String) (now : ℕ) (given : String) (table : List Challenge)
      → needs_code action ≡ true
      → IsWrong table given
      → is_accepted (guard_action compare_hash (otp_purpose_for action) booking now given table).1
        ≡ false
  unfolding guard_action
  guard_action-wrong verify_start booking now given table needs h =
      guard-wrong booking start now given table h
  guard_action-wrong verify_completion booking now given table needs h =
      guard-wrong booking completion now given table h
  guard_action-wrong _ booking now given table needs h = cc

  -- A request with a wrong code leaves the booking and the codes as they were.
  guarded-wrong :
      (booking : String) (caller : Caller) (b : Booking) (request : TransitionRequest) (now : ℕ)
      (current : Row) (table : List Challenge)
      → needs_code (to_action request.action) ≡ true
      → IsWrong table (text_or_empty request.code)
      → ((guarded_transition compare_hash booking caller b request now current table).0 ≡ b)
        × ((guarded_transition compare_hash booking caller b request now current table).1 ≡ table)
  unfolding guarded_transition
  guarded-wrong booking caller b request now current table needs h =
      let wrong =
        guard_action-wrong (to_action request.action) booking now (text_or_empty request.code) table
          needs h in
      let refused = transition-no_code caller b request current needs in
      rw (wrong, refused) (transition-refused caller b request false current refused, refl)

  -- One request for a transition, with what it meets.
  pub record Attempt : Type 0 where
    pub caller : Caller
    pub request : TransitionRequest
    pub now : ℕ
    pub current : Row

  -- Requests that arrive one after another.
  pub attempts : String → List Attempt → Booking → List Challenge → Booking × List Challenge
  attempts booking [] b table = (b, table)
  attempts booking (a ∷ later) b table =
      let (b', table', reply) =
        guarded_transition compare_hash booking a.caller b a.request a.now a.current table in
      attempts booking later b' table'

  -- The request asks for a start or a completion, with a code that no challenge matches.
  abbrev pub IsGuess : List Challenge → Attempt → Type 0
  IsGuess table a =
      (needs_code (to_action a.request.action) ≡ true)
      × IsWrong table (text_or_empty a.request.code)

  -- Wrong codes are not counted: the transaction that counts one is rolled back by the refusal, so
  -- after any number of them the booking and every challenge, with its attempts, are as before.
  pub attempts-uncounted :
      (booking : String) (guesses : List Attempt) (b : Booking) (table : List Challenge)
      → All (IsGuess table) guesses
      → attempts booking guesses b table ≡ (b, table)
  unfolding attempts
  attempts-uncounted booking [] b table _ = refl
  attempts-uncounted booking (a ∷ later) b table ((needs, wrong), h) =
      let (same_b, same_table) =
        guarded-wrong booking a.caller b a.request a.now a.current table needs wrong in
      rw (same_b, same_table) (attempts-uncounted booking later b table h)
