-- ===== src/Verification.antt =====
-- The codes of a job: internal/verification/service.go (`IssueOTP`, `Guard`), purpose.go, and the
-- queries of db/queries/verification.sql, with the transaction of internal/booking/service.go in which
-- a transition runs the guard.
--
-- The table is a list, newest first. bcrypt is a pair of arguments, `hash` and `compare_hash`, and a
-- random code is an argument; times are minutes.
pub mod Guesses
pub mod Purposes
pub mod Single
use sethu_care.Prelude.{
  ℕ, ◌+◌, ◌≡◌, refl, Bool, true, false, not, ◌&&◌, String, Option, none, some, List, [], ◌∷◌, map,
  find, str_eq, ltb, leb, ◌==◌, if◌then◌else◌,
}
use sethu_care.Machine.{Action, verify_start, verify_completion, to_action}
use sethu_care.Backend.{
  Booking, Caller, TransitionRequest, Row, Reply, ok, transition, text_or_empty,
}

pub data Purpose : Type 0 where
  login start completion : Purpose

abbrev pub purpose_text : Purpose → String
purpose_text login = "LOGIN"
purpose_text start = "START"
purpose_text completion = "COMPLETION"

-- `RequiresBooking`.
abbrev pub requires_booking : Purpose → Bool
requires_booking login = false
requires_booking _ = true

-- `otpPurposeFor`.
abbrev pub otp_purpose_for : Action → Option Purpose
otp_purpose_for verify_start = some start
otp_purpose_for verify_completion = some completion
otp_purpose_for _ = none

-- A row of otp_challenges.
pub record Challenge : Type 0 where
  pub id : ℕ
  pub purpose : String
  pub booking_id : String
  pub code_hash : String
  pub attempts : ℕ
  pub max_attempts : ℕ
  pub expires_at : ℕ
  pub consumed : Bool

abbrev pub otp_ttl : ℕ
otp_ttl = 10

abbrev pub otp_max_attempts : ℕ
otp_max_attempts = 5

abbrev pub is_live : String → String → ℕ → Challenge → Bool
is_live booking purpose now c =
    str_eq c.booking_id booking
    && (str_eq c.purpose purpose && (not c.consumed && ltb now c.expires_at))

-- `GetLiveJobOtpChallenge`: the newest.
unfoldable pub live_challenge : String → Purpose → ℕ → List Challenge → Option Challenge
live_challenge booking purpose now table = find (is_live booking (purpose_text purpose) now) table

abbrev pub consume_row : ℕ → Challenge → Challenge
consume_row id c = record {
  id = c.id;
  purpose = c.purpose;
  booking_id = c.booking_id;
  code_hash = c.code_hash;
  attempts = c.attempts;
  max_attempts = c.max_attempts;
  expires_at = c.expires_at;
  consumed = if c.id == id then true else c.consumed;
}

abbrev pub increment_row : ℕ → Challenge → Challenge
increment_row id c = record {
  id = c.id;
  purpose = c.purpose;
  booking_id = c.booking_id;
  code_hash = c.code_hash;
  attempts = if c.id == id then c.attempts + 1 else c.attempts;
  max_attempts = c.max_attempts;
  expires_at = c.expires_at;
  consumed = c.consumed;
}

-- `ConsumeOtpChallenge`.
unfoldable pub consume : ℕ → List Challenge → List Challenge
consume id table = map (consume_row id) table

-- `IncrementOtpAttempts`.
unfoldable pub increment_attempts : ℕ → List Challenge → List Challenge
increment_attempts id table = map (increment_row id) table

pub data Verdict : Type 0 where
  accepted otp_invalid otp_too_many_attempts : Verdict

abbrev pub is_accepted : Verdict → Bool
is_accepted accepted = true
is_accepted _ = false

pub data Issued : Type 0 where
  code : String → Issued
  not_issued not_a_job_purpose : Issued

abbrev pub is_ok : Reply → Bool
is_ok (ok _ _) = true
is_ok _ = false

module _ (hash : String → String) where
  -- The rest of `IssueOTP`, given the challenge that is live already.
  unfoldable pub mint :
      Option Challenge
      → String
      → Purpose
      → ℕ
      → ℕ
      → String
      → List Challenge
      → List Challenge × Issued
  mint (some live) booking purpose now next_id random_code table = (table, not_issued)
  mint none booking purpose now next_id random_code table =
      let fresh : Challenge = record {
        id = next_id;
        purpose = purpose_text purpose;
        booking_id = booking;
        code_hash = hash random_code;
        attempts = 0;
        max_attempts = otp_max_attempts;
        expires_at = now + otp_ttl;
        consumed = false;
      } in
      (fresh ∷ table, code random_code)

  -- `IssueOTP`, given the key of the next row and the random code.
  unfoldable pub issue_otp :
      String → Purpose → ℕ → ℕ → String → List Challenge → List Challenge × Issued
  issue_otp booking purpose now next_id random_code table =
      if requires_booking purpose
      then mint (live_challenge booking purpose now table) booking purpose now next_id random_code
          table
      else (table, not_a_job_purpose)

module _ (compare_hash : String → String → Bool) where
  -- `Guard` on the challenge that it found.
  unfoldable pub check : Challenge → String → List Challenge → List Challenge × Verdict
  check challenge given table =
      if leb challenge.max_attempts challenge.attempts
      then (consume challenge.id table, otp_too_many_attempts)
      else if compare_hash challenge.code_hash given
      then (consume challenge.id table, accepted)
      else (increment_attempts challenge.id table, otp_invalid)

  -- With no live challenge, the code was never issued, or it expired.
  unfoldable pub check_found : Option Challenge → String → List Challenge → List Challenge × Verdict
  unfolding check
  check_found none given table = (table, otp_invalid)
  check_found (some challenge) given table = check challenge given table

  -- `Guard`, inside the transaction: what it would leave of the table, and its answer.
  unfoldable pub guard : String → Purpose → ℕ → String → List Challenge → List Challenge × Verdict
  guard booking purpose now given table =
      check_found (live_challenge booking purpose now table) given table

  -- The guard of an action, where it has one.
  unfoldable pub guard_action :
      Option Purpose → String → ℕ → String → List Challenge → List Challenge × Verdict
  unfolding guard
  guard_action none booking now given table = (table, accepted)
  guard_action (some purpose) booking now given table = guard booking purpose now given table

  -- A transition request with its guard in one transaction: an error rolls the table back too.
  unfoldable pub guarded_transition :
      String
      → Caller
      → Booking
      → TransitionRequest
      → ℕ
      → Row
      → List Challenge
      → Booking × List Challenge × Reply
  unfolding guard_action
  guarded_transition booking caller b request now current table =
      let (left, verdict) =
        guard_action (otp_purpose_for (to_action request.action)) booking now
          (text_or_empty request.code) table in
      let (b', reply) = transition caller b request (is_accepted verdict) current in
      (b', if is_ok reply then left else table, reply)
