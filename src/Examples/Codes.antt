-- ===== src/Examples/Codes.antt =====
-- The codes of a job at concrete inputs; a hash is the code itself.
use sethu_care.Prelude.{
  ◌≡◌, refl, Bool, true, false, String, none, some, List, [], ◌∷◌, ◌++◌, str_eq, arith,
}
use sethu_care.Machine.{arrived, technician, to_action}
use sethu_care.Backend.{Booking, unraced}
use sethu_care.Machine.{verify_start, verify_completion}
use sethu_care.Verification.{
  guard_action, otp_purpose_for, Challenge, start, otp_invalid, is_accepted, guard, check_found,
  check, live_challenge, issue_otp, mint,
}
use sethu_care.Verification.Guesses.{Attempt, attempts, attempts-uncounted}
use sethu_care.Verification.Single.{IsSingle, Reach, guard-spent, Reach-IsSingle}
use sethu_care.Verification.Purposes.{guard-other_purpose}

abbrev plain : String → String
plain code = code

abbrev same : String → String → Bool
same hashed code = str_eq hashed code

abbrev start_code : Challenge
start_code = record {
  id = 1;
  purpose = "START";
  booking_id = "b1";
  code_hash = "482913";
  attempts = 4;
  max_attempts = 5;
  expires_at = 20;
  consumed = false;
}

abbrev at_the_door : Booking
at_the_door = record {
  state = arrived;
  customer_id = "c1";
  technician_id = some "t1";
  version = 5;
  events = [];
  outbox = [];
}

abbrev guess : String → Attempt same
guess code = record {
  caller = record { id = "t1"; role = technician };
  request = record {
    action = "VERIFY_START";
    technician_id = none;
    code = some code;
    payment_method = none;
  };
  now = 12;
  current = unraced at_the_door;
}

attempts-uncounted_example :
    attempts same "b1"
      (guess "000000" ∷ guess "000001" ∷ guess "000002" ∷ [])
      at_the_door
      (start_code ∷ [])
    ≡ (at_the_door, start_code ∷ [])
unfolding to_action
attempts-uncounted_example =
    attempts-uncounted same "b1" (guess "000000" ∷ guess "000001" ∷ guess "000002" ∷ []) at_the_door
      (start_code ∷ []) ((refl, (refl, tt)), ((refl, (refl, tt)), ((refl, (refl, tt)), tt)))

abbrev issued : List Challenge
issued = (issue_otp plain "b1" start 10 1 "482913" []).0

reached : Reach plain same 10 issued
reached = Reach.issued 10 "b1" start 1 "482913" (Reach.empty 8) (omega arith)

Reach-IsSingle_example : IsSingle 10 issued
Reach-IsSingle_example = Reach-IsSingle plain same reached

single : IsSingle 10 issued
single = Reach-IsSingle plain same reached

right_code : is_accepted (guard same "b1" start 10 "482913" issued).1 ≡ true
unfolding issue_otp mint live_challenge guard check_found check
right_code = refl

guard-spent_example :
    guard same "b1" start 11 "482913" (guard same "b1" start 10 "482913" issued).0
    ≡ ((guard same "b1" start 10 "482913" issued).0, otp_invalid)
guard-spent_example =
    guard-spent same "b1" start 10 11 "482913" "482913" issued single right_code (omega arith)

guard-other_purpose_example :
    (guard_action same
      (otp_purpose_for verify_completion)
      "b1"
      12
      "482913"
      ([] ++ (start_code ∷ []))).1
    ≡ (guard_action same (otp_purpose_for verify_completion) "b1" 12 "482913" ([] ++ [])).1
guard-other_purpose_example =
    guard-other_purpose same "b1" verify_completion verify_start start 12 "482913" [] [] start_code
      (λ e. cc) refl refl
