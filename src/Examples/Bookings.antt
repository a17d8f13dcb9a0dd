-- ===== src/Examples/Bookings.antt =====
-- The state machine, the backend's handler and the customer's screens at concrete inputs.
use sethu_care.Prelude.{◌+◌, ◌≡◌, refl, ◌⊎◌, true, false, none, some, List, [], ◌∷◌, ◌++◌}
use mathlib.Core.List.{Memᴰ}
use sethu_care.Machine.{
  State, draft, in_progress, en_route, arrived, completed, escalated, cancelled, Action, cancel,
  escalate, arrive, verify_start, verify_completion, request_completion, customer, technician,
  is_terminal, apply, can_perform, allowed_actions, state_text, action_text, to_action,
}
use sethu_care.Machine.Runs.{
  Run, done, step, completed-both_codes, way_to_completed, way_to_completed-run,
}
use sethu_care.Backend.{
  Booking, Caller, TransitionRequest, ok, unraced, transition, booking_actions, is_acceptable,
  service_apply, authorize, commit,
}
use sethu_care.Backend.Laws.{IsRefused, IsAccepted, transition-atomic}
use sethu_care.Booking.{BookingResponse, booking_interval, cancel_button, act, is_shown}
use sethu_care.Booking.Polling.{stopped-final}
use sethu_care.Booking.Rail.{checks, is_work, checks-apply}
use sethu_care.Booking.Actions.{shown_accepted_customer}
use sethu_care.Job.Buttons.{is_ok}

finished : Run draft (way_to_completed draft) completed
unfolding apply is_terminal
finished = way_to_completed-run draft refl refl

completed-both_codes_example :
    (init : List Action) × (way_to_completed draft ≡ init ++ verify_completion ∷ [])
    × Memᴰ verify_start init
completed-both_codes_example = completed-both_codes finished

abandoned : Run in_progress (escalate ∷ cancel ∷ []) cancelled
unfolding apply
abandoned = step refl (step refl done)

way_to_completed-run_example : Run escalated (way_to_completed escalated) completed
unfolding is_terminal
way_to_completed-run_example = way_to_completed-run escalated refl refl

-- A booking that its technician is on the way to.
abbrev travelling : Booking
travelling = record {
  state = en_route;
  customer_id = "c1";
  technician_id = some "t1";
  version = 4;
  events = [];
  outbox = [];
}

abbrev bob : Caller
bob = record { id = "t1"; role = technician }

abbrev asha : Caller
asha = record { id = "c1"; role = customer }

abbrev arrival : TransitionRequest
arrival = record { action = "ARRIVE"; technician_id = none; code = none; payment_method = none }

transition-atomic_example :
    let done = transition bob travelling arrival false (unraced travelling) in
    IsRefused travelling done.0 done.1
    ⊎ IsAccepted bob travelling done.0 (to_action "ARRIVE") none false (unraced travelling) done.1
transition-atomic_example = transition-atomic bob travelling arrival false (unraced travelling)

arrival_accepted :
    (transition bob travelling arrival false (unraced travelling)).1
    ≡ ok "ARRIVED" (booking_actions arrived)
unfolding transition is_acceptable to_action service_apply authorize can_perform commit apply
    booking_actions allowed_actions
arrival_accepted = refl

-- The customer's screens.
abbrev shown : State → BookingResponse
shown s = record {
  booking_id = some "b1";
  state = some (state_text s);
  allowed_actions = some (booking_actions s);
  quoted_total_paise = some 79900;
  service_name = some "Deep clean";
  city = some "Bengaluru";
  quoted_total = some "799.00";
}

shown_accepted_customer_example :
    is_ok (transition asha travelling (act cancel_button) false (unraced travelling)).1 ≡ true
unfolding booking_actions is_shown allowed_actions action_text
shown_accepted_customer_example =
    shown_accepted_customer asha travelling (shown en_route) cancel_button false
      (record { role = refl; owned = refl }) refl refl

stopped-final_example : completed ≡ completed
unfolding booking_interval state_text
stopped-final_example = stopped-final completed completed [] (shown completed) refl refl refl done

checks-apply_example :
    (is_work arrive ≡ true → checks (state_text arrived) ≡ checks (state_text en_route) + 1)
    × (arrive ≡ request_completion
        → (checks (state_text en_route) ≡ 3) × (checks (state_text arrived) ≡ 0))
    × (arrive ≡ verify_completion
        → (checks (state_text en_route) ≡ 0) × (checks (state_text arrived) ≡ 4))
unfolding apply
checks-apply_example = checks-apply en_route arrive refl
