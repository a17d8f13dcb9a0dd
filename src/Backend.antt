-- ===== src/Backend.antt =====
-- The part of the backend that answers the apps' transition requests:
-- internal/httpapi/bookings.go (`transition`, `get`, `myJobs`), internal/booking/service.go
-- (`authorize`, `Apply`). User ids are texts. The OTP check of `verification.Guard` and the outcome
-- of the compare-and-swap are the environment's and enter as arguments.
pub mod Create
pub mod Laws
use sethu_care.Prelude.{
  ◌≡◌, refl, Bool, true, false, not, String, Option, none, some, List, ◌∷◌, map, if◌then◌else◌,
  str_eq, ◌||◌, ◌&&◌, ℕ, ◌+◌, ◌==◌,
}
use sethu_care.Machine.{
  State, Action, confirm, assign, depart, arrive, verify_start, request_completion,
  verify_completion, escalate, reschedule, cancel, fail, Applied, moved, illegal_transition,
  unknown_state, Role, customer, technician, admin, is_valid_action, can_perform, apply,
  allowed_actions, technician_actions, state_text, action_text, to_action,
}

-- One row of the append-only booking_events.
pub record Event : Type 0 where
  pub from_state : State
  pub action : Action
  pub to_state : State

-- The columns of a booking's row that a transition reads and writes, with the two tables that the
-- same transaction appends to, newest first.
pub record Booking : Type 0 where
  pub state : State
  pub customer_id : String
  pub technician_id : Option String
  pub version : ℕ
  pub events : List Event
  pub outbox : List String

-- The authenticated caller of `userFromContext`.
pub record Caller : Type 0 where
  pub id : String
  pub role : Role

-- `transitionRequest`.
pub record TransitionRequest : Type 0 where
  pub action : String
  pub technician_id : Option String
  pub code : Option String
  pub payment_method : Option String

-- What a request is answered with: the new state with its actions, or the kind of error.
pub data Reply : Type 0 where
  ok : (state : String) (allowed_actions : List String) → Reply
  bad_request forbidden code_refused illegal unknown conflict schedule_conflict : Reply

-- What the compare-and-swap meets: the version that the row holds by then, and whether the window
-- of the technician who would hold the booking overlaps another of their live jobs.
pub record Row : Type 0 where
  pub version : ℕ
  pub overlaps : Bool

-- Nobody wrote since the read, and no window overlaps.
abbrev pub unraced : Booking → Row
unraced b = record { version = b.version; overlaps = false }

-- `otpPurposeFor`: whether the action needs a code.
abbrev pub needs_code : Action → Bool
needs_code verify_start = true
needs_code verify_completion = true
needs_code _ = false

abbrev pub is_completion : Action → Bool
is_completion verify_completion = true
is_completion _ = false

-- `ledger.PaymentMethod.Valid`.
abbrev pub is_payment_method : String → Bool
is_payment_method m = str_eq m "UPI" || (str_eq m "CASH" || str_eq m "ONLINE")

abbrev pub text_or_empty : Option String → String
text_or_empty none = ""
text_or_empty (some t) = t

abbrev pub is_assigned_to : Option String → String → Bool
is_assigned_to none id = false
is_assigned_to (some t) id = str_eq t id

-- `actionStrings`.
abbrev pub action_texts : List Action → List String
action_texts actions = map action_text actions

-- `authorize`: the role's half, then the ownership half. The handlers always name the actor.
unfoldable pub authorize : Caller → Booking → Action → Bool
authorize caller b action =
    if can_perform caller.role action
    then elim caller.role [
      | admin ↦ true
      | customer ↦ str_eq b.customer_id caller.id
      | technician ↦ is_assigned_to b.technician_id caller.id
    ]
    else false

-- `publishedEventFor`.
unfoldable pub published_event : Action → Option String
published_event confirm = some "booking.confirmed"
published_event assign = some "booking.assigned"
published_event depart = some "technician.en_route"
published_event arrive = some "technician.arrived"
published_event verify_start = some "booking.started"
published_event verify_completion = some "booking.completed"
published_event escalate = some "booking.escalated"
published_event fail = some "booking.failed"
published_event request_completion = some "booking.awaiting_completion"
published_event cancel = some "booking.cancelled"
published_event reschedule = some "booking.rescheduled"
published_event _ = none

abbrev publish : Option String → List String → List String
publish none outbox = outbox
publish (some topic) outbox = topic ∷ outbox

-- `COALESCE(technician_id of the request, technician_id)`.
abbrev coalesce : Option String → Option String → Option String
coalesce none old = old
coalesce (some new) old = some new

-- The writes of a successful transition.
unfoldable pub write : Booking → Action → State → Option String → Booking
unfolding published_event
write b action to chosen = record {
  state = to;
  customer_id = b.customer_id;
  technician_id = coalesce chosen b.technician_id;
  version = b.version + 1;
  events = record { from_state = b.state; action = action; to_state = to } ∷ b.events;
  outbox = publish (published_event action) b.outbox;
}

-- The rest of `Apply` after the guard, given the machine's answer: the compare-and-swap against the
-- row as it is by then, with the handler's answer. That lists `AllowedActions` of the new state.
unfoldable pub commit : Booking → Action → Option String → Row → Applied → Booking × Reply
unfolding write
commit b action chosen current (moved to) =
    if b.version == current.version
    then (if current.overlaps
        then (b, schedule_conflict)
        else (write b action to chosen, ok (state_text to) (action_texts (allowed_actions to))))
    else (b, conflict)
commit b action chosen current (illegal_transition from _) = (b, illegal)
commit b action chosen current (unknown_state raw) = (b, unknown)

-- `Service.Apply`: authorization, the guard where the action has one, the machine, the writes.
unfoldable pub service_apply :
    Caller → Booking → Action → Option String → Bool → Row → Booking × Reply
service_apply caller b action chosen code_matches current =
    if authorize caller b action
    then (if needs_code action && not code_matches
        then (b, code_refused)
        else commit b action chosen current (apply b.state action))
    else (b, forbidden)

-- What the handler checks before it calls the service.
unfoldable pub is_acceptable : Action → TransitionRequest → Bool
is_acceptable action request =
    if is_valid_action action
    then (if needs_code action && str_eq (text_or_empty request.code) ""
        then false
        else if is_completion action
        then is_payment_method (text_or_empty request.payment_method)
        else true)
    else false

-- The handler `transition`.
unfoldable pub transition : Caller → Booking → TransitionRequest → Bool → Row → Booking × Reply
transition caller b request code_matches current =
    let action = to_action request.action in
    if is_acceptable action request
    then service_apply caller b action request.technician_id code_matches current
    else (b, bad_request)

-- The actions that the handlers `get` and `myJobs` list for a booking in a state.
unfoldable pub booking_actions : State → List String
booking_actions s = action_texts (allowed_actions s)

unfoldable pub job_actions : State → List String
job_actions s = action_texts (technician_actions s)
