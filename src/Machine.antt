-- ===== src/Machine.antt =====
-- The booking state machine that the apps drive: internal/booking/state.go, statemachine.go and
-- permission.go. A Go `State` or `Action` is a string; here it is one of the declared constants or
-- `other`, a string that is none of them.
pub mod Table
pub mod Runs
use sethu_care.Prelude.{
  ◌≡◌, refl, Bool, true, false, String, Option, none, some, List, [], ◌∷◌, if◌then◌else◌, str_eq,
  find, keep,
}

pub data State : Type 0 where
  draft confirmed searching assigned en_route arrived in_progress awaiting_completion : State
  completed escalated rescheduled cancelled failed : State
  other_state : String → State

pub data Action : Type 0 where
  confirm search_action assign depart arrive verify_start request_completion : Action
  verify_completion resume escalate reschedule cancel fail : Action
  other_action : String → Action

-- `State.String` and `Action.String`.
unfoldable pub state_text : State → String
state_text draft = "DRAFT"
state_text confirmed = "CONFIRMED"
state_text searching = "SEARCHING"
state_text assigned = "ASSIGNED"
state_text en_route = "EN_ROUTE"
state_text arrived = "ARRIVED"
state_text in_progress = "IN_PROGRESS"
state_text awaiting_completion = "AWAITING_COMPLETION"
state_text completed = "COMPLETED"
state_text escalated = "ESCALATED"
state_text rescheduled = "RESCHEDULED"
state_text cancelled = "CANCELLED"
state_text failed = "FAILED"
state_text (other_state raw) = raw

unfoldable pub action_text : Action → String
action_text confirm = "CONFIRM"
action_text search_action = "SEARCH"
action_text assign = "ASSIGN"
action_text depart = "DEPART"
action_text arrive = "ARRIVE"
action_text verify_start = "VERIFY_START"
action_text request_completion = "REQUEST_COMPLETION"
action_text verify_completion = "VERIFY_COMPLETION"
action_text resume = "RESUME"
action_text escalate = "ESCALATE"
action_text reschedule = "RESCHEDULE"
action_text cancel = "CANCEL"
action_text fail = "FAIL"
action_text (other_action raw) = raw

abbrev pub all_states : List State
all_states =
    draft ∷ confirmed ∷ searching ∷ assigned ∷ en_route ∷ arrived ∷ in_progress
    ∷ awaiting_completion ∷ completed ∷ escalated ∷ rescheduled ∷ cancelled ∷ failed ∷ []

abbrev pub all_actions : List Action
all_actions =
    confirm ∷ search_action ∷ assign ∷ depart ∷ arrive ∷ verify_start ∷ request_completion
    ∷ verify_completion ∷ resume ∷ escalate ∷ reschedule ∷ cancel ∷ fail ∷ []

-- `State.Valid` and `Action.Valid`.
abbrev pub is_valid : State → Bool
is_valid (other_state raw) = false
is_valid _ = true

abbrev pub is_valid_action : Action → Bool
is_valid_action (other_action raw) = false
is_valid_action _ = true

-- `State.IsTerminal`.
unfoldable pub is_terminal : State → Bool
is_terminal completed = true
is_terminal cancelled = true
is_terminal failed = true
is_terminal _ = false

-- The conversions `State(raw)` and `Action(raw)`: the constant with that text, if there is one.
unfoldable pub to_state : String → State
unfolding state_text
to_state raw = elim (find (λ s. str_eq (state_text s) raw) all_states) [
  | some s ↦ s
  | none ↦ other_state raw
]

unfoldable pub to_action : String → Action
unfolding action_text
to_action raw = elim (find (λ a. str_eq (action_text a) raw) all_actions) [
  | some a ↦ a
  | none ↦ other_action raw
]

-- The map `transitions`, one clause for each entry.
unfoldable pub transitions : State → Action → Option State
transitions draft confirm = some confirmed
transitions confirmed search_action = some searching
transitions searching assign = some assigned
transitions assigned depart = some en_route
transitions en_route arrive = some arrived
transitions arrived verify_start = some in_progress
transitions in_progress request_completion = some awaiting_completion
transitions awaiting_completion verify_completion = some completed
transitions confirmed escalate = some escalated
transitions searching escalate = some escalated
transitions assigned escalate = some escalated
transitions en_route escalate = some escalated
transitions arrived escalate = some escalated
transitions in_progress escalate = some escalated
transitions awaiting_completion escalate = some escalated
transitions escalated assign = some assigned
transitions escalated resume = some searching
transitions confirmed reschedule = some rescheduled
transitions searching reschedule = some rescheduled
transitions assigned reschedule = some rescheduled
transitions escalated reschedule = some rescheduled
transitions rescheduled resume = some confirmed
transitions rescheduled cancel = some cancelled
transitions draft cancel = some cancelled
transitions confirmed cancel = some cancelled
transitions searching cancel = some cancelled
transitions assigned cancel = some cancelled
transitions en_route cancel = some cancelled
transitions arrived cancel = some cancelled
transitions escalated cancel = some cancelled
transitions searching fail = some failed
transitions escalated fail = some failed
transitions _ _ = none

pub data Applied : Type 0 where
  moved : State → Applied
  illegal_transition : State → Action → Applied
  unknown_state : String → Applied

-- `Apply`.
unfoldable pub apply : State → Action → Applied
unfolding state_text transitions
apply from action =
    if is_valid from
    then (if is_valid_action action
        then elim (transitions from action) [
          | some to ↦ moved to
          | none ↦ illegal_transition from action
        ]
        else illegal_transition from action)
    else unknown_state (state_text from)

abbrev pub is_some {ℓ} : {A : Type ℓ} → Option A → Bool
is_some none = false
is_some (some a) = true

-- `AllowedActions`: the loop keeps the order of `AllActions`.
unfoldable pub allowed_actions : State → List Action
unfolding transitions
allowed_actions from = keep (λ action. is_some (transitions from action)) all_actions

pub data Role : Type 0 where
  customer technician admin : Role

-- `CanPerform`.
unfoldable pub can_perform : Role → Action → Bool
can_perform admin action = true
can_perform customer confirm = true
can_perform customer cancel = true
can_perform customer reschedule = true
can_perform technician depart = true
can_perform technician arrive = true
can_perform technician verify_start = true
can_perform technician request_completion = true
can_perform technician verify_completion = true
can_perform technician escalate = true
can_perform _ _ = false

-- `technicianActions`.
unfoldable pub technician_actions : State → List Action
unfolding allowed_actions can_perform
technician_actions state = keep (λ action. can_perform technician action) (allowed_actions state)

allowed_when_arrived : allowed_actions arrived ≡ verify_start ∷ escalate ∷ cancel ∷ []
unfolding allowed_actions
allowed_when_arrived = refl

unknown_raw : to_state "BANANA" ≡ other_state "BANANA"
unfolding to_state
unknown_raw = refl
