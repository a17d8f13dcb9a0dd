-- ===== src/Job.antt =====
-- The technician's job screen: mobile/apps/provider/src/app/job/[id].tsx, with the job list query of
-- features/jobs/api.ts.
--
-- The component's state is a record. A press on a button and the answer of a mutation are functions
-- on it; what a press sends to the backend is its second result. Layout, labels, icons and the map
-- are left out, and so are the mutations' loading flags.
pub mod Buttons
pub mod Panels
pub mod Sync
pub mod Requests
use Prim.Native.String
use sethu_care.Prelude.{
  ℕ, ◌≡◌, refl, Bool, true, false, not, ◌&&◌, ◌||◌, String, Option, none, some, List, [], ◌∷◌,
  str_eq, if◌then◌else◌, find, keep, any,
}
use sethu_care.Text.{is_truthy, or_empty, or_else, or_option, is_digits}
use sethu_care.Backend.{TransitionRequest}

-- `JobResponse`, less the coordinates and the schedule.
pub record JobResponse : Type 0 where
  pub allowed_actions : Option (List String)
  pub booking_id : Option String
  pub city : Option String
  pub customer_name : Option String
  pub customer_phone : Option String
  pub line1 : Option String
  pub pincode : Option String
  pub quoted_total : Option String
  pub service_name : Option String
  pub state : Option String

-- The part of `BookingResponse` that the screen reads from a transition's answer.
pub record BookingResponse : Type 0 where
  pub allowed_actions : Option (List String)
  pub state : Option String

pub data Mode : Type 0 where
  idle start complete : Mode

pub record JobDetail : Type 0 where
  pub booking_id : String
  -- `data?.jobs ?? []` of `useMyJobs`.
  pub jobs : List JobResponse
  pub snapshot : Option JobResponse
  pub live_state : Option String
  pub live_actions : Option (List String)
  pub mode : Mode
  pub code : String
  pub method : String
  pub chosen_method : Option String

-- The first render, before any answer.
unfoldable pub mount : String → JobDetail
mount id = record {
  booking_id = id;
  jobs = [];
  snapshot = none;
  live_state = none;
  live_actions = none;
  mode = idle;
  code = "";
  method = "UPI";
  chosen_method = none;
}

abbrev has_id : String → JobResponse → Bool
has_id id job = elim job.booking_id [ none ↦ false | some j ↦ str_eq j id ]

unfoldable pub found : JobDetail → Option JobResponse
found s = find (has_id s.booking_id) s.jobs

-- An answer of the job list query, with the effect that keeps the last job seen.
unfoldable pub poll : JobDetail → List JobResponse → JobDetail
unfolding found
poll s jobs = record s {
  jobs = jobs;
  snapshot = or_option (find (has_id s.booking_id) jobs) s.snapshot;
}

unfoldable pub info : JobDetail → Option JobResponse
unfolding found
info s = or_option (found s) s.snapshot

abbrev state_of : Option JobResponse → Option String
state_of none = none
state_of (some job) = job.state

abbrev actions_of : Option JobResponse → Option (List String)
actions_of none = none
actions_of (some job) = job.allowed_actions

-- `liveState ?? info?.state ?? ""` and `liveActions ?? info?.allowed_actions ?? []`.
unfoldable pub state : JobDetail → String
unfolding info
state s = or_else s.live_state (or_else (state_of (info s)) "")

unfoldable pub actions : JobDetail → List String
unfolding info
actions s = or_else s.live_actions (or_else (actions_of (info s)) [])

-- `Array.prototype.includes` on texts.
abbrev pub includes : List String → String → Bool
includes names name = any (λ n. str_eq n name) names

abbrev pub has_option : Option String → String → Bool
has_option none name = false
has_option (some n) name = str_eq n name

unfoldable pub is_completed : JobDetail → Bool
unfolding state
is_completed s = str_eq (state s) "COMPLETED"

unfoldable pub is_upi_like : JobDetail → Bool
is_upi_like s = has_option s.chosen_method "UPI" || has_option s.chosen_method "ONLINE"

unfoldable pub is_work_started : JobDetail → Bool
unfolding state
is_work_started s = includes ("IN_PROGRESS" ∷ "AWAITING_COMPLETION" ∷ "COMPLETED" ∷ []) (state s)

-- The argument of `useShareLocation`.
unfoldable pub shares_location : JobDetail → Bool
unfolding state
shares_location s = str_eq (state s) "EN_ROUTE" || str_eq (state s) "ARRIVED"

-- The argument of `useBookingPayment`, with the test that the hook adds.
unfoldable pub fetches_payment : JobDetail → Bool
unfolding is_completed is_upi_like
fetches_payment s = (is_completed s && is_upi_like s) && not (str_eq s.booking_id "")

unfoldable pub is_code_valid : JobDetail → Bool
unfolding is_digits
is_code_valid s = is_digits 6 s.code

-- `transitionBody`: an empty code or method is left out.
abbrev non_empty : Option String → Option String
non_empty t = if is_truthy t then t else none

unfoldable pub transition_body : String → Option String → Option String → TransitionRequest
transition_body action code method = record {
  action = action;
  technician_id = none;
  code = non_empty code;
  payment_method = non_empty method;
}

-- The `onSuccess` of `apply`, given the action and the method that it was called with.
unfoldable pub on_success : JobDetail → String → Option String → BookingResponse → JobDetail
on_success s action method result = record s {
  live_state = result.state;
  live_actions = some (or_else result.allowed_actions []);
  mode = idle;
  code = "";
  chosen_method =
      if str_eq action "VERIFY_COMPLETION" && is_truthy method then method else s.chosen_method;
}

-- `setCode` of the two code fields and `setMethod` of the payment method's radio buttons.
unfoldable pub enter_code : JobDetail → String → JobDetail
enter_code s t = record s { code = t }

abbrev pub payment_methods : List String
payment_methods = "UPI" ∷ "CASH" ∷ "ONLINE" ∷ []

unfoldable pub choose_method : JobDetail → String → JobDetail
choose_method s option = record s { method = option }

-- The buttons: the lifecycle actions, the two confirmations of a code, and the deposit of cash.
pub data Button : Type 0 where
  depart_button arrive_button start_button request_button complete_button : Button
  cancel_button confirm_start confirm_completion deposit_button : Button

abbrev is_idle : Mode → Bool
is_idle idle = true
is_idle _ = false

abbrev is_start : Mode → Bool
is_start start = true
is_start _ = false

abbrev is_complete : Mode → Bool
is_complete complete = true
is_complete _ = false

-- A lifecycle button stands on the screen outside the entry modes, while its action is allowed.
abbrev pub offers : JobDetail → String → Bool
offers s action = (is_idle s.mode && not (is_completed s)) && includes (actions s) action

-- The deposit succeeded already: `deposit.isSuccess`.
unfoldable pub is_shown : JobDetail → Bool → Button → Bool
unfolding is_completed actions
is_shown s deposited depart_button = offers s "DEPART"
is_shown s deposited arrive_button = offers s "ARRIVE"
is_shown s deposited start_button = offers s "VERIFY_START"
is_shown s deposited request_button = offers s "REQUEST_COMPLETION"
is_shown s deposited complete_button = offers s "VERIFY_COMPLETION"
is_shown s deposited cancel_button = offers s "CANCEL"
is_shown s deposited confirm_start = is_start s.mode
is_shown s deposited confirm_completion = is_complete s.mode
is_shown s deposited deposit_button =
    (is_completed s && has_option s.chosen_method "CASH") && not deposited

-- `disabled={!codeValid}` on the two confirmations.
unfoldable pub is_enabled : JobDetail → Button → Bool
unfolding is_code_valid
is_enabled s confirm_start = is_code_valid s
is_enabled s confirm_completion = is_code_valid s
is_enabled s _ = true

pub data Request : Type 0 where
  transition_request : TransitionRequest → Request
  deposit_request : String → Request

abbrev send : JobDetail → String → JobDetail × Option Request
send s action = (s, some (transition_request (transition_body action none none)))

-- `onPress` of each button.
unfoldable pub press : JobDetail → Button → JobDetail × Option Request
unfolding transition_body
press s depart_button = send s "DEPART"
press s arrive_button = send s "ARRIVE"
press s start_button = (record s { mode = start }, none)
press s request_button = send s "REQUEST_COMPLETION"
press s complete_button = (record s { mode = complete }, none)
press s cancel_button = send s "CANCEL"
press s confirm_start =
    (s, some (transition_request (transition_body "VERIFY_START" (some s.code) none)))
press s confirm_completion = (
  s,
  some (transition_request (transition_body "VERIFY_COMPLETION" (some s.code) (some s.method))),
)
press s deposit_button = (s, some (deposit_request s.booking_id))

-- `[line1, city, pincode].filter(Boolean).join(", ")`.
join : List String → String
join [] = ""
join (t ∷ []) = t
join (t ∷ u ∷ ts) = String.◌++◌ t (String.◌++◌ ", " (join (u ∷ ts)))

abbrev truthy_texts : List (Option String) → List String
truthy_texts [] = []
truthy_texts (t ∷ ts) = if is_truthy t then or_empty t ∷ truthy_texts ts else truthy_texts ts

unfoldable pub address_text : JobResponse → String
unfolding join
address_text job = join (truthy_texts (job.line1 ∷ job.city ∷ job.pincode ∷ []))
