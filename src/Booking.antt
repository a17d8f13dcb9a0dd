-- ===== src/Booking.antt =====
-- The customer's booking screens under mobile/apps/customer/src: app/booking/[id].tsx, the list
-- app/(tabs)/bookings/index.tsx, and their queries in features/booking/api.ts, features/payment/api.ts
-- and features/tracking/api.ts. A refetch interval is `none` where the code gives `false`. A text that
-- is looked up in the locale files stands by its key.
pub mod Listing
pub mod Polling
pub mod Rail
pub mod History
pub mod Actions
use sethu_care.Prelude.{
  ℕ, zero, suc, ◌+◌, ◌≡◌, refl, Bool, true, false, not, ◌&&◌, ◌||◌, String, Option, none, some,
  List, [], ◌∷◌, str_eq, if◌then◌else◌, any, keep, ltb, ◌==◌, map,
}
use sethu_care.Text.{if_truthy, is_truthy, or_empty, or_else}
use sethu_care.Backend.{TransitionRequest}

abbrev pub includes : List String → String → Bool
includes names name = any (λ n. str_eq n name) names

abbrev pub terminal_states : List String
terminal_states = "COMPLETED" ∷ "CANCELLED" ∷ "FAILED" ∷ []

-- The part of `BookingResponse` that the screens read, with the fields of the list's
-- `MyBookingResponse`.
pub record BookingResponse : Type 0 where
  pub booking_id : Option String
  pub state : Option String
  pub allowed_actions : Option (List String)
  pub quoted_total_paise : Option ℕ
  pub service_name : Option String
  pub city : Option String
  pub quoted_total : Option String

pub record PaymentResponse : Type 0 where
  pub status : Option String
  pub amount : Option String
  pub reference : Option String
  pub upi_link : Option String

abbrev state_of : Option BookingResponse → Option String
state_of none = none
state_of (some b) = b.state

abbrev has_text : Option String → String → Bool
has_text none t = false
has_text (some s) t = str_eq s t

-- `refetchInterval` of `useBooking`.
unfoldable pub booking_interval : Option BookingResponse → Option ℕ
booking_interval booking =
    if is_truthy (state_of booking) && includes terminal_states (or_empty (state_of booking))
    then none
    else some 4000

abbrev status_of : Option PaymentResponse → Option String
status_of none = none
status_of (some p) = p.status

-- `refetchInterval` of `useBookingPayment`.
unfoldable pub payment_interval : Option PaymentResponse → Option ℕ
payment_interval payment = if has_text (status_of payment) "PENDING" then some 4000 else none

-- `refetchInterval` of `useTechnicianLocation`.
unfoldable pub location_interval : Bool → Option ℕ
location_interval enabled = if enabled then some 5000 else none

-- `booking?.state ?? ""` and `booking?.allowed_actions ?? []`.
unfoldable pub state : Option BookingResponse → String
state booking = or_else (state_of booking) ""

abbrev actions_of : Option BookingResponse → Option (List String)
actions_of none = none
actions_of (some b) = b.allowed_actions

unfoldable pub actions : Option BookingResponse → List String
actions booking = or_else (actions_of booking) []

unfoldable pub is_tracking : Option BookingResponse → Bool
unfolding state
is_tracking booking = str_eq (state booking) "EN_ROUTE" || str_eq (state booking) "ARRIVED"

-- A label is looked up by its key, or stands as it is.
pub data Label : Type 0 where
  key raw : String → Label

pub data StatusTone : Type 0 where
  active success danger info neutral : StatusTone

-- `status` of the booking screen, given the state's text.
unfoldable pub status : String → StatusTone × Label
status s =
    if str_eq s "SEARCHING"
    then (active, key "searching")
    else if str_eq s "ASSIGNED"
    then (active, key "assigned")
    else if str_eq s "EN_ROUTE"
    then (active, key "enRoute")
    else if str_eq s "ARRIVED"
    then (active, key "arrived")
    else if str_eq s "IN_PROGRESS"
    then (active, key "inProgress")
    else if str_eq s "COMPLETED"
    then (success, key "completed")
    else if str_eq s "CANCELLED"
    then (danger, key "cancelled")
    else if str_eq s "FAILED"
    then (danger, key "failed")
    else (neutral, (if is_truthy (some s) then raw s else key "pending"))

-- `STATE_KEY` and `toneFor` of the list. (`STATE_KEY` also inherits the names of
-- `Object.prototype`, which are no states.)
abbrev pub state_keys : List (String × String)
state_keys =
    ("PENDING", "pending")
    ∷ ("SEARCHING", "searching")
    ∷ ("ASSIGNED", "assigned")
    ∷ ("EN_ROUTE", "enRoute")
    ∷ ("ARRIVED", "arrived")
    ∷ ("IN_PROGRESS", "inProgress")
    ∷ ("COMPLETED", "completed")
    ∷ ("CANCELLED", "cancelled")
    ∷ ("FAILED", "failed")
    ∷ []

unfoldable pub label_in : List (String × String) → String → Label
label_in [] s = raw s
label_in ((name, k) ∷ ks) s = if str_eq s name then key k else label_in ks s

unfoldable pub list_label : String → Label
unfolding label_in
list_label s = label_in state_keys s

unfoldable pub tone_for : String → StatusTone
tone_for s =
    if str_eq s "COMPLETED"
    then success
    else if str_eq s "CANCELLED" || str_eq s "FAILED"
    then danger
    else info

-- The progress rail: `indexOf` gives -1 where there is none, here `none`.
abbrev pub step_order : List String
step_order = "ASSIGNED" ∷ "EN_ROUTE" ∷ "ARRIVED" ∷ "IN_PROGRESS" ∷ "COMPLETED" ∷ []

unfoldable pub index_of : String → List String → Option ℕ
index_of s [] = none
index_of s (t ∷ ts) =
    if str_eq t s then some 0 else elim (index_of s ts) [ none ↦ none | some n ↦ some (suc n) ]

pub data Mark : Type 0 where
  done current future : Mark

abbrev mark_of : Option ℕ → ℕ → Mark
mark_of none index = future
mark_of (some at) index = if ltb index at then done else if index == at then current else future

unfoldable pub marks_from : Option ℕ → ℕ → List String → List (String × Mark)
marks_from at index [] = []
marks_from at index (step ∷ steps) = (step, mark_of at index) ∷ marks_from at (suc index) steps

-- `BookingProgress`: none where it returns `null`.
unfoldable pub booking_progress : String → Option (List (String × Mark))
unfolding index_of marks_from
booking_progress s =
    if str_eq s "CANCELLED" || (str_eq s "FAILED" || (str_eq s "" || str_eq s "SEARCHING"))
    then none
    else some (marks_from (index_of s step_order) 0 step_order)

-- The two buttons of the booking screen, and what a press sends.
pub data Button : Type 0 where
  confirm_button cancel_button : Button

abbrev pub action_of : Button → String
action_of confirm_button = "CONFIRM"
action_of cancel_button = "CANCEL"

unfoldable pub is_shown : Option BookingResponse → Button → Bool
unfolding actions
is_shown booking button = includes (actions booking) (action_of button)

unfoldable pub act : Button → TransitionRequest
act button = record {
  action = action_of button;
  technician_id = none;
  code = none;
  payment_method = none;
}

-- The payment card: a completed booking with a collection.
pub data PaymentCard : Type 0 where
  no_card paid : PaymentCard
  pay : (amount reference link : Option String) → PaymentCard

abbrev card_of : PaymentResponse → PaymentCard
card_of p =
    if has_text p.status "CAPTURED"
    then paid
    else pay (if_truthy p.amount) (if_truthy p.reference) (if_truthy p.upi_link)

unfoldable pub payment_card : Option BookingResponse → Option PaymentResponse → PaymentCard
unfolding state
payment_card booking none = no_card
payment_card booking (some p) = if str_eq (state booking) "COMPLETED" then card_of p else no_card

-- The review card, given the rating and whether a review was submitted.
pub data ReviewCard : Type 0 where
  no_review : ReviewCard
  thanks : ℕ → ReviewCard
  form : (rating : ℕ) (submit_disabled : Bool) → ReviewCard

unfoldable pub review_card : Option BookingResponse → ℕ → Bool → ReviewCard
unfolding state
review_card booking rating submitted =
    if str_eq (state booking) "COMPLETED"
    then (if submitted then thanks rating else form rating (rating == 0))
    else no_review

-- The filter of the list.
pub data Filter : Type 0 where
  all_bookings active_bookings completed_bookings : Filter

abbrev pub is_terminal : BookingResponse → Bool
is_terminal b = includes terminal_states (or_else b.state "")

unfoldable pub filtered : Filter → List BookingResponse → List BookingResponse
filtered all_bookings bs = bs
filtered active_bookings bs = keep (λ b. not (is_terminal b)) bs
filtered completed_bookings bs = keep is_terminal bs
