-- ===== src/Booking/Actions.antt =====
-- The customer's two buttons, against the handler that answers them.
use sethu_care.Prelude.{◌≡◌, refl, Bool, true, none, some, arith, eq_iff}
use sethu_care.Machine.{
  State, Action, confirm, cancel, customer, apply, can_perform, action_text, to_action,
}
use sethu_care.Machine.Table.{is_moved}
use sethu_care.Backend.{
  Booking, Caller, unraced, transition, authorize, is_acceptable, booking_actions,
}
use sethu_care.Job.Buttons.{is_ok, booking_actions-includes, service_authorized}
use sethu_care.Booking.{
  BookingResponse, Button, confirm_button, cancel_button, is_shown, act, includes,
}

-- The caller is the customer whose booking it is.
pub record IsOwner (caller : Caller) (b : Booking) : Type 0 where
  pub role : caller.role ≡ customer
  pub owned : b.customer_id ≡ caller.id

abbrev meant : Button → Action
meant confirm_button = confirm
meant cancel_button = cancel

authorize_owner :
    (caller : Caller) (b : Booking) (button : Button)
    → IsOwner caller b
    → authorize caller b (meant button) ≡ true
unfolding authorize can_perform
authorize_owner caller b confirm_button h = rw h.role ((eq_iff _ _).1 h.owned)
authorize_owner caller b cancel_button h = rw h.role ((eq_iff _ _).1 h.owned)

shown-moves :
    (st : State) (answer : BookingResponse) (button : Button)
    → answer.allowed_actions ≡ some (booking_actions st)
    → is_shown (some answer) button ≡ true
    → is_moved (apply st (meant button)) ≡ true
unfolding is_shown action_text
shown-moves st answer confirm_button listed shown =
    let here : includes (booking_actions st) "CONFIRM" ≡ true = rw listed at shown in
    ground (arith, booking_actions-includes st confirm)
shown-moves st answer cancel_button listed shown =
    let here : includes (booking_actions st) "CANCEL" ≡ true = rw listed at shown in
    ground (arith, booking_actions-includes st cancel)

-- A button that the booking screen shows, from the actions that the backend listed for the booking's
-- state, sends a request of its owner that the backend answers with success, if nobody else writes
-- meanwhile.
pub shown_accepted_customer :
    (caller : Caller) (b : Booking) (answer : BookingResponse) (button : Button) (matches : Bool)
    → IsOwner caller b
    → answer.allowed_actions ≡ some (booking_actions b.state)
    → is_shown (some answer) button ≡ true
    → is_ok (transition caller b (act button) matches (unraced b)).1 ≡ true
unfolding transition is_acceptable to_action act
shown_accepted_customer caller b answer confirm_button matches own listed shown =
    service_authorized caller b confirm none matches (authorize_owner caller b confirm_button own)
      refl (shown-moves b.state answer confirm_button listed shown)
shown_accepted_customer caller b answer cancel_button matches own listed shown =
    service_authorized caller b cancel none matches (authorize_owner caller b cancel_button own)
      refl (shown-moves b.state answer cancel_button listed shown)
