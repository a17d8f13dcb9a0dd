-- ===== src/Job/Requests.antt =====
-- A request that the job screen sends, against the handler that answers it.
use sethu_care.Prelude.{◌≡◌, Bool, true, some, arith}
use sethu_care.Machine.{State, Action, action_text, is_valid_action, apply, technician, can_perform}
use sethu_care.Machine.Table.{is_moved}
use sethu_care.Backend.{
  Booking, Caller, TransitionRequest, forbidden, Row, transition, is_acceptable,
}
use sethu_care.Job.{JobDetail, cancel_button, transition_request, press}
use sethu_care.Job.Buttons.{IsHolder, holder_cancel}

-- The request that a press sends is the technician's own business, and carries what it needs.
record IsFit (st : State) (r : TransitionRequest) : Type 0 where
  action : Action
  is_declared : is_valid_action action ≡ true
  named : r.action ≡ action_text action
  acceptable : is_acceptable action r ≡ true
  permitted : can_perform technician action ≡ true
  moves : is_moved (apply st action) ≡ true

-- The button to cancel sends a request that the backend forbids, in every state of the booking.
pub cancel_forbidden :
    (caller : Caller) (s : JobDetail) (b : Booking) (r : TransitionRequest) (matches : Bool)
    (current : Row)
    → IsHolder caller b
    → (press s cancel_button).1 ≡ some (transition_request r)
    → transition caller b r matches current ≡ (b, forbidden)
unfolding press
cancel_forbidden caller s b r matches current holder p =
    holder_cancel caller b r matches current holder (ground arith)
