-- ===== src/Examples/Jobs.antt =====
-- The technician's job screen at concrete inputs.
use sethu_care.Prelude.{◌≡◌, refl, false, none, some, [], ◌∷◌}
use sethu_care.Machine.{en_route, arrived, technician, state_text, allowed_actions}
use sethu_care.Backend.{
  Booking, Caller, TransitionRequest, forbidden, unraced, transition, booking_actions, job_actions,
}
use sethu_care.Job.{
  JobResponse, BookingResponse, JobDetail, mount, poll, state, actions, on_success, press,
  cancel_button, transition_request, transition_body,
}
use sethu_care.Job.Buttons.{IsHolder}
use sethu_care.Job.Panels.{PaymentResponse, stale-poll}
use sethu_care.Job.Sync.Steps.{Config, settled}
use sethu_care.Job.Requests.{cancel_forbidden}

abbrev travelling : Booking
travelling = record {
  state = en_route;
  customer_id = "c1";
  technician_id = some "t1";
  version = 4;
  events = [];
  outbox = [];
}

abbrev bob : Caller
bob = record { id = "t1"; role = technician }

bob-IsHolder : IsHolder bob travelling
bob-IsHolder = record { role = refl; assigned = refl }

abbrev listed : JobResponse
listed = record {
  allowed_actions = some (job_actions en_route);
  booking_id = some "b1";
  city = some "Bengaluru";
  customer_name = some "Asha";
  customer_phone = some "+919000000001";
  line1 = some "12 MG Road";
  pincode = some "560001";
  quoted_total = some "799.00";
  service_name = some "Deep clean";
  state = some (state_text en_route);
}

abbrev screen : JobDetail
screen = poll (mount "b1") (listed ∷ [])

abbrev shown : Config
shown = record { screen = screen; booking = travelling; link = settled; past = [] }

abbrev arrival : TransitionRequest
arrival = transition_body "ARRIVE" none none

abbrev cancellation : TransitionRequest
cancellation = transition_body "CANCEL" none none

cancel_sends : (press screen cancel_button).1 ≡ some (transition_request cancellation)
unfolding press
cancel_sends = refl

cancel_forbidden_example :
    transition bob travelling cancellation false (unraced travelling) ≡ (travelling, forbidden)
cancel_forbidden_example =
    cancel_forbidden bob screen travelling cancellation false (unraced travelling) bob-IsHolder
      cancel_sends

abbrev completed_answer : BookingResponse
completed_answer = record { allowed_actions = some []; state = some "COMPLETED" }

abbrev collection : PaymentResponse
collection = record {
  status = some "PENDING";
  amount = some "799.00";
  reference = some "R1";
  upi_link = some "upi://pay";
}

stale-poll_example :
    let t =
      on_success screen "ARRIVE" none
        (record { allowed_actions = some (booking_actions arrived); state = some "ARRIVED" }) in
    (state (poll t []) ≡ "ARRIVED") × (actions (poll t []) ≡ actions t)
stale-poll_example =
    stale-poll screen "ARRIVE" none
      (record { allowed_actions = some (booking_actions arrived); state = some "ARRIVED" })
      "ARRIVED" [] refl
