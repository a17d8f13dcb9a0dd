-- ===== src/Booking/Polling.antt =====
-- When the booking screen stops polling.
use sethu_care.Prelude.{◌≡◌, ◌↔◌, true, none, some, List, arith}
use sethu_care.Machine.{State, draft, other_state, Action, is_valid, is_terminal, state_text}
use sethu_care.Machine.Runs.{Run, terminal_run}
use sethu_care.Booking.{BookingResponse, booking_interval}

-- The screen stops polling exactly in the states that the backend's machine calls terminal.
pub booking_interval_iff :
    (st : State) (b : BookingResponse)
    → is_valid st ≡ true
    → b.state ≡ some (state_text st)
    → (booking_interval (some b) ≡ none) ↔ (is_terminal st ≡ true)
unfolding booking_interval state_text is_terminal
booking_interval_iff draft b v e = rw e (ground arith)
booking_interval_iff (other_state t) b v e = cc
booking_interval_iff _ b v e = rw e (ground arith)

-- Where the screen has stopped polling it misses nothing: whatever the backend's machine accepts
-- afterwards, the booking stays in the state that is shown.
pub stopped-final :
    (s t : State) (acts : List Action) (b : BookingResponse)
    → is_valid s ≡ true
    → b.state ≡ some (state_text s)
    → booking_interval (some b) ≡ none
    → Run s acts t
    → t ≡ s
stopped-final s t acts b v e stopped r =
    (terminal_run r ((booking_interval_iff s b v e).0 stopped)).1
