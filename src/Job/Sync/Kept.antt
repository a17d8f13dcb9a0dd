-- ===== src/Job/Sync/Kept.antt =====
-- What holds of the job screen and the booking through any steps, whether or not the answers come.
use sethu_care.Prelude.{◌≡◌, true, none, some, []}
use sethu_care.Machine.{state_text}
use sethu_care.Backend.{Caller, booking_actions}
use sethu_care.Job.{JobResponse, found, payment_methods, includes}
use sethu_care.Job.Buttons.{IsHolder}
use sethu_care.Job.Sync.{InStep}
use sethu_care.Job.Sync.Steps.{Answer, settled, owed, Config}

-- What holds whether or not the answers come.
record IsKept (caller : Caller) (c : Config) : Type 0 where
  holder : IsHolder caller c.booking
  payable : includes payment_methods c.screen.method ≡ true
  seen : (job : JobResponse) → found c.screen ≡ some job → c.screen.snapshot ≡ some job
  in_step : c.link ≡ settled → InStep caller c.screen c.booking
  fresh : c.link ≡ settled → c.screen.live_state ≡ none → c.past ≡ []
  promised :
      (a : Answer)
      → c.link ≡ owed a
      → (a.told ≡ state_text c.booking.state) × (a.listed ≡ booking_actions c.booking.state)
