-- ===== src/SignIn/Cooldown.antt =====
-- The cooldown between two codes.
use sethu_care.Prelude.{ℕ, zero, suc, ◌<◌, ◌≤◌, ◌≡◌, refl, ◌∙◌, List, [], ◌∷◌, arith}
use sethu_care.SignIn.{
  Verify, VerifyEvent, tick, press_resend, resend_succeeded, type_code, resend_cooldown,
  verify_step, verify_run,
}

abbrev pub ticks : List VerifyEvent → ℕ
ticks [] = 0
ticks (tick ∷ es) = suc (ticks es)
ticks (_ ∷ es) = ticks es

-- While seconds are left, and never more than thirty, presses ask for no code; so none is asked for
-- in the thirty seconds after a code was sent again.
pub cooldown-resent :
    (s : Verify) (es : List VerifyEvent)
    → s.seconds ≤ resend_cooldown
    → ticks es < s.seconds
    → (verify_run s es).resent ≡ s.resent
unfolding verify_run verify_step
cooldown-resent s [] b h = refl
cooldown-resent s (tick ∷ es) b h = ground (arith, cooldown-resent (verify_step s tick) es)
cooldown-resent s (press_resend ∷ es) b h =
    ground (arith, cooldown-resent (verify_step s press_resend) es)
cooldown-resent s (resend_succeeded ∷ es) b h =
    cooldown-resent (verify_step s resend_succeeded) es (omega arith) (omega arith)
cooldown-resent s (type_code t ∷ es) b h = cooldown-resent (verify_step s (type_code t)) es b h

abbrev pub seconds_pass : ℕ → List VerifyEvent
seconds_pass zero = []
seconds_pass (suc n) = tick ∷ seconds_pass n

-- Once as many seconds have passed as were left, a press asks for a code.
pub cooldown-ends :
    (s : Verify) (n : ℕ)
    → s.seconds ≤ n
    → (verify_step (verify_run s (seconds_pass n)) press_resend).resent ≡ suc s.resent
unfolding verify_run verify_step
cooldown-ends s zero h = ground arith
cooldown-ends s (suc n) h = cooldown-ends (verify_step s tick) n (ground arith) ∙ ground arith
