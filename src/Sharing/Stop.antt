-- ===== src/Sharing/Stop.antt =====
-- Whether the sharing stops with the effect.
use sethu_care.Prelude.{
  ℕ, zero, suc, ◌+◌, ◌≡◌, Bool, ◌≢◌, refl, ◌∙◌, true, List, [], ◌∷◌, arith, ◌⊎◌,
}
use sethu_care.Sharing.{
  asking, subscribing, watching, ended, Share, ShareEvent, watch_ready, position_read, clean_up,
  share_step, share_run,
}

-- Cleaned up, and past all that could still deliver a reading.
record IsQuiet (s : Share) : Type 0 where
  cancelled : s.cancelled ≡ true
  silent : (s.phase ≡ asking) ⊎ (s.phase ≡ ended)

step-IsQuiet :
    (s : Share) (e : ShareEvent)
    → IsQuiet s
    → IsQuiet (share_step s e) × ((share_step s e).pings ≡ s.pings)
unfolding share_step
step-IsQuiet s e h = ground arith

run-IsQuiet : (s : Share) (es : List ShareEvent) → IsQuiet s → (share_run s es).pings ≡ s.pings
unfolding share_run
run-IsQuiet s [] h = refl
run-IsQuiet s (e ∷ es) h =
    let (quiet, same) = step-IsQuiet s e h in run-IsQuiet (share_step s e) es quiet ∙ same

clean_up-IsQuiet : (s : Share) → s.phase ≢ subscribing → IsQuiet (share_step s clean_up)
unfolding share_step
clean_up-IsQuiet s n = ground arith

-- Cleaned up at any moment but between the permission and the subscription, the effect sends no
-- further position, whatever happens afterwards.
pub clean_up-pings :
    (s : Share) (es : List ShareEvent)
    → s.phase ≢ subscribing
    → (share_run s (clean_up ∷ es)).pings ≡ s.pings
unfolding share_run
clean_up-pings s es n =
    run-IsQuiet (share_step s clean_up) es (clean_up-IsQuiet s n) ∙ unfold share_step in refl

abbrev pub readings : ℕ → List ShareEvent
readings zero = []
readings (suc n) = position_read ∷ readings n

watching-pings :
    (c : Bool) (p n : ℕ)
    → (share_run (record { cancelled = c; phase = watching; pings = p }) (readings n)).pings ≡ p + n
unfolding share_run share_step
watching-pings c p zero = omega arith
watching-pings c p (suc n) = watching-pings c (suc p) n ∙ omega arith

-- Cleaned up between the permission and the subscription, the effect goes on to send every position
-- that is read from then on.
pub subscribing-pings :
    (s : Share) (n : ℕ)
    → s.phase ≡ subscribing
    → (share_run s (clean_up ∷ watch_ready ∷ readings n)).pings ≡ s.pings + n
unfolding share_run share_step
subscribing-pings s n h = rw h (watching-pings true s.pings n)
