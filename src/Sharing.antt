-- ===== src/Sharing.antt =====
-- The sharing of the technician's location: mobile/apps/provider/src/features/tracking/share-location.ts.
-- One run of the effect is a record; the permission, the watch of the position, its readings and the
-- effect's clean-up arrive as events, in any order. A reading counts as one ping to the backend.
pub mod Stop
use sethu_care.Prelude.{ℕ, suc, Bool, true, false, not, ◌&&◌, List, [], ◌∷◌, if◌then◌else◌}

-- Where the asynchronous part stands: before the permission's answer, before `subscription` is set,
-- with a subscription that delivers readings, or at its end.
pub data Phase : Type 0 where
  asking subscribing watching ended : Phase

pub record Share : Type 0 where
  pub cancelled : Bool
  pub phase : Phase
  pub pings : ℕ

-- The effect with `active`.
abbrev pub start : Share
start = record { cancelled = false; phase = asking; pings = 0 }

pub data ShareEvent : Type 0 where
  permission_answered : (granted : Bool) → ShareEvent
  watch_ready position_read clean_up : ShareEvent

abbrev on_permission : Bool → Share → Phase → Share
on_permission granted s asking =
    if granted && not s.cancelled
    then record s { phase = subscribing }
    else record s { phase = ended }
on_permission granted s _ = s

abbrev on_ready : Share → Phase → Share
on_ready s subscribing = record s { phase = watching }
on_ready s _ = s

abbrev on_position : Share → Phase → Share
on_position s watching = record s { pings = suc s.pings }
on_position s _ = s

-- `subscription?.remove()`.
abbrev removed : Phase → Phase
removed watching = ended
removed p = p

unfoldable pub share_step : Share → ShareEvent → Share
share_step s (permission_answered granted) = on_permission granted s s.phase
share_step s watch_ready = on_ready s s.phase
share_step s position_read = on_position s s.phase
share_step s clean_up = record s { cancelled = true; phase = removed s.phase }

unfoldable pub share_run : Share → List ShareEvent → Share
share_run s [] = s
share_run s (e ∷ es) = share_run (share_step s e) es
