-- ===== src/Examples/Operations.antt =====
-- The technician's switch and location, and the console's forms, at concrete inputs.
use sethu_care.Prelude.{◌+◌, ◌≢◌, ℕ, ◌≡◌, refl, true, false, String, List, [], ◌∷◌, length}
use sethu_care.Sharing.{
  Share, subscribing, permission_answered, watch_ready, position_read, clean_up, start, share_step,
  share_run,
}
use sethu_care.Sharing.Stop.{readings, subscribing-pings}
use sethu_care.Home.{Home, open_home}
use sethu_care.Home.Switch.{IsTrue, toggles, refusals, refusals-toggles}
use sethu_care.Console.{
  ServiceEvent, service_category, service_name, service_slug, service_pressed, service_created,
  service_refused, new_service, service_run, service_step,
}
use sethu_care.Console.Forms.{IsSound, service_run-IsSound}

abbrev offline : Home
offline = open_home false

offline-IsTrue : IsTrue offline
unfolding open_home
offline-IsTrue = record { told = refl; idle = refl }

refusals-toggles_example :
    let t = refusals false (toggles offline (true ∷ false ∷ [])) (true ∷ false ∷ []) in
    (t.online ≡ true) × (t.held ≡ false) × (t.requests ≡ [])
unfolding open_home
refusals-toggles_example = refusals-toggles false offline (true ∷ []) false offline-IsTrue

-- A reader of numbers that knows none and gives the default.
abbrev default_number : String → ℕ → ℕ
default_number t d = d

abbrev entries : List ServiceEvent
entries =
    service_pressed
    ∷ service_category "c1"
    ∷ service_name "AC repair"
    ∷ service_slug "ac-repair"
    ∷ service_pressed
    ∷ service_pressed
    ∷ service_refused
    ∷ service_pressed
    ∷ service_created
    ∷ service_pressed
    ∷ []

two_sent : length (service_run default_number new_service entries).create.sent ≡ 2
unfolding service_run service_step
two_sent = refl

service_run-IsSound_example :
    IsSound default_number (service_run default_number new_service entries)
service_run-IsSound_example = service_run-IsSound default_number entries

abbrev sharing : Share
sharing = share_run start (permission_answered true ∷ watch_ready ∷ position_read ∷ [])

sharing_watches : sharing.phase ≢ subscribing
unfolding share_run share_step
sharing_watches e = cc

abbrev permitted : Share
permitted = share_run start (permission_answered true ∷ [])

permitted_subscribes : permitted.phase ≡ subscribing
unfolding share_run share_step
permitted_subscribes = refl

subscribing-pings_example :
    (share_run permitted (clean_up ∷ watch_ready ∷ readings 3)).pings ≡ permitted.pings + 3
subscribing-pings_example = subscribing-pings permitted 3 permitted_subscribes
