-- ===== src/Examples/Devices.antt =====
-- What the apps keep on the device, and what their requests carry, at concrete inputs.
use Prim.Native.String.{◌++◌ as text_append}
use sethu_care.Prelude.{
  Option, ◌≡◌, refl, ◌⊎◌, ◌↔◌, true, false, String, none, some, List, [], ◌∷◌, arith, str_eq,
  if◌then◌else◌,
}
use sethu_care.Text.{is_truthy, trim}
use sethu_care.Text.Search.{includes_text}
use sethu_care.Device.{Device, native, load_preference, get}
use sethu_care.Preferences.{hydrate, recent_searches_key, parse_recent, texts}
use sethu_care.Preferences.Restart.{Change, language, address, plus, search_for, run, hydrate-run}
use sethu_care.Preferences.Recent.{IsTidy}
use sethu_care.Catalog.{Service}
use sethu_care.Catalog.Page.{
  Event, type_query, press_service, press_recent, press_submit, press_clear, run as run_page,
}
use sethu_care.Catalog.Page.Recall.{hydrate-run-IsTidy}
use sethu_care.Session.{
  initial, authenticated, unauthenticated, hydrate as start, Route, auth_gate, in_auth_group,
  segments_of, loading,
}
use sethu_care.Session.Laws.{
  Call, answered, signed_out, run as run_calls, restart-run, auth_gate-settles,
}
use sethu_care.Client.{
  content_type, ios, unreachable, request_headers, get_header, authorization, ngrok_header,
  start_customer, resolve_api_base_url,
}
use sethu_care.Client.Headers.{IsCut, start_customer-headers}
use sethu_care.Examples.Codec.{codec, codec-IsJson, print}

abbrev phone : Device
phone = record {
  platform = native;
  has_local_storage = false;
  secure_store = λ key. none;
  local_storage = λ key. none;
}

abbrev same_case : String → String
same_case t = t

abbrev changes : List Change
changes =
    language "te" ∷ search_for " ac repair " ∷ plus true ∷ search_for "tap" ∷ address "a1" ∷ []

hydrate-run_example :
    let s = run same_case codec (hydrate codec phone, phone) changes in hydrate codec s.1 ≡ s.0
hydrate-run_example = hydrate-run codec codec-IsJson same_case phone changes refl

ac_trimmed : trim "ac" ≡ "ac"
unfolding trim
ac_trimmed = refl

one_search : IsTidy same_case ("ac" ∷ [])
one_search = record { few = omega arith; distinct = (tt, tt); trimmed = ((ac_trimmed, refl), tt) }

abbrev one_kept : String → Option String
one_kept key = if str_eq key recent_searches_key then some (codec.stringify ("ac" ∷ [])) else none

abbrev used_phone : Device
used_phone = record {
  platform = native;
  has_local_storage = false;
  secure_store = one_kept;
  local_storage = λ key. none;
}

used_phone_searches : (hydrate codec used_phone).recent_searches ≡ "ac" ∷ []
unfolding hydrate load_preference get parse_recent texts print
used_phone_searches = rw (codec-IsJson.round_trip ("ac" ∷ [])) refl

used_phone-IsTidy : IsTidy same_case (hydrate codec used_phone).recent_searches
used_phone-IsTidy = rw used_phone_searches one_search

abbrev tap_repair : Service
tap_repair = record {
  id = some "s2";
  slug = some "plumbing";
  name = some "tap repair";
  description = none;
  estimated_minutes = none;
  variants = none;
}

abbrev searching : List Event
searching = type_query " tap " ∷ press_service 0 ∷ press_recent 1 ∷ press_submit ∷ press_clear ∷ []

hydrate-run-IsTidy_example :
    let s =
      run_page same_case codec
        (tap_repair ∷ [])
        (record { query = ""; store = (hydrate codec used_phone, used_phone) })
        searching in
    IsTidy same_case s.store.0.recent_searches × (hydrate codec s.store.1 ≡ s.store.0)
hydrate-run-IsTidy_example =
    hydrate-run-IsTidy same_case codec (tap_repair ∷ []) codec-IsJson used_phone "" searching refl
      used_phone-IsTidy

abbrev calls : List Call
calls =
    answered (record { token = some "jwt"; role = some "CUSTOMER"; name = some "Asha" })
    ∷ signed_out
    ∷ answered (record { token = some "jwt2"; role = none; name = none })
    ∷ []

restart-run_example :
    let s = run_calls (start (initial, phone)) calls in
    let t = (start (initial, s.1)).0 in
    ((s.0.status ≡ authenticated) ↔ (is_truthy s.0.token ≡ true))
    × (t.token ≡ s.0.token)
    × (t.status ≡ s.0.status)
    × (t.user ≡ none)
restart-run_example = restart-run phone calls refl

abbrev tabs : List String
tabs = "(tabs)" ∷ []

auth_gate-settles_example :
    ((r : Route)
      → auth_gate unauthenticated tabs ≡ some r
      → auth_gate unauthenticated (segments_of r) ≡ none)
    × (auth_gate unauthenticated tabs ≡ none
        → (unauthenticated ≡ loading)
          ⊎ (((unauthenticated ≡ unauthenticated) × (in_auth_group tabs ≡ true))
              ⊎ ((unauthenticated ≡ authenticated) × (in_auth_group tabs ≡ false))))
auth_gate-settles_example = auth_gate-settles unauthenticated tabs

start_customer-headers_example :
    let client = start_customer (some "https://api.sethucare.in/") ios unreachable "" in
    let hs = request_headers client ((content_type, "application/json") ∷ []) true (some "jwt") in
    IsCut (resolve_api_base_url (some "https://api.sethucare.in/") ios unreachable) client.base_url
    × (get_header authorization hs
        ≡ (if is_truthy (some "jwt") then some (text_append "Bearer " "jwt") else none))
    × (get_header ngrok_header hs ≡ (
        if includes_text
          (resolve_api_base_url (some "https://api.sethucare.in/") ios unreachable)
          "ngrok"
        then some "true"
        else none))
unfolding get_header
start_customer-headers_example =
    start_customer-headers (some "https://api.sethucare.in/") ios unreachable "" (some "jwt")
      ((content_type, "application/json") ∷ []) true refl refl
