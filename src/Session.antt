-- ===== src/Session.antt =====
-- The session of the two mobile apps: mobile/packages/core/src/session/store.ts, the auth gate of
-- apps/customer/src/app/_layout.tsx and apps/provider/src/app/_layout.tsx, and what the two verify
-- screens do with the answer of the OTP check. A call of the store is taken to be finished before the
-- next one starts. A role is a text, since the screens take the backend's on trust.
pub mod Laws
use sethu_care.Prelude.{
  ◌≡◌, Bool, true, false, String, Option, none, some, List, [], ◌∷◌, str_eq, if◌then◌else◌,
}
use sethu_care.Text.{is_truthy, or_empty, or_else}
use sethu_care.Device.{Device, save_token, load_token, delete_token}

pub record SessionUser : Type 0 where
  pub role : String
  pub name : String

pub data SessionStatus : Type 0 where
  loading authenticated unauthenticated : SessionStatus

pub record Session : Type 0 where
  pub token : Option String
  pub user : Option SessionUser
  pub status : SessionStatus

abbrev pub initial : Session
initial = record { token = none; user = none; status = loading }

abbrev pub status_of : Option String → SessionStatus
status_of token = if is_truthy token then authenticated else unauthenticated

unfoldable pub hydrate : Session × Device → Session × Device
hydrate (s, d) = (record s { token = load_token d; status = status_of (load_token d) }, d)

unfoldable pub sign_in : Session × Device → String → SessionUser → Session × Device
sign_in (s, d) token user =
    (record s { token = some token; user = some user; status = authenticated }, save_token d token)

unfoldable pub sign_out : Session × Device → Session × Device
sign_out (s, d) = (record s { token = none; user = none; status = unauthenticated }, delete_token d)

-- `getSessionToken`.
abbrev pub get_session_token : Session × Device → Option String
get_session_token (s, d) = s.token

pub data Route : Type 0 where
  home sign_in_screen : Route

-- The effect of `useAuthGate`: where it replaces the route, given the segments of the present one.
abbrev pub in_auth_group : List String → Bool
in_auth_group [] = false
in_auth_group (segment ∷ segments) = str_eq segment "(auth)"

unfoldable pub auth_gate : SessionStatus → List String → Option Route
auth_gate loading segments = none
auth_gate unauthenticated segments = if in_auth_group segments then none else some sign_in_screen
auth_gate authenticated segments = if in_auth_group segments then some home else none

-- The segments of the routes that the gate leads to.
abbrev pub segments_of : Route → List String
segments_of home = "(tabs)" ∷ []
segments_of sign_in_screen = "(auth)" ∷ "sign-in" ∷ []

-- `VerifyResponse` of the OTP check.
pub record VerifyResponse : Type 0 where
  pub token : Option String
  pub role : Option String
  pub name : Option String

abbrev verified_user : VerifyResponse → SessionUser
verified_user answer = record { role = or_else answer.role "CUSTOMER"; name = or_empty answer.name }

-- `onSuccess` of the two verify screens.
unfoldable pub on_verified : Session × Device → VerifyResponse → (Session × Device) × Option Route
unfolding sign_in
on_verified s answer =
    if is_truthy answer.token
    then (sign_in s (or_empty answer.token) (verified_user answer), some home)
    else (s, none)
