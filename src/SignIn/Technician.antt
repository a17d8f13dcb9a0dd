-- ===== src/SignIn/Technician.antt =====
-- Signing in on the technician's app: mobile/apps/provider/src/app/(auth)/sign-in.tsx as it is shown,
-- and verify.tsx beside it, which sends any code that is typed. The field of the code takes no more
-- than six characters, which is the text input's to keep.
use sethu_care.Prelude.{ℕ, Bool, true, false, String, Option, none, some, if◌then◌else◌}
use sethu_care.Text.{or_empty}
use sethu_care.Device.{Device}
use sethu_care.Session.{Session, Route, VerifyResponse, on_verified}
use sethu_care.SignIn.{SignIn, send_disabled}

-- What the first screen shows: the field and the button.
pub record SignInView : Type 0 where
  pub label : String
  pub prefix : String
  pub value : String
  pub error : Option String
  pub max_length : ℕ
  pub button : String
  pub loading : Bool
  pub disabled : Bool

unfoldable pub sign_in_view : SignIn → (is_pending : Bool) → SignInView
sign_in_view s is_pending = record {
  label = "signIn.phoneLabel";
  prefix = "+91";
  value = s.local_digits;
  error = s.error;
  max_length = 10;
  button = "signIn.sendOtp";
  loading = is_pending;
  disabled = send_disabled s;
}

-- The second screen: the phone number it was opened with, the code, and whether a check of the code
-- waits for its answer.
pub record VerifyScreen : Type 0 where
  pub phone : Option String
  pub code : String
  pub is_pending : Bool

abbrev pub open_verify : Option String → VerifyScreen
open_verify phone = record { phone = phone; code = ""; is_pending = false }

pub record VerifyRequest : Type 0 where
  pub phone : String
  pub code : String

-- `onVerify`, behind the button, which is disabled while it loads.
unfoldable pub press_verify : VerifyScreen → VerifyScreen × Option VerifyRequest
press_verify s =
    if s.is_pending
    then (s, none)
    else (record s { is_pending = true }, some (record { phone = or_empty s.phone; code = s.code }))

-- The answer of the check, or none where it failed: `onSuccess` signs in and goes home.
unfoldable pub on_checked :
    VerifyScreen × (Session × Device)
    → Option VerifyResponse
    → (VerifyScreen × (Session × Device)) × Option Route
unfolding on_verified
on_checked (s, session) none = ((record s { is_pending = false }, session), none)
on_checked (s, session) (some answer) =
    let after = on_verified session answer in ((record s { is_pending = false }, after.0), after.1)

unfoldable pub type_code : VerifyScreen → String → VerifyScreen
type_code s t = record s { code = t }
