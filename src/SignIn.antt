-- ===== src/SignIn.antt =====
-- Signing in: apps/customer/src/app/(auth)/sign-in.tsx and verify.tsx, their counterparts in
-- apps/provider/src/app/(auth), and apps/admin/app/login/page.tsx, all under mobile. Texts that are
-- looked up in the locale files stand by their keys.
pub mod Technician
pub mod Phone
pub mod Cooldown
pub mod Admin
use Prim.Native.Char.{Char, code}
use Prim.Native.String
use Prim.Native.String.{◌++◌ as text_append}
use sethu_care.Prelude.{
  ℕ, zero, suc, ◌-◌, ◌≡◌, refl, Bool, true, false, not, String, Option, none, some, List, [], ◌∷◌,
  ltb, ◌==◌, if◌then◌else◌,
}
use sethu_care.Text.{is_truthy}
use sethu_care.Text.Digits.{keep_digits, slice, text_length}

-- The sign-in screen of both apps.
pub record SignIn : Type 0 where
  pub local_digits : String
  pub error : Option String

abbrev pub initial : SignIn
initial = record { local_digits = ""; error = none }

unfoldable pub on_change : SignIn → String → SignIn
unfolding keep_digits slice
on_change s next = record {
  local_digits = slice 10 (keep_digits next);
  error = if is_truthy s.error then none else s.error;
}

-- The second result is the phone number of the request, if one is sent.
unfoldable pub on_send : SignIn → SignIn × Option String
unfolding text_length
on_send s =
    if text_length s.local_digits == 10
    then (s, some (text_append "+91" s.local_digits))
    else (record s { error = some "signIn.invalidPhone" }, none)

-- The answer to the request: on success the app goes to the verify screen with the phone number.
unfoldable pub on_sent : SignIn → Bool → String → SignIn × Option String
on_sent s true phone = (s, some phone)
on_sent s false phone = (record s { error = some "signIn.sendFailed" }, none)

abbrev pub send_disabled : SignIn → Bool
send_disabled s = not (text_length s.local_digits == 10)

-- The verify screen of the customer app.
abbrev pub resend_cooldown : ℕ
resend_cooldown = 30

pub record Verify : Type 0 where
  pub phone : Option String
  pub code : String
  pub seconds : ℕ
  -- How many codes the screen has asked for again.
  pub resent : ℕ

pub data VerifyEvent : Type 0 where
  tick press_resend resend_succeeded : VerifyEvent
  type_code : String → VerifyEvent

-- The timer of the effect, which runs only while seconds are left.
unfoldable pub on_tick : Verify → Verify
on_tick s = if ltb 0 s.seconds then record s { seconds = s.seconds - 1 } else s

unfoldable pub on_resend : Verify → Verify
on_resend s = if ltb 0 s.seconds then s else record s { resent = suc s.resent }

unfoldable pub verify_step : Verify → VerifyEvent → Verify
unfolding on_tick on_resend
verify_step s tick = on_tick s
verify_step s press_resend = on_resend s
verify_step s resend_succeeded = record s { seconds = resend_cooldown }
verify_step s (type_code t) = record s { code = t }

unfoldable pub verify_run : Verify → List VerifyEvent → Verify
verify_run s [] = s
verify_run s (e ∷ es) = verify_run (verify_step s e) es
