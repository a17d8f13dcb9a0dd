-- ===== src/SignIn/Admin.antt =====
-- The admin console's login page, apps/admin/app/login/page.tsx, the token in `localStorage`,
-- apps/admin/lib/session.ts, and the shell of the console, apps/admin/components/shell.tsx.
use mathlib.Core.List.{Memᴰ}
use sethu_care.Prelude.{
  ◌≡◌, refl, ◌∙◌, ◌⊎◌, inl, inr, Bool, true, false, not, ◌&&◌, ◌||◌, String, Option, none, some,
  List, [], ◌∷◌, ltb, arith, str_eq, if◌then◌else◌, Bool-cases,
}
use sethu_care.Text.{is_truthy, or_empty}
use sethu_care.Text.Digits.{text_length}

pub data LoginStep : Type 0 where
  phone_step code_step : LoginStep

pub data Page : Type 0 where
  overview login_page : Page

-- The page, with the token that the browser holds and the route that replaced the page.
pub record Login : Type 0 where
  pub phone : String
  pub code : String
  pub dev_code : Option String
  pub step : LoginStep
  pub error : Option String
  pub busy : Bool
  pub stored : Option String
  pub route : Option Page

unfoldable pub open_page : Option String → Login
open_page stored = record {
  phone = "+919000000008";
  code = "";
  dev_code = none;
  step = phone_step;
  error = none;
  busy = false;
  stored = stored;
  route = none;
}

-- The data of a good answer.
pub record VerifyData : Type 0 where
  pub token : Option String
  pub role : Option String

pub data LoginEvent : Type 0 where
  type_phone type_code : String → LoginEvent
  press_send press_verify : LoginEvent
  -- The answers: none is an error, or an answer with no data.
  code_sent : Option (Option String) → LoginEvent
  code_checked : Option VerifyData → LoginEvent

-- What `sendCode` does before its `await`, and after it.
unfoldable pub send_code : Login → Login
send_code l = record l { busy = true; error = none }

unfoldable pub on_code_sent : Login → Option (Option String) → Login
on_code_sent l none = record l {
  busy = false;
  error = some "Couldn't send the code. Check the phone number.";
}
on_code_sent l (some dev) = record l { busy = false; dev_code = dev; step = code_step }

abbrev token_of : Option VerifyData → Option String
token_of none = none
token_of (some d) = d.token

abbrev is_admin : Option VerifyData → Bool
is_admin none = false
is_admin (some d) = elim d.role [ none ↦ false | some r ↦ str_eq r "ADMIN" ]

-- `verify` after its `await`.
unfoldable pub on_code_checked : Login → Option VerifyData → Login
on_code_checked l answer =
    if not (is_truthy (token_of answer))
    then record l { busy = false; error = some "Invalid or expired code." }
    else if not (is_admin answer)
    then record l { busy = false; error = some "This account is not an admin." }
    else record l { busy = false; stored = token_of answer; route = some overview }

-- The buttons do nothing while disabled.
unfoldable pub login_step : Login → LoginEvent → Login
unfolding send_code on_code_sent on_code_checked text_length
login_step l (type_phone t) = record l { phone = t }
login_step l (type_code t) = record l { code = t }
login_step l press_send = if l.busy then l else send_code l
login_step l press_verify =
    if l.busy || ltb (text_length l.code) 6 then l else record l { busy = true; error = none }
login_step l (code_sent answer) = on_code_sent l answer
login_step l (code_checked answer) = on_code_checked l answer

unfoldable pub login_run : Login → List LoginEvent → Login
login_run l [] = l
login_run l (e ∷ es) = login_run (login_step l e) es

-- `signOut` of the sidebar.
unfoldable pub sign_out : Login → Login
sign_out l = record l { stored = none; route = some login_page }

-- `DashboardShell`: the pages are rendered, or the route is replaced.
unfoldable pub shell : Option String → Bool × Option Page
shell stored = if is_truthy stored then (true, none) else (false, some login_page)

-- The tokens that came with the role of an admin.
abbrev pub admin_tokens : List LoginEvent → List String
admin_tokens [] = []
admin_tokens (code_checked (some d) ∷ es) =
    if is_truthy d.token && is_admin (some d)
    then or_empty d.token ∷ admin_tokens es
    else admin_tokens es
admin_tokens (_ ∷ es) = admin_tokens es

-- What the page holds comes from before, or from an admin's answer among the events.
abbrev pub Comes : Option String → List LoginEvent → Option String → Type 0
Comes before es after =
    (after ≡ before) ⊎ ((t : String) × (after ≡ some t) × Memᴰ t (admin_tokens es))

Comes-later :
    (e : LoginEvent) (es : List LoginEvent) (before after : Option String)
    → Comes before es after
    → Comes before (e ∷ es) after
Comes-later (code_checked (some d)) es before after (inr (t, p, m)) =
    elim (Bool-cases (is_truthy d.token && is_admin (some d))) [
      | inl q ↦ inr (t, p, rw q (Memᴰ.tail m))
      | inr q ↦ inr (t, p, rw q m)
    ]
Comes-later (code_checked (some d)) es before after (inl p) = inl p
Comes-later (type_phone t) es before after h = h
Comes-later _ es before after h = h

login_step-stored :
    (l : Login) (e : LoginEvent) (es : List LoginEvent)
    → Comes l.stored (e ∷ es) (login_step l e).stored
unfolding login_step
login_step-stored l (code_checked (some d)) es =
    elim (Bool-cases (is_truthy d.token && is_admin (some d))) [
      | inl q ↦ inr (or_empty d.token, ground arith, rw q (Memᴰ.head refl))
      | inr q ↦ inl (ground arith)
    ]
login_step-stored l (type_phone t) es = inl refl
login_step-stored l e es = inl (ground arith)

login_run-Comes : (l : Login) (es : List LoginEvent) → Comes l.stored es (login_run l es).stored
unfolding login_run
login_run-Comes l [] = inl refl
login_run-Comes l (e ∷ es) = elim (login_run-Comes (login_step l e) es) [
  | inl same ↦ elim (login_step-stored l e es) [
    | inl p ↦ inl (same ∙ p)
    | inr (t, p, m) ↦ inr (t, same ∙ p, m)
  ]
  | inr (t, p, m) ↦ Comes-later e es l.stored _ (inr (t, p, m))
]

-- From a browser with no token, through any typing, presses and answers: the console's pages are
-- rendered afterwards only if a token is stored that came in an answer with the role ADMIN.
pub shell-login_run :
    (es : List LoginEvent)
    → let l = login_run (open_page none) es in
      (shell l.stored).0 ≡ true → (t : String) × (l.stored ≡ some t) × Memᴰ t (admin_tokens es)
unfolding shell open_page
shell-login_run es h = elim (login_run-Comes (open_page none) es) [
  | inl p ↦ cc (rw p at h)
  | inr found ↦ found
]
