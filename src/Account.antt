-- ===== src/Account.antt =====
-- The account screens mobile/apps/customer/src/app/(tabs)/account/index.tsx and
-- mobile/apps/provider/src/app/(tabs)/account/index.tsx, and the language sheets of both apps,
-- features/settings/language-sheet.tsx, with `isSupportedLanguage` of
-- mobile/packages/i18n/src/config.ts and the preferences gate of the apps' app/_layout.tsx.
--
-- A text that is looked up in the locale files stands by its key.
pub mod Deletion
pub mod Language
use sethu_care.Prelude.{
  ℕ, ◌+◌, ◌≡◌, refl, Bool, true, false, not, ◌&&◌, String, Option, none, some, List, [], ◌∷◌, map,
  any, length, str_eq, if◌then◌else◌,
}
use sethu_care.Text.{is_truthy, or_empty}
use sethu_care.Device.{Device}
use sethu_care.Session.{Session, SessionUser, sign_out}
use sethu_care.Preferences.{Preferences, set_language}

-- `supportedLanguages`.
abbrev pub supported_languages : List String
supported_languages = "en" ∷ "hi" ∷ "te" ∷ []

-- `isSupportedLanguage`.
unfoldable pub is_supported_language : String → Bool
is_supported_language code = any (λ l. str_eq l code) supported_languages

-- `LANGUAGE_LABELS` of the account screens.
abbrev pub language_label : String → String
language_label code =
    if str_eq code "hi" then "हिन्दी" else if str_eq code "te" then "తెలుగు" else "English"

-- `currentLanguage`.
abbrev pub current_language : String → String
current_language code = if is_supported_language code then code else "en"

-- One row of the menu, and what its press does.
pub data Press : Type 0 where
  open_locations open_languages not_implemented : Press

pub record MenuRow : Type 0 where
  pub icon : String
  pub label : String
  pub value : Option String
  pub press : Press

-- What the customer's screen shows.
pub record AccountView : Type 0 where
  pub name : String
  pub plus_badge : Bool
  pub plus_label : String
  pub plus_hint : String
  pub stats : List (String × String)
  pub menu : List MenuRow
  pub delete_shown : Bool
  pub delete_loading : Bool

abbrev name_of : Option SessionUser → String
name_of none = ""
name_of (some user) = user.name

abbrev pub shown_name : Option SessionUser → String
shown_name user = if is_truthy (some (name_of user)) then name_of user else "common:account.guest"

-- The screen's own state: the alert that asks for the deletion, and the deletion under way.
pub record Account : Type 0 where
  pub asking : Bool
  pub deleting : Bool
  pub requests : ℕ
  pub route : Option String

abbrev pub opened : Account
opened = record { asking = false; deleting = false; requests = 0; route = none }

-- `Account` of the customer; `to_text` prints a number.
unfoldable pub account_view :
    (ℕ → String)
    → Session
    → Preferences
    → (bookings : ℕ) → (language : String) → Account
    → AccountView
account_view to_text s p bookings language a = record {
  name = shown_name s.user;
  plus_badge = p.sethu_plus;
  plus_label = if p.sethu_plus then "common:profile.plusActive" else "common:profile.joinPlus";
  plus_hint = if p.sethu_plus then "common:profile.plusPerks" else "common:profile.joinPlusHint";
  stats =
      (to_text bookings, "common:profile.statBookings")
      ∷ ("4.9", "common:profile.statRating")
      ∷ (to_text bookings, "common:profile.statReviews")
      ∷ [];
  menu =
      record {
        icon = "location";
        label = "common:profile.savedAddresses";
        value = none;
        press = open_locations;
      }
      ∷ record {
        icon = "globe";
        label = "common:account.language";
        value = some (language_label (current_language language));
        press = open_languages;
      }
      ∷ record {
        icon = "payment";
        label = "common:profile.payments";
        value = none;
        press = not_implemented;
      }
      ∷ record {
        icon = "bell";
        label = "common:profile.notifications";
        value = none;
        press = not_implemented;
      }
      ∷ record {
        icon = "shield";
        label = "common:profile.help";
        value = none;
        press = not_implemented;
      }
      ∷ [];
  delete_shown = not p.sethu_plus;
  delete_loading = a.deleting;
}

-- What the technician's screen shows: no membership, so the deletion is always offered.
pub record ProviderAccountView : Type 0 where
  pub name : String
  pub language : String
  pub delete_loading : Bool

unfoldable pub provider_account_view : Session → (language : String) → Account → ProviderAccountView
provider_account_view s language a = record {
  name = shown_name s.user;
  language = language_label (current_language language);
  delete_loading = a.deleting;
}

pub data Event : Type 0 where
  press_sign_out press_delete press_cancel confirm_delete deleted delete_refused : Event

-- `goToSignIn`.
unfoldable pub go_to_sign_in : Account → Session × Device → Account × (Session × Device)
go_to_sign_in a sd = (record a { route = some "/(auth)/sign-in" }, sign_out sd)

-- One event of either screen, for whom the deletion is offered or not. The alert stands in front of
-- the buttons, and the button is disabled while a deletion is under way.
unfoldable pub step :
    (offered : Bool) → Account × (Session × Device) → Event → Account × (Session × Device)
unfolding go_to_sign_in
step offered (a, sd) press_sign_out = if a.asking then (a, sd) else go_to_sign_in a sd
step offered (a, sd) press_delete =
    if offered && (not a.deleting && not a.asking)
    then (record a { asking = true }, sd)
    else (a, sd)
step offered (a, sd) press_cancel = (record a { asking = false }, sd)
step offered (a, sd) confirm_delete =
    if a.asking
    then (record a { asking = false; deleting = true; requests = a.requests + 1 }, sd)
    else (a, sd)
step offered (a, sd) deleted =
    if a.deleting then go_to_sign_in (record a { deleting = false }) sd else (a, sd)
step offered (a, sd) delete_refused = (record a { deleting = false }, sd)

pub run :
    (offered : Bool) → Account × (Session × Device) → List Event → Account × (Session × Device)
run offered s [] = s
run offered s (e ∷ es) = run offered (step offered s e) es

-- `choose` of the language sheets: the language of i18n, the preferences with the device, and whether
-- the sheet stays open.
unfoldable pub choose : Preferences × Device → String → String × (Preferences × Device) × Bool
choose pd language = (language, set_language pd language, false)

-- The rows of a sheet, with the mark of the current one.
unfoldable pub language_rows : (current : String) → List (String × String × String × Bool)
language_rows current =
    ("en", "English", "English", str_eq current "en")
    ∷ ("hi", "हिन्दी", "Hindi", str_eq current "hi")
    ∷ ("te", "తెలుగు", "Telugu", str_eq current "te")
    ∷ []

-- The effect of `usePreferencesGate`: the language of i18n after it.
unfoldable pub preferences_gate : Option String → (current : String) → String
preferences_gate none current = current
preferences_gate (some language) current =
    if is_truthy (some language)
    then (if is_supported_language language
        then (if not (str_eq language current) then language else current)
        else current)
    else current
