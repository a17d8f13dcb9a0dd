-- ===== src/Account/Language.antt =====
-- The language that is chosen in a sheet, after the app was started again: features/settings/
-- language-sheet.tsx, the preferences store and the gate of app/_layout.tsx.
use sethu_care.Prelude.{
  ◌≡◌, refl, sym, subst, true, String, some, any, str_eq, arith, Bool-cases, inl, inr, eq_iff,
}
use sethu_care.Text.{is_truthy}
use sethu_care.Device.{Device, Keeps, load_preference-save_preference}
use sethu_care.Preferences.{Preferences, Json, hydrate, set_language, language_key}
use sethu_care.Account.{is_supported_language, supported_languages, choose, preferences_gate}

supported-is_truthy :
    (language : String) → is_supported_language language ≡ true → is_truthy (some language) ≡ true
unfolding is_supported_language
supported-is_truthy language h = elim (Bool-cases (str_eq language "")) [
  | inl e ↦
      let empty : language ≡ "" = (eq_iff _ _).0 e in
      let none_supported = subst (λ l. any (λ m. str_eq m l) supported_languages ≡ true) empty h in
      absurd (ground arith)
  | inr e ↦ rw e refl
]

gate-supported :
    (language current : String)
    → is_supported_language language ≡ true
    → preferences_gate (some language) current ≡ language
unfolding preferences_gate
gate-supported language current h =
    let there = supported-is_truthy language h in
    elim (Bool-cases (str_eq language current)) [
      | inl e ↦ let same : language ≡ current = (eq_iff _ _).0 e in rw (there, h, e) (sym same)
      | inr e ↦ rw (there, h, e) refl
    ]

-- The language that was chosen in a sheet is the app's at once, and again after the next start,
-- whichever language the device had chosen by then, on a device that keeps what it is given.
pub choose-restart :
    (json : Json) (p : Preferences) (d : Device) (language device_language : String)
    → Keeps d
    → is_supported_language language ≡ true
    → ((choose (p, d) language).0 ≡ language)
      × (preferences_gate (hydrate json (choose (p, d) language).1.1).language device_language
          ≡ language)
unfolding choose set_language hydrate
choose-restart json p d language device_language keeps_it h =
    let loaded = load_preference-save_preference d language_key language_key language keeps_it in
    (refl, rw loaded (gate-supported language device_language h))
