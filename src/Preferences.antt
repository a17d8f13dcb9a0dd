-- ===== src/Preferences.antt =====
-- The preferences store: mobile/packages/core/src/preferences/store.ts. A setter changes the state and
-- then writes the device. `toLowerCase` and the two functions of `JSON` are parameters.
pub mod Recent
pub mod Restart
use sethu_care.Prelude.{
  ℕ, ◌≡◌, Bool, true, false, not, String, Option, none, some, List, [], ◌∷◌, str_eq, if◌then◌else◌,
  map, keep, take,
}
use sethu_care.Text.{trim, is_truthy}
use sethu_care.Device.{Device, save_preference, load_preference}

abbrev pub language_key : String
language_key = "sethu.language"

abbrev pub address_key : String
address_key = "sethu.selectedAddressId"

abbrev pub sethu_plus_key : String
sethu_plus_key = "sethu.sethuPlus"

abbrev pub recent_searches_key : String
recent_searches_key = "sethu.recentSearches"

abbrev pub max_recent_searches : ℕ
max_recent_searches = 6

pub record Preferences : Type 0 where
  pub language : Option String
  pub selected_address_id : Option String
  pub sethu_plus : Bool
  pub recent_searches : List String

abbrev pub initial : Preferences
initial = record {
  language = none;
  selected_address_id = none;
  sethu_plus = false;
  recent_searches = [];
}

-- What `JSON.parse` gives: an array, of which only the texts count (`none` is any other element), or
-- another value.
pub data JsonValue : Type 0 where
  array : List (Option String) → JsonValue
  other_value : JsonValue

-- `JSON.parse` (`none` where it throws) and `JSON.stringify` of an array of texts.
pub record Json : Type 0 where
  pub parse : String → Option JsonValue
  pub stringify : List String → String

-- Parsing gives back what was printed, and an empty text is not JSON.
pub record IsJson (json : Json) : Type 0 where
  pub round_trip : (ts : List String) → json.parse (json.stringify ts) ≡ some (array (map some ts))
  pub empty_text : json.parse "" ≡ none

-- `parsed.filter((x) => typeof x === "string")`.
unfoldable pub texts : List (Option String) → List String
texts [] = []
texts (none ∷ ts) = texts ts
texts (some t ∷ ts) = t ∷ texts ts

abbrev texts_of : Option JsonValue → List String
texts_of none = []
texts_of (some other_value) = []
texts_of (some (array ts)) = texts ts

abbrev is_true_text : Option String → Bool
is_true_text none = false
is_true_text (some t) = str_eq t "true"

module _ (json : Json) where
  unfoldable pub parse_recent : Option String → List String
  unfolding texts
  parse_recent none = []
  parse_recent (some raw) = if is_truthy (some raw) then texts_of (json.parse raw) else []

  -- The state after `hydrate`, whatever it was before.
  unfoldable pub hydrate : Device → Preferences
  hydrate d = record {
    language = load_preference d language_key;
    selected_address_id = load_preference d address_key;
    sethu_plus = is_true_text (load_preference d sethu_plus_key);
    recent_searches = parse_recent (load_preference d recent_searches_key);
  }

unfoldable pub set_language : Preferences × Device → String → Preferences × Device
set_language (p, d) language =
    (record p { language = some language }, save_preference d language_key language)

unfoldable pub set_selected_address_id : Preferences × Device → String → Preferences × Device
set_selected_address_id (p, d) id =
    (record p { selected_address_id = some id }, save_preference d address_key id)

unfoldable pub set_sethu_plus : Preferences × Device → Bool → Preferences × Device
set_sethu_plus (p, d) member = (
  record p { sethu_plus = member },
  save_preference d sethu_plus_key (if member then "true" else "false"),
)

module _ (lower : String → String) where
  -- The list after a term that is not blank was searched.
  unfoldable pub next_recent : String → List String → List String
  next_recent trimmed recent =
      take max_recent_searches (trimmed ∷ keep (λ t. not (str_eq (lower t) (lower trimmed))) recent)

  module _ (json : Json) where
    unfoldable pub add_recent_search : Preferences × Device → String → Preferences × Device
    unfolding next_recent
    add_recent_search (p, d) term =
        let next = next_recent (trim term) p.recent_searches in
        if str_eq (trim term) "" then (p, d) else (
          record p { recent_searches = next },
          save_preference d recent_searches_key (json.stringify next),
        )

unfoldable pub clear_recent_searches : Json → Preferences × Device → Preferences × Device
clear_recent_searches json (p, d) =
    (record p { recent_searches = [] }, save_preference d recent_searches_key (json.stringify []))
