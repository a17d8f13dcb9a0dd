-- ===== src/Device.antt =====
-- What the apps keep on the device: mobile/packages/core/src/session/storage.ts. On native the values
-- lie in the keychain, on the web in `localStorage`, which a web page may lack; a call is taken to be
-- finished before the next one starts.
use sethu_care.Prelude.{
  ◌≡◌, refl, Bool, true, false, String, Option, none, some, str_eq, if◌then◌else◌,
}

pub data Platform : Type 0 where
  native web : Platform

-- `has_local_storage` is whether `globalThis.localStorage` exists.
pub record Device : Type 0 where
  pub platform : Platform
  pub has_local_storage : Bool
  pub secure_store : String → Option String
  pub local_storage : String → Option String

abbrev pub update : (String → Option String) → String → Option String → String → Option String
update store key value j = if str_eq key j then value else store j

-- `setItem` and `removeItem` of either store.
unfoldable pub put : Platform → Bool → Device → String → Option String → Device
put web true d key value = record d { local_storage = update d.local_storage key value }
put web false d key value = d
put native has d key value = record d { secure_store = update d.secure_store key value }

unfoldable pub get : Platform → Bool → Device → String → Option String
get web true d key = d.local_storage key
get web false d key = none
get native has d key = d.secure_store key

abbrev pub token_key : String
token_key = "sethu.jwt"

unfoldable pub save_token : Device → String → Device
unfolding put
save_token d token = put d.platform d.has_local_storage d token_key (some token)

unfoldable pub load_token : Device → Option String
unfolding get
load_token d = get d.platform d.has_local_storage d token_key

unfoldable pub delete_token : Device → Device
unfolding put
delete_token d = put d.platform d.has_local_storage d token_key none

unfoldable pub save_preference : Device → String → String → Device
unfolding put
save_preference d key value = put d.platform d.has_local_storage d key (some value)

unfoldable pub load_preference : Device → String → Option String
unfolding get
load_preference d key = get d.platform d.has_local_storage d key

-- A device that keeps what it is given.
abbrev pub keeps : Platform → Bool → Bool
keeps native has = true
keeps web has = has

abbrev pub Keeps : Device → Type 0
Keeps d = keeps d.platform d.has_local_storage ≡ true

pub put-Keeps :
    (p : Platform) (has : Bool) (d : Device) (key : String) (value : Option String)
    → Keeps d
    → Keeps (put p has d key value)
unfolding put
put-Keeps native has d key value h = h
put-Keeps web true d key value h = h
put-Keeps web false d key value h = h

get-put :
    (p : Platform) (has : Bool) (d : Device) (key j : String) (value : Option String)
    → keeps p has ≡ true
    → get p has (put p has d key value) j ≡ (if str_eq key j then value else get p has d j)
unfolding get put
get-put native has d key j value h = refl
get-put web true d key j value h = refl
get-put web false d key j value h = cc

put-same :
    (p : Platform) (has : Bool) (d : Device) (key : String) (value : Option String)
    → ((put p has d key value).platform ≡ d.platform)
      × ((put p has d key value).has_local_storage ≡ d.has_local_storage)
unfolding put
put-same native has d key value = (refl, refl)
put-same web true d key value = (refl, refl)
put-same web false d key value = (refl, refl)

pub save_preference-Keeps :
    (d : Device) (key value : String) → Keeps d → Keeps (save_preference d key value)
unfolding save_preference
save_preference-Keeps d key value h = put-Keeps d.platform d.has_local_storage d key (some value) h

-- A preference read after a preference was written, on a device that keeps what it is given.
pub load_preference-save_preference :
    (d : Device) (key j value : String)
    → Keeps d
    → load_preference (save_preference d key value) j
      ≡ (if str_eq key j then some value else load_preference d j)
unfolding load_preference save_preference
load_preference-save_preference d key j value h =
    let (same, has) = put-same d.platform d.has_local_storage d key (some value) in
    rw (same, has) (get-put d.platform d.has_local_storage d key j (some value) h)

load_token-put :
    (d : Device) (value : Option String)
    → Keeps d
    → load_token (put d.platform d.has_local_storage d token_key value) ≡ value
unfolding load_token put
load_token-put d value h =
    let (same, has) = put-same d.platform d.has_local_storage d token_key value in
    rw (same, has) (get-put d.platform d.has_local_storage d token_key token_key value h)

-- The token read after it was written or deleted, on a device that keeps what it is given.
pub load_token-save_token :
    (d : Device) (token : String) → Keeps d → load_token (save_token d token) ≡ some token
unfolding save_token
load_token-save_token d token h = load_token-put d (some token) h

pub load_token-delete_token : (d : Device) → Keeps d → load_token (delete_token d) ≡ none
unfolding delete_token
load_token-delete_token d h = load_token-put d none h

pub save_token-Keeps : (d : Device) (token : String) → Keeps d → Keeps (save_token d token)
unfolding save_token
save_token-Keeps d token h = put-Keeps d.platform d.has_local_storage d token_key (some token) h

pub delete_token-Keeps : (d : Device) → Keeps d → Keeps (delete_token d)
unfolding delete_token
delete_token-Keeps d h = put-Keeps d.platform d.has_local_storage d token_key none h
