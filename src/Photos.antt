-- ===== src/Photos.antt =====
-- Adding a work photo: `useAddWorkPhoto` of mobile/apps/provider/src/features/photos/api.ts. The
-- camera, the backend and Cloudinary answer from outside, by a record of functions; a run gives the
-- calls that were made, in order, and how it ended.
pub mod Laws
use Prim.Native.String
use Prim.Native.String.{◌++◌ as text_append}
use sethu_care.Prelude.{
  Bool, true, false, not, ◌||◌, String, Option, none, some, List, [], ◌∷◌, ◌++◌, if◌then◌else◌,
}
use sethu_care.Text.{is_truthy, or_empty, or_else}

pub data Kind : Type 0 where
  before after : Kind

pub record Asset : Type 0 where
  pub uri : String
  pub mime_type : Option String

pub record Picked : Type 0 where
  pub canceled : Bool
  pub assets : Option (List Asset)

-- `SignatureResponse`; `timestamp` is the text that `String` makes of it.
pub record SignedUpload : Type 0 where
  pub cloud_name : Option String
  pub api_key : Option String
  pub timestamp : Option String
  pub folder : Option String
  pub signature : Option String

pub record Signed : Type 0 where
  pub has_error : Bool
  pub upload : Option SignedUpload

-- The form of the upload.
pub record Form : Type 0 where
  pub uri : String
  pub mime_type : String
  pub api_key : String
  pub timestamp : String
  pub folder : String
  pub signature : String

-- `CloudinaryUpload`, the version as a text.
pub record CloudinaryUpload : Type 0 where
  pub public_id : String
  pub version : String
  pub signature : String
  pub secure_url : String

pub data Call : Type 0 where
  ask_permission launch_camera : Call
  sign_upload : String → Call
  upload : (url : String) → Form → Call
  record_photo : String → Kind → CloudinaryUpload → Call

-- What an awaited call comes to: its value, or the message of the error it rejects with.
pub data Awaited (A : Type 0) : Type 0 where
  resolved : A → Awaited A
  rejected : String → Awaited A

-- The response of `fetch`: not `ok`, or `ok` with what `response.json()` comes to.
pub data Response : Type 0 where
  not_ok : Response
  response : Awaited CloudinaryUpload → Response

-- What the calls come to.
pub record World : Type 0 where
  pub granted : Awaited Bool
  pub picked : Awaited Picked
  pub signed : Awaited Signed
  pub upload_answer : String → Form → Awaited Response
  pub record_error : Kind → CloudinaryUpload → Awaited Bool

pub data Outcome {ℓ} (A : Type ℓ) : Type ℓ where
  returned : A → Outcome A
  thrown : String → Outcome A

-- The calls made, and the outcome.
abbrev pub M : Type 0 → Type 0
M A = List Call × Outcome A

abbrev after_outcome : {A B : Type 0} → List Call → Outcome A → (A → M B) → M B
after_outcome calls (thrown e) k = (calls, thrown e)
after_outcome calls (returned a) k = (calls ++ (k a).0, (k a).1)

infixl 5 ◌>>=◌ ◌>>◌
abbrev pub ◌>>=◌ : {A B : Type 0} → M A → (A → M B) → M B
m >>= k = after_outcome m.0 m.1 k

abbrev pub ◌>>◌ : {B : Type 0} → M (Unit {0}) → M B → M B
m >> k = m >>= λ _. k

abbrev await : {A : Type 0} → Awaited A → M A
await (resolved a) = ([], returned a)
await (rejected e) = ([], thrown e)

abbrev call : {A : Type 0} → Call → Awaited A → M A
call c (resolved a) = (c ∷ [], returned a)
call c (rejected e) = (c ∷ [], thrown e)

-- `if (!response.ok) throw …`, and then the body.
abbrev body_of : Response → M CloudinaryUpload
body_of not_ok = ([], thrown "upload-failed")
body_of (response body) = await body

abbrev pure {ℓ} : {A : Type ℓ} → A → List Call × Outcome A
pure a = ([], returned a)

abbrev require : Bool → String → M (Unit {0})
require true e = ([], returned tt)
require false e = ([], thrown e)

-- `picked.assets?.[0]`, unless the camera was cancelled.
abbrev first_of_assets : Option (List Asset) → Option Asset
first_of_assets none = none
first_of_assets (some []) = none
first_of_assets (some (a ∷ as')) = some a

unfoldable pub asset_of : Picked → Option Asset
asset_of p = if p.canceled then none else first_of_assets p.assets

abbrev cloud_of : Option SignedUpload → Option String
cloud_of none = none
cloud_of (some s) = s.cloud_name

-- `signed.error || !signed.data?.cloud_name` is what the flow refuses.
unfoldable pub params_of : Signed → Option SignedUpload
params_of s = if s.has_error then none else if is_truthy (cloud_of s.upload) then s.upload else none

unfoldable pub form_of : Asset → SignedUpload → Form
form_of asset params = record {
  uri = asset.uri;
  mime_type = or_else asset.mime_type "image/jpeg";
  api_key = or_empty params.api_key;
  timestamp = or_empty params.timestamp;
  folder = or_empty params.folder;
  signature = or_empty params.signature;
}

unfoldable pub upload_url : SignedUpload → String
upload_url params =
    text_append "https://api.cloudinary.com/v1_1/"
      (text_append (or_empty params.cloud_name) "/image/upload")

abbrev some_or {ℓ} : {A : Type ℓ} → Option A → String → List Call × Outcome A
some_or none e = ([], thrown e)
some_or (some a) e = ([], returned a)

module _ (w : World) (booking_id : String) (kind : Kind) where
  -- From the signed upload on.
  unfoldable pub send_photo : Asset → M (Option Kind)
  send_photo asset = do
    signed ← call (sign_upload booking_id) w.signed
    params ← some_or (params_of signed) "uploads-not-configured"
    let url = upload_url params
    let form = form_of asset params
    answer ← call (upload url form) (w.upload_answer url form)
    uploaded ← body_of answer
    failed ← call (record_photo booking_id kind uploaded) (w.record_error kind uploaded)
    require (not failed) "record-failed"
    pure (some kind)

  abbrev with_asset : Option Asset → M (Option Kind)
  with_asset none = pure none
  with_asset (some asset) = send_photo asset

  -- The `mutationFn`; it returns `null` where the camera was cancelled.
  unfoldable pub add_work_photo : M (Option Kind)
  unfolding send_photo
  add_work_photo = do
    granted ← call ask_permission w.granted
    require granted "camera-permission-denied"
    picked ← call launch_camera w.picked
    with_asset (asset_of picked)
