-- ===== src/Photos/Laws.antt =====
-- How the adding of a work photo can end.
use sethu_care.Prelude.{
  ◌≡◌, refl, ap, ◌∙◌, ◌⊎◌, inl, inr, true, false, String, Option, none, some, List, [], ◌∷◌, ◌++◌,
  Bool-cases, Option-cases,
}
use sethu_care.Photos.{
  Kind, Asset, Picked, SignedUpload, Signed, CloudinaryUpload, Call, ask_permission, launch_camera,
  sign_upload, upload, record_photo, Awaited, resolved, rejected, Response, not_ok, response, World,
  Outcome, returned, thrown, asset_of, params_of, form_of, upload_url, add_work_photo,
}

abbrev with_upload : String → SignedUpload → Asset → List Call
with_upload id params asset =
    ask_permission
    ∷ launch_camera
    ∷ sign_upload id
    ∷ upload (upload_url params) (form_of asset params)
    ∷ []

abbrev after_record : String → Kind → SignedUpload → Asset → CloudinaryUpload → List Call
after_record id kind params asset uploaded =
    with_upload id params asset ++ record_photo id kind uploaded ∷ []

-- The answers up to the signed upload.
pub record IsSigned (w : World) (asset : Asset) (params : SignedUpload) : Type 0 where
  pub granted : w.granted ≡ resolved true
  pub picked : Picked
  pub camera : w.picked ≡ resolved picked
  pub taken : asset_of picked ≡ some asset
  pub signed : Signed
  pub backend : w.signed ≡ resolved signed
  pub usable : params_of signed ≡ some params

-- How a run can end: the calls that were made, and the outcome, with the answers that led there.
pub data Ends (w : World) (id : String) (kind : Kind)
    : List Call → Outcome (Option Kind) → Type 0 where
  no_permission_answer :
      (e : String) → w.granted ≡ rejected e → Ends w id kind (ask_permission ∷ []) (thrown e)
  denied :
      w.granted ≡ resolved false
      → Ends w id kind (ask_permission ∷ []) (thrown "camera-permission-denied")
  no_camera :
      (e : String)
      → w.granted ≡ resolved true
      → w.picked ≡ rejected e
      → Ends w id kind (ask_permission ∷ launch_camera ∷ []) (thrown e)
  cancelled :
      (picked : Picked)
      → w.granted ≡ resolved true
      → w.picked ≡ resolved picked
      → asset_of picked ≡ none
      → Ends w id kind (ask_permission ∷ launch_camera ∷ []) (returned none)
  no_signature :
      (e : String) (picked : Picked) (asset : Asset)
      → w.granted ≡ resolved true
      → w.picked ≡ resolved picked
      → asset_of picked ≡ some asset
      → w.signed ≡ rejected e
      → Ends w id kind (ask_permission ∷ launch_camera ∷ sign_upload id ∷ []) (thrown e)
  unsigned :
      (picked : Picked) (asset : Asset) (signed : Signed)
      → w.granted ≡ resolved true
      → w.picked ≡ resolved picked
      → asset_of picked ≡ some asset
      → w.signed ≡ resolved signed
      → params_of signed ≡ none
      → Ends w id kind
          (ask_permission ∷ launch_camera ∷ sign_upload id ∷ [])
          (thrown "uploads-not-configured")
  no_upload :
      (e : String) (asset : Asset) (params : SignedUpload)
      → IsSigned w asset params
      → w.upload_answer (upload_url params) (form_of asset params) ≡ rejected e
      → Ends w id kind (with_upload id params asset) (thrown e)
  refused :
      (asset : Asset) (params : SignedUpload)
      → IsSigned w asset params
      → w.upload_answer (upload_url params) (form_of asset params) ≡ resolved not_ok
      → Ends w id kind (with_upload id params asset) (thrown "upload-failed")
  unreadable :
      (e : String) (asset : Asset) (params : SignedUpload)
      → IsSigned w asset params
      → w.upload_answer (upload_url params) (form_of asset params)
        ≡ resolved (response (rejected e))
      → Ends w id kind (with_upload id params asset) (thrown e)
  no_record :
      (e : String) (asset : Asset) (params : SignedUpload) (uploaded : CloudinaryUpload)
      → IsSigned w asset params
      → w.upload_answer (upload_url params) (form_of asset params)
        ≡ resolved (response (resolved uploaded))
      → w.record_error kind uploaded ≡ rejected e
      → Ends w id kind (after_record id kind params asset uploaded) (thrown e)
  unrecorded :
      (asset : Asset) (params : SignedUpload) (uploaded : CloudinaryUpload)
      → IsSigned w asset params
      → w.upload_answer (upload_url params) (form_of asset params)
        ≡ resolved (response (resolved uploaded))
      → w.record_error kind uploaded ≡ resolved true
      → Ends w id kind (after_record id kind params asset uploaded) (thrown "record-failed")
  stored :
      (asset : Asset) (params : SignedUpload) (uploaded : CloudinaryUpload)
      → IsSigned w asset params
      → w.upload_answer (upload_url params) (form_of asset params)
        ≡ resolved (response (resolved uploaded))
      → w.record_error kind uploaded ≡ resolved false
      → Ends w id kind (after_record id kind params asset uploaded) (returned (some kind))

Awaited-cases :
    {A : Type 0} (a : Awaited A) → ((x : A) × (a ≡ resolved x)) ⊎ ((e : String) × (a ≡ rejected e))
Awaited-cases (resolved x) = inl (x, refl)
Awaited-cases (rejected e) = inr (e, refl)

Response-cases : (r : Response) → (r ≡ not_ok) ⊎ ((b : Awaited CloudinaryUpload) × (r ≡ response b))
Response-cases not_ok = inl refl
Response-cases (response b) = inr (b, refl)

module _ (w : World) (id : String) (kind : Kind) where
  abbrev Ended : Type 0
  Ended = Ends w id kind (add_work_photo w id kind).0 (add_work_photo w id kind).1

  -- From the record of the photo on.
  recorded-Ends :
      (asset : Asset) (params : SignedUpload) (up : CloudinaryUpload)
      → IsSigned w asset params
      → w.upload_answer (upload_url params) (form_of asset params)
        ≡ resolved (response (resolved up))
      → Ended
  unfolding add_work_photo
  recorded-Ends asset params up k u = elim (Awaited-cases (w.record_error kind up)) [
    | inr (e, r) ↦
        simp (k.granted, k.camera, k.taken, k.backend, k.usable, u, r)
          (no_record e asset params up k u r)
    | inl (failed, r) ↦ elim (Bool-cases failed) [
      | inl f ↦
          let told : w.record_error kind up ≡ resolved true = r ∙ ap resolved f in
          simp (k.granted, k.camera, k.taken, k.backend, k.usable, u, told)
            (unrecorded asset params up k u told)
      | inr f ↦
          let told : w.record_error kind up ≡ resolved false = r ∙ ap resolved f in
          simp (k.granted, k.camera, k.taken, k.backend, k.usable, u, told)
            (stored asset params up k u told)
    ]
  ]

  -- From the upload on.
  uploaded-Ends : (asset : Asset) (params : SignedUpload) → IsSigned w asset params → Ended
  unfolding add_work_photo
  uploaded-Ends asset params k =
      elim (Awaited-cases (w.upload_answer (upload_url params) (form_of asset params))) [
        | inr (e, u) ↦
            simp (k.granted, k.camera, k.taken, k.backend, k.usable, u)
              (no_upload e asset params k u)
        | inl (r, u) ↦ elim (Response-cases r) [
          | inl n ↦
              let told = u ∙ ap resolved n in
              simp (k.granted, k.camera, k.taken, k.backend, k.usable, told)
                (refused asset params k told)
          | inr (b, n) ↦ elim (Awaited-cases b) [
            | inl (up, t) ↦ recorded-Ends asset params up k (u ∙ ap resolved (n ∙ ap response t))
            | inr (e, t) ↦
                let told = u ∙ ap resolved (n ∙ ap response t) in
                simp (k.granted, k.camera, k.taken, k.backend, k.usable, told)
                  (unreadable e asset params k told)
          ]
        ]
      ]

  -- From the camera's answer on.
  photographed-Ends :
      (picked : Picked) → w.granted ≡ resolved true → w.picked ≡ resolved picked → Ended
  unfolding add_work_photo
  photographed-Ends picked g c = elim (Option-cases (asset_of picked)) [
    | inl a ↦ simp (g, c, a) (cancelled picked g c a)
    | inr (asset, a) ↦ elim (Awaited-cases w.signed) [
      | inr (e, s) ↦ simp (g, c, a, s) (no_signature e picked asset g c a s)
      | inl (signed, s) ↦ elim (Option-cases (params_of signed)) [
        | inl p ↦ simp (g, c, a, s, p) (unsigned picked asset signed g c a s p)
        | inr (params, p) ↦ uploaded-Ends asset params record {
          granted = g;
          picked = picked;
          camera = c;
          taken = a;
          signed = signed;
          backend = s;
          usable = p;
        }
      ]
    ]
  ]

  -- However the camera, the backend and Cloudinary answer, or fail to, the run ends at the first step
  -- that fails, with its own message or with the error that its call was rejected with; or it ends
  -- with nothing where no picture was taken, or with the photo recorded. It makes no call after that,
  -- and the record of the photo comes last.
  pub add_work_photo-Ends : Ends w id kind (add_work_photo w id kind).0 (add_work_photo w id kind).1
  unfolding add_work_photo
  add_work_photo-Ends = elim (Awaited-cases w.granted) [
    | inr (e, g) ↦ simp g (no_permission_answer e g)
    | inl (b, g) ↦ elim (Bool-cases b) [
      | inr d ↦ let told : w.granted ≡ resolved false = g ∙ ap resolved d in simp told (denied told)
      | inl d ↦
          let told : w.granted ≡ resolved true = g ∙ ap resolved d in
          elim (Awaited-cases w.picked) [
            | inr (e, c) ↦ simp (told, c) (no_camera e told c)
            | inl (picked, c) ↦ photographed-Ends picked told c
          ]
    ]
  ]
