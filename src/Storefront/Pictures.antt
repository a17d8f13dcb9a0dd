-- ===== src/Storefront/Pictures.antt =====
-- The pictures of mobile/packages/ui/src/service-images.ts.
use Prim.Native.String.{◌++◌ as text_append}
use sethu_care.Prelude.{
  ◌≡◌, refl, inl, inr, Bool, true, false, String, Option, none, some, List, [], ◌∷◌, str_eq,
  if◌then◌else◌, Bool-cases,
}
use sethu_care.Text.{is_truthy, or_empty, or_option}

-- The keys of `SERVICE_IMAGES`, in the source's order.
abbrev pub image_slugs : List String
image_slugs =
    "ac-repair" ∷ "electrical" ∷ "plumbing" ∷ "air-cooler" ∷ "ceiling-fan" ∷ "chimney" ∷ "gas-stove"
    ∷ "geyser" ∷ "handyman" ∷ "inverter" ∷ "microwave" ∷ "refrigerator" ∷ "tv-install"
    ∷ "washing-machine" ∷ "water-purifier" ∷ []

-- The keys of `SERVICE_PHOTOS`.
abbrev pub photo_slugs : List String
photo_slugs =
    "ac-repair" ∷ "electrical" ∷ "plumbing" ∷ "air-cooler" ∷ "ceiling-fan" ∷ "chimney" ∷ "gas-stove"
    ∷ "geyser" ∷ "handyman" ∷ "inverter" ∷ "microwave" ∷ "refrigerator" ∷ "tv-install"
    ∷ "washing-machine" ∷ "water-purifier" ∷ []

-- The file of a slug that is a key: the folder, the slug and the ending.
pub file_of : (folder ending : String) → List String → String → Option String
file_of folder ending [] slug = none
file_of folder ending (key ∷ keys) slug =
    if str_eq key slug
    then some (text_append folder (text_append key ending))
    else file_of folder ending keys slug

-- `serviceImage`.
unfoldable pub service_image : Option String → Option String
unfolding file_of
service_image slug =
    if is_truthy slug
    then file_of "../assets/services/" ".png" image_slugs (or_empty slug)
    else none

-- `servicePhoto`: the photo, else the icon.
unfoldable pub service_photo : Option String → Option String
unfolding file_of
service_photo slug =
    if is_truthy slug
    then or_option (file_of "../assets/services/photos/" ".jpg" photo_slugs (or_empty slug))
        (file_of "../assets/services/" ".png" image_slugs (or_empty slug))
    else none

abbrev is_found : Option String → Bool
is_found none = false
is_found (some _) = true

file_of-found :
    (folder ending folder' ending' : String) (keys : List String) (slug : String)
    → is_found (file_of folder ending keys slug) ≡ is_found (file_of folder' ending' keys slug)
unfolding file_of
file_of-found folder ending folder' ending' [] slug = refl
file_of-found folder ending folder' ending' (key ∷ keys) slug =
    elim (Bool-cases (str_eq key slug)) [
      | inl e ↦ rw e refl
      | inr e ↦ rw e (file_of-found folder ending folder' ending' keys slug)
    ]
