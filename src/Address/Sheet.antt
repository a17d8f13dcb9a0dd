-- ===== src/Address/Sheet.antt =====
-- The sheet of saved addresses as it is shown: mobile/apps/customer/src/features/location/components/
-- location-sheet.tsx. `toLowerCase` is a parameter.
use sethu_care.Prelude.{
  ◌≡◌, refl, Bool, true, false, not, ◌||◌, String, Option, none, some, List, [], ◌∷◌, str_eq, map,
  if◌then◌else◌,
}
use sethu_care.Text.{is_truthy, or_empty, or_option, join_truthy}
use sethu_care.Text.Search.{includes_text}
use sethu_care.Device.{Device}
use sethu_care.Preferences.{Preferences, set_selected_address_id}
use sethu_care.Address.{
  AddressForm, SheetMode, list, add, can_save, LocationSheet, select, sheet_step,
}

-- `AddressResponse`, with what the sheet reads.
pub record AddressResponse : Type 0 where
  pub id : Option String
  pub label : Option String
  pub line1 : Option String
  pub line2 : Option String
  pub city : Option String
  pub pincode : Option String

-- `iconForLabel`.
unfoldable pub icon_for_label : (String → String) → Option String → String
unfolding includes_text
icon_for_label lower label =
    let normalized = lower (or_empty label) in
    if includes_text normalized "home"
      || (includes_text normalized "घर" || includes_text normalized "ఇల్ల")
    then "home"
    else if includes_text normalized "work" || includes_text normalized "office"
    then "briefcase"
    else "location"

-- `addressSummary`.
unfoldable pub address_summary : AddressResponse → String
unfolding join_truthy
address_summary a = join_truthy ", " (a.line1 ∷ a.line2 ∷ a.city ∷ a.pincode ∷ [])

pub record AddressRow : Type 0 where
  pub spoken : Option String
  pub is_selected : Bool
  pub icon : String
  pub icon_tone : String
  pub label : String
  pub summary : String

pub data AddressList : Type 0 where
  skeletons no_addresses : AddressList
  address_rows : List AddressRow → AddressList

-- The sheet's face: the list with a button that adds an address, or the form.
pub data Face : Type 0 where
  list_face : (title : String) → AddressList → Face
  form_face : (title : String) → (loading save_disabled : Bool) → Face

-- `===` of an id that may be missing (`undefined`) and the preference, which is `null` where there is
-- none.
abbrev pub is_the_selected : Option String → Option String → Bool
is_the_selected (some a) (some b) = str_eq a b
is_the_selected _ _ = false

module _ (lower : String → String) where
  unfoldable pub address_row : Option String → AddressResponse → AddressRow
  unfolding icon_for_label address_summary
  address_row selected_id a = record {
    spoken = or_option a.label a.line1;
    is_selected = is_the_selected a.id selected_id;
    icon = icon_for_label lower a.label;
    icon_tone = if is_the_selected a.id selected_id then "primary" else "muted";
    label = if is_truthy a.label then or_empty a.label else "address.select";
    summary = address_summary a;
  }

  abbrev rows_of : Option String → Option (List AddressResponse) → AddressList
  rows_of selected_id none = no_addresses
  rows_of selected_id (some []) = no_addresses
  rows_of selected_id (some (a ∷ rest)) = address_rows (map (address_row selected_id) (a ∷ rest))

  -- `AddressList`.
  unfoldable pub address_list :
      (is_loading : Bool)
      → Option (List AddressResponse)
      → (selected_id : Option String) → AddressList
  unfolding address_row
  address_list is_loading addresses selected_id =
      if is_loading then skeletons else rows_of selected_id addresses

  -- `LocationSheet`, with `AddressForm` in it.
  unfoldable pub sheet_face :
      SheetMode
      → (is_loading : Bool) → Option (List AddressResponse)
      → (selected_id : Option String) → (is_pending : Bool) → AddressForm
      → Face
  unfolding address_list can_save
  sheet_face list is_loading addresses selected_id is_pending form =
      list_face "address.select" (address_list is_loading addresses selected_id)
  sheet_face add is_loading addresses selected_id is_pending form =
      form_face "address.add" is_pending (not (can_save form))

  -- An address that was pressed is the one that is marked when the list is shown again, and no other.
  address_row-sheet_step :
      (s : LocationSheet × (Preferences × Device)) (pressed : Option String) (a : AddressResponse)
      → is_truthy pressed ≡ true
      → (address_row (sheet_step s (select pressed)).1.0.selected_address_id a).is_selected
        ≡ is_the_selected a.id pressed
  unfolding address_row sheet_step set_selected_address_id
  address_row-sheet_step s none a h = cc
  address_row-sheet_step s (some id) a h = rw h refl
