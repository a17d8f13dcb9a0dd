-- ===== src/Address.antt =====
-- Saved addresses on the customer app, under mobile/apps/customer/src/features: the picker of the
-- checkout screen, address/components/address-picker.tsx, and the sheet of the home screen,
-- location/components/location-sheet.tsx, with its form. A press on a button that is disabled does
-- nothing. A text that is looked up in the locale files stands by its key.
pub mod Sheet
pub mod Requests
use sethu_care.Prelude.{
  ℕ, Bool, true, false, not, ◌&&◌, String, Option, none, some, List, [], ◌∷◌, str_eq, if◌then◌else◌,
  ◌==◌,
}
use sethu_care.Text.{is_truthy, is_digits, or_empty, trim}
use sethu_care.Text.Digits.{keep_digits, slice, text_length}
use sethu_care.Device.{Device}
use sethu_care.Preferences.{Preferences, set_selected_address_id}

-- `CreateAddressRequest`; the coordinates in hundredths of a degree.
pub record CreateAddressRequest : Type 0 where
  pub label : Option String
  pub line1 : String
  pub line2 : Option String
  pub city : String
  pub pincode : String
  pub lat : Option ℕ
  pub lng : Option ℕ
  pub is_default : Bool

-- The picker, with the address that its parent holds.
pub record AddressPicker : Type 0 where
  pub selected_id : Option String
  pub adding : Bool
  pub line1 : String
  pub city : String
  pub pincode : String

abbrev pub initial_picker : AddressPicker
initial_picker = record {
  selected_id = none;
  adding = false;
  line1 = "";
  city = "Bengaluru";
  pincode = "";
}

unfoldable pub is_complete : AddressPicker → Bool
is_complete s = not (str_eq s.line1 "") && (not (str_eq s.city "") && is_digits 6 s.pincode)

-- `onAdd`: the request that is sent.
unfoldable pub on_add : AddressPicker → Option CreateAddressRequest
unfolding is_complete
on_add s =
    if is_complete s
    then some (record {
      label = none;
      line1 = s.line1;
      line2 = none;
      city = s.city;
      pincode = s.pincode;
      lat = some 1297;
      lng = some 7759;
      is_default = true;
    })
    else none

-- A press on a listed address.
unfoldable pub on_select : AddressPicker → Option String → AddressPicker
on_select s id = if is_truthy id then record s { selected_id = id } else s

-- The `onSuccess` of `onAdd`, given the id of the answer.
unfoldable pub on_added : AddressPicker → Option String → AddressPicker
unfolding on_select
on_added s id = record (on_select s id) { adding = false; line1 = "" }

-- The sheet's form.
pub record AddressForm : Type 0 where
  pub label : String
  pub line1 : String
  pub line2 : String
  pub city : String
  pub pincode : String

abbrev pub initial_form : AddressForm
initial_form = record { label = ""; line1 = ""; line2 = ""; city = ""; pincode = "" }

pub data FormEvent : Type 0 where
  type_label type_line1 type_line2 type_city type_pincode : String → FormEvent

unfoldable pub form_step : AddressForm → FormEvent → AddressForm
unfolding keep_digits slice
form_step f (type_label t) = record f { label = t }
form_step f (type_line1 t) = record f { line1 = t }
form_step f (type_line2 t) = record f { line2 = t }
form_step f (type_city t) = record f { city = t }
form_step f (type_pincode t) = record f { pincode = slice 6 (keep_digits t) }

unfoldable pub form_run : AddressForm → List FormEvent → AddressForm
form_run f [] = f
form_run f (e ∷ es) = form_run (form_step f e) es

unfoldable pub can_save : AddressForm → Bool
unfolding text_length
can_save f =
    not (str_eq (trim f.line1) "")
    && (not (str_eq (trim f.city) "") && text_length (trim f.pincode) == 6)

-- `t.trim() || undefined`.
abbrev trimmed_or_none : String → Option String
trimmed_or_none t = if str_eq (trim t) "" then none else some (trim t)

-- The body of the request that `save` sends.
abbrev pub request_of : AddressForm → CreateAddressRequest
request_of f = record {
  label = trimmed_or_none f.label;
  line1 = trim f.line1;
  line2 = trimmed_or_none f.line2;
  city = trim f.city;
  pincode = trim f.pincode;
  lat = none;
  lng = none;
  is_default = false;
}

-- `save`, behind the button's `disabled`.
unfoldable pub save : AddressForm → Option CreateAddressRequest
unfolding can_save
save f = if can_save f then some (request_of f) else none

-- The sheet: which of its two faces it shows, and whether it is open.
pub data SheetMode : Type 0 where
  list add : SheetMode

pub record LocationSheet : Type 0 where
  pub mode : SheetMode
  pub visible : Bool

pub data SheetEvent : Type 0 where
  close_sheet press_add : SheetEvent
  -- `select` with the id of the pressed address, and the `onSuccess` of `save`.
  select saved : Option String → SheetEvent

abbrev remember : Option String → Preferences × Device → Preferences × Device
remember id p = if is_truthy id then set_selected_address_id p (or_empty id) else p

abbrev closed : LocationSheet
closed = record { mode = list; visible = false }

unfoldable pub sheet_step :
    LocationSheet × (Preferences × Device) → SheetEvent → LocationSheet × (Preferences × Device)
sheet_step (s, p) close_sheet = (closed, p)
sheet_step (s, p) press_add = (record s { mode = add }, p)
sheet_step (s, p) (select id) = ((if is_truthy id then closed else s), remember id p)
sheet_step (s, p) (saved id) = (record s { mode = list }, remember id p)
