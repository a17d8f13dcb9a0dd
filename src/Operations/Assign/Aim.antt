-- ===== src/Operations/Assign/Aim.antt =====
-- What the assignment dialog of mobile/apps/admin/app/(app)/assignments/page.tsx keeps to.
use mathlib.Core.List.{Memᴰ}
use sethu_care.Prelude.{
  Bool, ℕ, ◌+◌, ◌≤◌, ◌≡◌, refl, true, false, String, Option, none, some, List, [], ◌∷◌, All,
  if◌then◌else◌,
}
use sethu_care.Text.{is_truthy}
use sethu_care.Operations.Assign.{
  Assignment, Assigning, Event, press_assign, step, run, opened, find_technician, close, assign,
  succeeded,
}

abbrev pub mounted_count : List Assignment → ℕ
mounted_count [] = 0
mounted_count (a ∷ more) = (if a.mounted then 1 else 0) + mounted_count more

abbrev pub is_open : Option String → Bool
is_open none = false
is_open (some booking) = true

-- The bookings whose candidates were looked for, and the technicians whose button was pressed.
abbrev pub looked_for : List Event → List String
looked_for [] = []
looked_for (find_technician (some booking) ∷ es) = booking ∷ looked_for es
looked_for (e ∷ es) = looked_for es

abbrev pub picked : List Event → List String
picked [] = []
picked (assign (some technician) ∷ es) = technician ∷ picked es
picked (e ∷ es) = picked es

-- The request is for a booking that was looked for, and a technician whose button was pressed.
abbrev pub IsAsked : List String → List String → Assignment → Type 0
IsAsked bookings technicians a = Memᴰ a.booking_id bookings × Memᴰ a.technician_id technicians

-- One request of the open dialog is under way at most, and none without a dialog; and every request
-- was asked for.
pub record IsAimed (bookings technicians : List String) (s : Assigning) : Type 0 where
  pub one : mounted_count s.in_flight ≤ 1
  pub open_dialog : is_open s.selected ≡ false → mounted_count s.in_flight ≡ 0
  pub chosen : (booking : String) → s.selected ≡ some booking → Memᴰ booking bookings
  pub asked : All (IsAsked bookings technicians) s.sent

module _ (bookings technicians : List String) where
  -- The event looks for one of the bookings, or presses the button of one of the technicians.
  abbrev IsKnown : Event → Type 0
  IsKnown (find_technician (some b)) = Memᴰ b bookings
  IsKnown (assign (some t)) = Memᴰ t technicians
  IsKnown _ = Unit

-- The answer for a dialog that was closed closes the dialog that is open by then: with a request for
-- the first booking under way, the candidates of the second one disappear unassigned.
pub late_answer-closes :
    (first second technician : String)
    → is_truthy (some first) ≡ true
    → is_truthy (some second) ≡ true
    → is_truthy (some technician) ≡ true
    → ((run opened (
          find_technician (some first)
          ∷ assign (some technician)
          ∷ close
          ∷ find_technician (some second)
          ∷ [])).selected
        ≡ some second)
      × ((run opened (
            find_technician (some first)
            ∷ assign (some technician)
            ∷ close
            ∷ find_technician (some second)
            ∷ succeeded
            ∷ [])).selected
          ≡ none)
unfolding run step press_assign
late_answer-closes first second technician f s t = rw (f, s, t) (refl, refl)
