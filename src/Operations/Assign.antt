-- ===== src/Operations/Assign.antt =====
-- The assignment queue and its dialog: mobile/apps/admin/app/(app)/assignments/page.tsx.
--
-- The dialog has no key: it keeps its mutation when another booking is looked for while it is open, and
-- is mounted anew after it was closed. Its mutation goes on when it is closed. A press, an answer and a
-- closing are events in any order.
pub mod Aim
use sethu_care.Prelude.{
  ℕ, ◌+◌, ◌≤◌, ◌≡◌, refl, Bool, true, false, not, ◌||◌, String, Option, none, some, List, [], ◌∷◌,
  map, All, if◌then◌else◌, arith, Bool-cases, inl, inr,
}
use sethu_care.Text.{is_truthy, or_empty, or_else}
use sethu_care.Operations.{Table, Tone, warning, table, list_of}

-- `AssignmentQueueEntry`.
pub record QueueEntry : Type 0 where
  pub booking_id : Option String
  pub service_name : Option String
  pub customer_name : Option String
  pub city : Option String
  pub quoted_total : Option String
  pub state : Option String

pub record QueueLine : Type 0 where
  pub service : Option String
  pub customer : String
  pub city : Option String
  pub total : Option String
  pub status_label : String
  pub status_tone : Tone
  pub opens : Option String

unfoldable pub queue_line : QueueEntry → QueueLine
queue_line entry = record {
  service = entry.service_name;
  customer = if is_truthy entry.customer_name then or_empty entry.customer_name else "—";
  city = entry.city;
  total = entry.quoted_total;
  status_label = or_empty entry.state;
  status_tone = warning;
  opens = entry.booking_id;
}

-- The table of `AssignmentsPage`.
unfoldable pub queue_page : Option (List QueueEntry) → (is_loading : Bool) → Table QueueLine
queue_page answer is_loading =
    table queue_line (list_of answer) is_loading 6 "Nothing waiting — every booking is assigned."

-- `CandidateResponse`, with the fractions as they are printed.
pub record Candidate : Type 0 where
  pub technician_id : Option String
  pub name : Option String
  pub rating : Option String
  pub acceptance : String
  pub active_jobs : Option ℕ
  pub max_concurrent_jobs : Option ℕ

pub record CandidateLine : Type 0 where
  pub name : Option String
  pub rating : String
  pub acceptance : String
  pub load : Option ℕ × Option ℕ
  pub disabled : Bool

unfoldable pub candidate_line : Bool → Candidate → CandidateLine
candidate_line is_pending c = record {
  name = c.name;
  rating = or_else c.rating "—";
  acceptance = c.acceptance;
  load = (c.active_jobs, c.max_concurrent_jobs);
  disabled = is_pending || not (is_truthy c.technician_id);
}

-- The body of the dialog: a message, which is a paragraph and no row here, or the candidates.
unfoldable pub candidates_body :
    Option (List Candidate) → (is_loading is_pending : Bool) → Table CandidateLine
candidates_body answer is_loading is_pending =
    table (candidate_line is_pending) (list_of answer) is_loading 1
      "No eligible technician right now (city, skill, shift, or capacity)."

-- One request to assign a technician, and whether its dialog is still open.
pub record Assignment : Type 0 where
  pub booking_id : String
  pub technician_id : String
  pub mounted : Bool

-- The page: the booking whose dialog is open, the requests without an answer (newest first), the
-- requests sent, and how often the queue was read anew.
pub record Assigning : Type 0 where
  pub selected : Option String
  pub in_flight : List Assignment
  pub sent : List Assignment
  pub refreshed : ℕ

pub data Event : Type 0 where
  find_technician : Option String → Event
  close : Event
  assign : (technician_id : Option String) → Event
  succeeded refused : Event

abbrev pub unmount : Assignment → Assignment
unmount a = record { booking_id = a.booking_id; technician_id = a.technician_id; mounted = false }

-- `assign.isPending` of the dialog that is open.
abbrev pub is_pending : List Assignment → Bool
is_pending [] = false
is_pending (a ∷ more) = a.mounted || is_pending more

abbrev pub without_last : List Assignment → List Assignment
without_last [] = []
without_last (a ∷ []) = []
without_last (a ∷ b ∷ more) = a ∷ without_last (b ∷ more)

abbrev start : Assignment → Assigning → Assigning
start a s = record {
  selected = s.selected;
  in_flight = a ∷ s.in_flight;
  sent = a ∷ s.sent;
  refreshed = s.refreshed;
}

-- The press on a candidate's button, which is disabled while the dialog's request is under way.
unfoldable pub press_assign : Option String → Option String → Assigning → Assigning
press_assign none technician s = s
press_assign (some booking) technician s =
    if is_pending s.in_flight || not (is_truthy technician)
    then s
    else start record { booking_id = booking; technician_id = or_empty technician; mounted = true }
        s

abbrev pub truthy_or_none : Option String → Option String
truthy_or_none t = if is_truthy t then t else none

-- `onSuccess` reads the queue anew and closes the dialog, whichever is open by then.
unfoldable pub on_success : List Assignment → Assigning → Assigning
on_success [] s = s
on_success (a ∷ more) s = record {
  selected = none;
  in_flight = map unmount (without_last (a ∷ more));
  sent = s.sent;
  refreshed = s.refreshed + 1;
}

-- The requests after a press on "Find technician": the dialog that is open stays, with its mutation.
abbrev pub after_find : (before booking : Option String) → List Assignment → List Assignment
after_find (some before) (some booking) in_flight =
    if is_truthy (some booking) then in_flight else map unmount in_flight
after_find before booking in_flight = map unmount in_flight

-- One event. The answers come in the order of the requests.
unfoldable pub step : Assigning → Event → Assigning
unfolding press_assign on_success
step s (find_technician booking) = record {
  selected = truthy_or_none booking;
  in_flight = after_find s.selected booking s.in_flight;
  sent = s.sent;
  refreshed = s.refreshed;
}
step s close = record {
  selected = none;
  in_flight = map unmount s.in_flight;
  sent = s.sent;
  refreshed = s.refreshed;
}
step s (assign technician) = press_assign s.selected technician s
step s succeeded = on_success s.in_flight s
step s refused = record {
  selected = s.selected;
  in_flight = without_last s.in_flight;
  sent = s.sent;
  refreshed = s.refreshed;
}

unfoldable pub run : Assigning → List Event → Assigning
run s [] = s
run s (e ∷ es) = run (step s e) es

abbrev pub opened : Assigning
opened = record { selected = none; in_flight = []; sent = []; refreshed = 0 }
