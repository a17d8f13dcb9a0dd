-- ===== src/Home.antt =====
-- The technician's home: mobile/apps/provider/src/app/(tabs)/index.tsx, with the switch that tells the
-- backend whether the technician is online, features/availability/api.ts beside it. The requests are
-- answered in the order they are sent. Whether the callbacks of a call of `mutate` still run once a
-- later call was made is the query library's: it enters as an argument.
pub mod Page
pub mod Switch
use sethu_care.Prelude.{
  Bool, true, false, not, ◌||◌, String, Option, none, some, List, [], ◌∷◌, ◌++◌, if◌then◌else◌,
}
use Prim.Native.String.{◌++◌ as text_append}
use sethu_care.Text.{join_truthy, if_truthy, is_truthy, or_empty, or_else}
use sethu_care.Job.{JobResponse}

-- The switch as it is shown, what the backend holds, and the requests that wait for an answer.
pub record Home : Type 0 where
  pub online : Bool
  pub held : Bool
  pub requests : List Bool

-- `useState(false)`.
unfoldable pub open_home : Bool → Home
open_home held = record { online = false; held = held; requests = [] }

-- `toggleOnline`.
unfoldable pub toggle_online : Home → Bool → Home
toggle_online s value = record s { online = value; requests = s.requests ++ value ∷ [] }

abbrev pub is_last : List Bool → Bool
is_last [] = true
is_last (r ∷ rs) = false

-- The oldest request succeeds; or it fails, and its `onError` runs.
unfoldable pub on_answer : Bool → Home → Bool → Home
on_answer always s succeeded = elim s.requests [
  | [] ↦ s
  | value ∷ rest ↦
      if succeeded
      then record s { held = value; requests = rest }
      else if always || is_last rest
      then record s { online = not value; requests = rest }
      else record s { requests = rest }
]

-- A row of the list of jobs, and where a press leads.
pub record JobRow : Type 0 where
  pub service_name : String
  pub place : String
  pub state : String
  pub quoted_total : Option String
  pub opens : Option String

unfoldable pub job_row : JobResponse → JobRow
unfolding join_truthy
job_row job = record {
  service_name = or_else job.service_name "";
  place = join_truthy " · " (job.customer_name ∷ job.city ∷ []);
  state = or_else job.state "";
  quoted_total = if_truthy job.quoted_total;
  opens = if_truthy job.booking_id;
}

-- `holdingCash`, given what `Number` makes of the outstanding amount: whether it is above zero.
unfoldable pub holding_cash : (String → Bool) → Option String → Bool
holding_cash is_positive none = false
holding_cash is_positive (some outstanding) = is_positive outstanding
