-- ===== src/Home/Page.antt =====
-- The technician's home as it is shown: mobile/apps/provider/src/app/(tabs)/index.tsx. What `Number`
-- makes of an amount, whether it is above zero, is a parameter.
use Prim.Native.String.{◌++◌ as text_append}
use sethu_care.Prelude.{Bool, String, Option, none, some, List, [], ◌∷◌, map, if◌then◌else◌}
use sethu_care.Text.{or_empty}
use sethu_care.Job.{JobResponse}
use sethu_care.Home.{JobRow, job_row, holding_cash}

pub record JobsQuery : Type 0 where
  pub jobs : Option (List JobResponse)
  pub is_loading : Bool
  pub is_error : Bool

pub data JobsBody : Type 0 where
  error_state : (title retry_label : String) → JobsBody
  skeletons : JobsBody
  -- `EmptyState` with its icon and title.
  no_jobs : (icon title : String) → JobsBody
  job_rows : List JobRow → JobsBody

pub record HomeView : Type 0 where
  pub switch_icon : String
  pub switch_tone : String
  pub switch_label : String
  pub switch_on : Bool
  -- The amount in the reminder, which leads to the earnings.
  pub reminder : Option String
  pub body : JobsBody

abbrev rows_of : Option (List JobResponse) → JobsBody
rows_of none = no_jobs "package" "jobs:list.empty"
rows_of (some []) = no_jobs "package" "jobs:list.empty"
rows_of (some (job ∷ jobs)) = job_rows (map job_row (job ∷ jobs))

-- `Jobs`.
unfoldable pub jobs_page :
    (is_positive : String → Bool)
    → (online : Bool) → JobsQuery
    → (outstanding : Option String) → HomeView
unfolding holding_cash job_row
jobs_page is_positive online query outstanding = record {
  switch_icon = if online then "online" else "offline";
  switch_tone = if online then "success" else "muted";
  switch_label = if online then "jobs:status.online" else "jobs:status.offline";
  switch_on = online;
  reminder =
      if holding_cash is_positive outstanding
      then some (text_append "₹" (or_empty outstanding))
      else none;
  body =
      if query.is_error
      then error_state "common:errors.generic" "common:actions.retry"
      else if query.is_loading
      then skeletons
      else rows_of query.jobs;
}
