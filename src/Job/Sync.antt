-- ===== src/Job/Sync.antt =====
-- What the job screen shows of a booking, beside the booking that the backend holds.
pub mod Steps
pub mod Kept
use sethu_care.Prelude.{
  inl, inr, Option-cases, ◌≡◌, refl, ap, subst, ◌∙◌, Bool, true, String, none, some, List, arith,
  find,
}
use sethu_care.Machine.{
  State, Action, is_valid_action, apply, arrived, awaiting_completion, state_text, verify_start,
  verify_completion, action_text,
}
use sethu_care.Backend.{
  Booking, Caller, TransitionRequest, ok, Row, transition, booking_actions, job_actions,
}
use sethu_care.Backend.Laws.{IsReport, transition-reply}
use sethu_care.Job.{
  JobResponse, start, complete, JobDetail, Button, start_button, complete_button, mount, poll,
  found, info, actions, on_success, enter_code, choose_method, payment_methods, includes, is_shown,
  press, has_id,
}
use sethu_care.Job.Buttons.{
  IsHolder, job_actions-includes, booking_actions-includes, verify_start-arrived,
  verify_completion-awaiting,
}
use sethu_care.Machine.Table.{is_moved}

-- A job in the list that `myJobs` answers with, for a booking in a state.
pub record IsListed (st : State) (job : JobResponse) : Type 0 where
  pub state_sent : job.state ≡ some (state_text st)
  pub actions_sent : job.allowed_actions ≡ some (job_actions st)

-- The list is the backend's for this booking: it holds the booking's job.
pub record Lists (id : String) (st : State) (jobs : List JobResponse) : Type 0 where
  pub job : JobResponse
  pub is_first : find (has_id id) jobs ≡ some job
  pub sent : IsListed st job

-- What the screen shows is of the booking: nothing yet, or the list's word before any transition,
-- or the answer of the last transition.
pub data Shows (s : JobDetail) (st : State) : Type 0 where
  blank : s.live_state ≡ none → s.live_actions ≡ none → info s ≡ none → Shows s st
  by_list :
      s.live_state ≡ none
      → s.live_actions ≡ none
      → (job : JobResponse) → info s ≡ some job
      → IsListed st job
      → Shows s st
  by_answer :
      s.live_state ≡ some (state_text st) → s.live_actions ≡ some (booking_actions st) → Shows s st

pub record InStep (caller : Caller) (s : JobDetail) (b : Booking) : Type 0 where
  pub holder : IsHolder caller b
  pub shows : Shows s b.state
  pub started : s.mode ≡ start → b.state ≡ arrived
  pub completing : s.mode ≡ complete → b.state ≡ awaiting_completion
  pub payable : includes payment_methods s.method ≡ true
  pub seen : (job : JobResponse) → found s ≡ some job → s.snapshot ≡ some job

-- An action that the screen lists is legal, and is the technician's own unless it is a cancellation.
-- (The answer of a transition lists what is legal for anybody, and the job list what is the
-- technician's.)
pub Shows-moves :
    {s : JobDetail} {st : State} (a : Action)
    → Shows s st
    → is_valid_action a ≡ true
    → includes (actions s) (action_text a) ≡ true
    → is_moved (apply st a) ≡ true
unfolding actions
Shows-moves a (blank l m n) v h = cc (rw (m, n) at h)
Shows-moves {st} a (by_list l m job i k) v h =
    let here : includes (job_actions st) (action_text a) ≡ true = rw (m, i, k.actions_sent) at h in
    ground (arith, job_actions-includes st a v)
Shows-moves {st} a (by_answer l m) v h =
    let here : includes (booking_actions st) (action_text a) ≡ true = rw m at h in
    ground (arith, booking_actions-includes st a v)

pub Shows-of_info :
    {s t : JobDetail} {st : State}
    → t.live_state ≡ s.live_state
    → t.live_actions ≡ s.live_actions
    → info t ≡ info s
    → Shows s st
    → Shows t st
Shows-of_info p q r (blank l m n) = blank (p ∙ l) (q ∙ m) (r ∙ n)
Shows-of_info p q r (by_list l m job i k) = by_list (p ∙ l) (q ∙ m) job (r ∙ i) k
Shows-of_info p q r (by_answer l m) = by_answer (p ∙ l) (q ∙ m)

-- An answer of the job list.
pub Shows-poll :
    {s : JobDetail} {st : State} (jobs : List JobResponse)
    → Lists s.booking_id st jobs
    → Shows s st
    → Shows (poll s jobs) st
unfolding poll info
Shows-poll jobs k (blank l m n) = by_list l m k.job (rw k.is_first) k.sent
Shows-poll jobs k (by_list l m job i j) = by_list l m k.job (rw k.is_first) k.sent
Shows-poll jobs k (by_answer l m) = by_answer l m

-- An answer of the job list that lacks the job leaves what the screen knows of it.
pub info-drop :
    (s : JobDetail) (jobs : List JobResponse)
    → find (has_id s.booking_id) jobs ≡ none
    → ((job : JobResponse) → found s ≡ some job → s.snapshot ≡ some job)
    → info (poll s jobs) ≡ info s
unfolding poll info found
info-drop s jobs gone seen = elim (Option-cases (found s)) [
  | inl n ↦ simp (gone, n) refl
  | inr (job, f) ↦ simp (gone, f, seen job f) refl
]

pub opened-InStep :
    {caller : Caller} {s : JobDetail} {b : Booking} (deposited : Bool) (button : Button)
    → is_shown s deposited button ≡ true
    → InStep caller s b
    → InStep caller (press s button).0 b
unfolding press is_shown action_text found
opened-InStep {s} {b} deposited start_button h k =
    let moves = Shows-moves verify_start k.shows refl (ground arith) in
    record {
      holder = k.holder;
      shows = Shows-of_info refl refl (unfold info in refl) k.shows;
      started = λ _. verify_start-arrived b.state moves;
      completing = λ e. cc;
      payable = k.payable;
      seen = k.seen;
    }
opened-InStep {s} {b} deposited complete_button h k =
    let moves = Shows-moves verify_completion k.shows refl (ground arith) in
    record {
      holder = k.holder;
      shows = Shows-of_info refl refl (unfold info in refl) k.shows;
      started = λ e. cc;
      completing = λ _. verify_completion-awaiting b.state moves;
      payable = k.payable;
      seen = k.seen;
    }
opened-InStep deposited _ h k = k

pub transition-IsReport :
    (caller : Caller) (b : Booking) (r : TransitionRequest) (matches : Bool) (current : Row)
    {c : Booking} {told : String} {listed : List String}
    → transition caller b r matches current ≡ (c, ok told listed)
    → IsReport b c r told listed
transition-IsReport caller b r matches current {c} {told} {listed} e =
    subst (λ (x : Booking). IsReport b x r told listed) (ap (λ p. p.0) e)
      (transition-reply caller b r matches current (ap (λ p. p.1) e))

pub mount-InStep :
    (id : String) (caller : Caller) (b : Booking) → IsHolder caller b → InStep caller (mount id) b
unfolding mount info found
mount-InStep id caller b h = record {
  holder = h;
  shows = blank refl refl refl;
  started = λ e. cc;
  completing = λ e. cc;
  payable = ground arith;
  seen = λ job e. cc;
}
