-- ===== src/Machine/Runs.antt =====
-- Histories of a booking: sequences of actions that the state machine accepts.
use mathlib.Core.List.{Memᴰ}
use sethu_care.Prelude.{
  ◌≡◌, ◌≢◌, refl, sym, ap, ◌⊎◌, inl, inr, Bool, true, false, Option, none, some, List, [], ◌∷◌,
  ◌++◌, ◌∙◌, arith,
}
use sethu_care.Machine.{
  State, draft, confirmed, searching, assigned, en_route, arrived, in_progress, awaiting_completion,
  completed, escalated, rescheduled, cancelled, failed, other_state, Action, confirm, search_action,
  assign, depart, arrive, verify_start, request_completion, verify_completion, resume, escalate,
  Applied, moved, is_valid, is_terminal, apply,
}

-- The actions take the machine from the first state to the last, each accepted by `Apply`.
pub data Run : State → List Action → State → Type 0 where
  done : {s : State} → Run s [] s
  step :
      {s t u : State} {a : Action} {acts : List Action}
      → apply s a ≡ moved t
      → Run t acts u
      → Run s (a ∷ acts) u

-- Before the start code was verified.
abbrev pub is_unstarted : State → Bool
is_unstarted in_progress = false
is_unstarted awaiting_completion = false
is_unstarted completed = false
is_unstarted _ = true

unstarted_step :
    (s : State) (a : Action) {t : State}
    → is_unstarted s ≡ true
    → apply s a ≡ moved t
    → (a ≡ verify_start) ⊎ (is_unstarted t ≡ true)
unfolding apply
unstarted_step draft confirm h e = ground arith
unstarted_step _ _ h e = ground arith

-- The last step before completion.
completed_step :
    (s : State) (a : Action)
    → apply s a ≡ moved completed
    → (s ≡ awaiting_completion) × (a ≡ verify_completion)
unfolding apply
completed_step draft confirm e = ground arith
completed_step _ _ e = ground arith

terminal_step : (s : State) (a : Action) {t : State} → is_terminal s ≡ true → apply s a ≢ moved t
unfolding apply is_terminal
terminal_step draft confirm h = ground arith
terminal_step _ _ h = ground arith

-- Every way in `awaiting_completion` is by `request_completion`.
started_step :
    (s : State) (a : Action) {t : State}
    → is_unstarted s ≡ false
    → apply s a ≡ moved t
    → (a ≡ escalate) ⊎ (is_unstarted t ≡ false)
unfolding apply
started_step draft confirm h e = ground arith
started_step _ _ h e = ground arith

unstarted-verify_start :
    {s t : State} {acts : List Action}
    → Run s acts t
    → is_unstarted s ≡ true
    → is_unstarted t ≡ false
    → Memᴰ verify_start acts
unstarted-verify_start done h k = cc
unstarted-verify_start (step {s} {a} e r) h k = elim (unstarted_step s a h e) [
  | inl p ↦ Memᴰ.head (sym p)
  | inr q ↦ Memᴰ.tail (unstarted-verify_start r q k)
]

-- A terminal booking accepts nothing: a run from it is empty and stays where it is.
pub terminal_run :
    {s t : State} {acts : List Action} → Run s acts t → is_terminal s ≡ true → (acts ≡ []) × (t ≡ s)
terminal_run done h = (refl, refl)
terminal_run (step {s} {a} e r) h = absurd (terminal_step s a h e)

completed-cases : (s : State) → (s ≡ completed) ⊎ (s ≢ completed)
completed-cases completed = inl refl
completed-cases draft = inr (λ e. cc)
completed-cases _ = inr (λ e. cc)

completed_last :
    {s t : State} {acts : List Action}
    → Run s acts t
    → s ≢ completed
    → t ≡ completed
    → (init : List Action) × (acts ≡ init ++ verify_completion ∷ [])
      × Run s init awaiting_completion
completed_last done n k = absurd (n k)
completed_last (step {s} {t = u} {a} e r) n k = elim (completed-cases u) [
  | inl p ↦
      let (nil, same) = terminal_run r (rw p (unfold is_terminal in refl)) in
      let (before, act) = completed_step s a (e ∙ ap moved p) in ([], rw (nil, act), rw before done)
  | inr q ↦
      let (init, same, before) = completed_last r q k in
      (a ∷ init, ap (λ l. a ∷ l) same, step e before)
]

-- A booking that reaches COMPLETED from DRAFT had its start code verified, and its very last
-- action verified the completion code, with nothing accepted after it.
pub completed-both_codes :
    {acts : List Action}
    → Run draft acts completed
    → (init : List Action) × (acts ≡ init ++ verify_completion ∷ []) × Memᴰ verify_start init
completed-both_codes r =
    let (init, same, before) = completed_last r (λ e. cc) refl in
    (init, same, unstarted-verify_start before refl refl)

-- Once work has started, a booking that ends CANCELLED went through an escalation.
pub started-cancelled :
    {s t : State} {acts : List Action}
    → Run s acts t
    → is_unstarted s ≡ false
    → t ≡ cancelled
    → Memᴰ escalate acts
started-cancelled done h k = cc (rw k at h)
started-cancelled (step {s} {a} e r) h k = elim (started_step s a h e) [
  | inl p ↦ Memᴰ.head (sym p)
  | inr q ↦ Memᴰ.tail (started-cancelled r q k)
]

abbrev way_from_arrived : List Action
way_from_arrived = verify_start ∷ request_completion ∷ verify_completion ∷ []

abbrev way_from_assigned : List Action
way_from_assigned = depart ∷ arrive ∷ way_from_arrived

abbrev way_from_confirmed : List Action
way_from_confirmed = search_action ∷ assign ∷ way_from_assigned

-- Actions that take a booking from each unfinished state to COMPLETED.
abbrev pub way_to_completed : State → List Action
way_to_completed draft = confirm ∷ way_from_confirmed
way_to_completed confirmed = way_from_confirmed
way_to_completed searching = assign ∷ way_from_assigned
way_to_completed assigned = way_from_assigned
way_to_completed en_route = arrive ∷ way_from_arrived
way_to_completed arrived = way_from_arrived
way_to_completed in_progress = request_completion ∷ verify_completion ∷ []
way_to_completed awaiting_completion = verify_completion ∷ []
way_to_completed escalated = assign ∷ way_from_assigned
way_to_completed rescheduled = resume ∷ way_from_confirmed
way_to_completed _ = []

abbrev run_from : Applied → (State → Option State) → Option State
run_from (moved t) rest = rest t
run_from _ rest = none

run_from-cases :
    (r : Applied) (rest : State → Option State) {u : State}
    → run_from r rest ≡ some u
    → (t : State) × (r ≡ moved t) × (rest t ≡ some u)
run_from-cases (moved t) rest e = (t, refl, e)
run_from-cases _ rest e = cc

-- The machine run on a list of actions.
unfoldable pub run : State → List Action → Option State
run s [] = some s
run s (a ∷ acts) = run_from (apply s a) (λ t. run t acts)

walk : (acts : List Action) (s : State) {t : State} → run s acts ≡ some t → Run s acts t
unfolding run
walk [] s {t} e = let same : s ≡ t = cc in rw (← same) done
walk (a ∷ acts) s e =
    let (t, moves, later) = run_from-cases (apply s a) (λ u. run u acts) e in
    step moves (walk acts t later)

-- No declared state is a dead end: from every unfinished one the machine accepts a sequence of
-- actions that completes the booking.
pub way_to_completed-run :
    (s : State) → is_valid s ≡ true → is_terminal s ≡ false → Run s (way_to_completed s) completed
unfolding apply is_terminal run
way_to_completed-run draft v h = walk _ _ (refl)
way_to_completed-run (other_state raw) v h = cc
way_to_completed-run completed v h = cc
way_to_completed-run cancelled v h = cc
way_to_completed-run failed v h = cc
way_to_completed-run _ v h = walk _ _ (refl)
