-- ===== src/Job/Buttons.antt =====
-- The lists of actions that the backend sends, and what it answers to a button's request.
use sethu_care.Prelude.{
  ◌≡◌, refl, ◌∙◌, sym, ◌⊎◌, inl, inr, Bool, true, false, not, ◌&&◌, String, Option, some, arith,
  Bool-cases, eq_refl, eq_iff, str_eq,
}
use sethu_care.Machine.{
  State, draft, arrived, awaiting_completion, Action, confirm, verify_start, verify_completion,
  cancel, other_action, Applied, moved, illegal_transition, unknown_state, technician,
  is_valid_action, can_perform, apply, allowed_actions, technician_actions, action_text, to_action,
}
use sethu_care.Machine.Table.{is_moved, to_action-text}
use sethu_care.Backend.{
  Booking, Caller, TransitionRequest, Reply, ok, forbidden, needs_code, authorize, Row, unraced,
  commit, service_apply, is_acceptable, transition, booking_actions, job_actions,
}
use sethu_care.Job.{includes, payment_methods}

pub job_actions-includes :
    (st : State) (a : Action)
    → is_valid_action a ≡ true
    → includes (job_actions st) (action_text a)
      ≡ (is_moved (apply st a) && can_perform technician a)
unfolding job_actions technician_actions apply action_text can_perform
job_actions-includes draft confirm h = refl
job_actions-includes _ (other_action raw) h = cc
job_actions-includes _ _ h = refl

pub booking_actions-includes :
    (st : State) (a : Action)
    → is_valid_action a ≡ true
    → includes (booking_actions st) (action_text a) ≡ is_moved (apply st a)
unfolding booking_actions allowed_actions apply action_text
booking_actions-includes draft confirm h = refl
booking_actions-includes _ (other_action raw) h = cc
booking_actions-includes _ _ h = refl

pub verify_start-arrived : (st : State) → is_moved (apply st verify_start) ≡ true → st ≡ arrived
unfolding apply
verify_start-arrived arrived h = refl
verify_start-arrived draft h = cc
verify_start-arrived _ h = cc

pub verify_completion-awaiting :
    (st : State) → is_moved (apply st verify_completion) ≡ true → st ≡ awaiting_completion
unfolding apply
verify_completion-awaiting awaiting_completion h = refl
verify_completion-awaiting draft h = cc
verify_completion-awaiting _ h = cc

-- The caller is a technician, and the booking is assigned to them.
pub record IsHolder (caller : Caller) (b : Booking) : Type 0 where
  pub role : caller.role ≡ technician
  pub assigned : b.technician_id ≡ some caller.id

abbrev pub is_ok : Reply → Bool
is_ok (ok state actions) = true
is_ok _ = false

authorize_holder :
    (caller : Caller) (b : Booking) (a : Action)
    → IsHolder caller b
    → authorize caller b a ≡ can_perform technician a
unfolding authorize
authorize_holder caller b a h =
    rw (h.role, h.assigned, eq_refl caller.id)
      (elim (Bool-cases (can_perform technician a)) [ inl p ↦ rw p | inr q ↦ rw q ])

commit_moved :
    (b : Booking) (a : Action) (chosen : Option String) (r : Applied)
    → is_moved r ≡ true
    → is_ok (commit b a chosen (unraced b) r).1 ≡ true
unfolding commit
commit_moved b a chosen (moved to) h = ground arith
commit_moved b a chosen (illegal_transition _ _) h = cc
commit_moved b a chosen (unknown_state _) h = cc

-- An authorized legal action whose code matches, with nobody else writing, is answered with success.
pub service_authorized :
    (caller : Caller) (b : Booking) (a : Action) (chosen : Option String) (matches : Bool)
    → authorize caller b a ≡ true
    → (needs_code a && not matches) ≡ false
    → is_moved (apply b.state a) ≡ true
    → is_ok (service_apply caller b a chosen matches (unraced b)).1 ≡ true
unfolding service_apply
service_authorized caller b a chosen matches may fine moves =
    rw (may, fine) (commit_moved b a chosen (apply b.state a) moves)

no_code_missing : (b : Bool) → (b && not true) ≡ false
no_code_missing true = refl
no_code_missing false = refl

service_holder :
    (caller : Caller) (b : Booking) (a : Action) (chosen : Option String)
    → IsHolder caller b
    → can_perform technician a ≡ true
    → is_moved (apply b.state a) ≡ true
    → is_ok (service_apply caller b a chosen true (unraced b)).1 ≡ true
service_holder caller b a chosen holder may moves =
    service_authorized caller b a chosen true (authorize_holder caller b a holder ∙ may)
      (no_code_missing (needs_code a)) moves

-- The holder's acceptable request for a legal action of theirs is answered with success, if its
-- code matches and nobody else writes.
pub holder_accepted :
    (caller : Caller) (b : Booking) (a : Action) (request : TransitionRequest)
    → IsHolder caller b
    → is_valid_action a ≡ true
    → request.action ≡ action_text a
    → is_acceptable a request ≡ true
    → can_perform technician a ≡ true
    → is_moved (apply b.state a) ≡ true
    → is_ok (transition caller b request true (unraced b)).1 ≡ true
unfolding transition is_acceptable
holder_accepted caller b a request holder valid names fits may moves =
    rw (names, to_action-text a valid)
      (rw fits (service_holder caller b a request.technician_id holder may moves))

-- Whatever the state, the holder's request to cancel is forbidden and changes nothing.
pub holder_cancel :
    (caller : Caller) (b : Booking) (request : TransitionRequest) (matches : Bool) (current : Row)
    → IsHolder caller b
    → request.action ≡ "CANCEL"
    → transition caller b request matches current ≡ (b, forbidden)
unfolding transition service_apply is_acceptable to_action can_perform
holder_cancel caller b request matches current holder names =
    rw names (rw (authorize_holder caller b cancel holder) refl)

-- The three methods of payment that the screen can choose.
pub payable-cases :
    (m : String) → includes payment_methods m ≡ true → (m ≡ "UPI") ⊎ ((m ≡ "CASH") ⊎ (m ≡ "ONLINE"))
payable-cases m h = elim (Bool-cases (str_eq "UPI" m)) [
  | inl e ↦ inl (sym ((eq_iff _ _).0 e))
  | inr p ↦ elim (Bool-cases (str_eq "CASH" m)) [
    | inl e ↦ inr (inl (sym ((eq_iff _ _).0 e)))
    | inr q ↦ elim (Bool-cases (str_eq "ONLINE" m)) [
      | inl e ↦ inr (inr (sym ((eq_iff _ _).0 e)))
      | inr r ↦ cc (rw (p, q, r) at h)
    ]
  ]
]
