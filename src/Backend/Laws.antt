-- ===== src/Backend/Laws.antt =====
-- What a transition request may change, and when: authorization, the two codes, and the log.
use sethu_care.Prelude.{
  ◌≡◌, refl, ◌⊎◌, inl, inr, Bool, true, false, not, String, Option, none, some, List, ◌∷◌, arith,
  ◌+◌, ◌==◌, ◌&&◌, Bool-cases,
}
use sethu_care.Machine.{
  State, Action, Applied, moved, illegal_transition, unknown_state, apply, state_text, to_action,
}
use sethu_care.Backend.{
  Booking, Caller, TransitionRequest, Reply, ok, needs_code, booking_actions, Row, is_acceptable,
  authorize, write, commit, service_apply, transition,
}

-- The answer is no success.
abbrev pub is_refusal : Reply → Bool
is_refusal (ok _ _) = false
is_refusal _ = true

-- Who holds a booking after a request that may name a technician.
abbrev pub holder_after : Option String → Option String → Option String
holder_after (some named) before = some named
holder_after none before = before

-- What an accepted action has met, what it wrote, and what it is answered with.
pub record IsAccepted (caller : Caller) (b b' : Booking) (action : Action) (chosen : Option String)
    (code_matches : Bool) (current : Row) (reply : Reply) : Type 0 where
  pub authorized : authorize caller b action ≡ true
  pub code : needs_code action ≡ true → code_matches ≡ true
  pub unraced : b.version ≡ current.version
  pub free : current.overlaps ≡ false
  pub legal : apply b.state action ≡ moved b'.state
  pub logged :
      b'.events ≡ record { from_state = b.state; action = action; to_state = b'.state } ∷ b.events
  pub bumped : b'.version ≡ b.version + 1
  pub owner : b'.customer_id ≡ b.customer_id
  pub holder : b'.technician_id ≡ holder_after chosen b.technician_id
  pub answered : reply ≡ ok (state_text b'.state) (booking_actions b'.state)

-- Nothing was written, and the answer says so.
pub record IsRefused (b b' : Booking) (reply : Reply) : Type 0 where
  pub same : b' ≡ b
  pub told : is_refusal reply ≡ true

-- What the compare-and-swap wrote.
record IsWritten (b b' : Booking) (action : Action) (chosen : Option String) (r : Applied)
    (reply : Reply) : Type 0 where
  legal : r ≡ moved b'.state
  logged :
      b'.events ≡ record { from_state = b.state; action = action; to_state = b'.state } ∷ b.events
  bumped : b'.version ≡ b.version + 1
  owner : b'.customer_id ≡ b.customer_id
  holder : b'.technician_id ≡ holder_after chosen b.technician_id
  answered : reply ≡ ok (state_text b'.state) (booking_actions b'.state)

write-holder :
    (b : Booking) (action : Action) (to : State) (chosen : Option String)
    → (write b action to chosen).technician_id ≡ holder_after chosen b.technician_id
unfolding write
write-holder b action to none = refl
write-holder b action to (some t) = refl

commit-atomic :
    (b : Booking) (action : Action) (chosen : Option String) (current : Row) (r : Applied)
    → let done = commit b action chosen current r in
      IsRefused b done.0 done.1
      ⊎ ((b.version ≡ current.version)
          × (current.overlaps ≡ false)
          × IsWritten b done.0 action chosen r done.1)
unfolding commit booking_actions
commit-atomic b action chosen current (moved to) =
    elim (Bool-cases (b.version == current.version)) [
      | inr q ↦ inl (rw q record { same = refl; told = refl })
      | inl p ↦ elim (Bool-cases current.overlaps) [
        | inl o ↦ inl (rw (p, o) record { same = refl; told = refl })
        | inr o ↦ inr (
          ground arith,
          o,
          rw (p, o)
              record {
                legal = refl;
                logged = refl;
                bumped = refl;
                owner = refl;
                holder = write-holder b action to chosen;
                answered = refl;
              },
        )
      ]
    ]
commit-atomic b action chosen current (illegal_transition _ _) =
    inl record { same = refl; told = refl }
commit-atomic b action chosen current (unknown_state _) = inl record { same = refl; told = refl }

service_apply-atomic :
    (caller : Caller) (b : Booking) (action : Action) (chosen : Option String) (code_matches : Bool)
    (current : Row)
    → let done = service_apply caller b action chosen code_matches current in
      IsRefused b done.0 done.1
      ⊎ IsAccepted caller b done.0 action chosen code_matches current done.1
unfolding service_apply
service_apply-atomic caller b action chosen code_matches current =
    elim (Bool-cases (authorize caller b action)) [
      | inr no_right ↦ inl (rw no_right record { same = refl; told = refl })
      | inl right ↦ elim (Bool-cases (needs_code action && not code_matches)) [
        | inl wrong ↦ inl (rw (right, wrong) record { same = refl; told = refl })
        | inr fine ↦
            rw (right, fine)
              (elim (commit-atomic b action chosen current (apply b.state action)) [
                | inl same ↦ inl same
                | inr (v, o, w) ↦ inr (record {
                  authorized = right;
                  code = λ needs. ground arith;
                  unraced = v;
                  free = o;
                  legal = w.legal;
                  logged = w.logged;
                  bumped = w.bumped;
                  owner = w.owner;
                  holder = w.holder;
                  answered = w.answered;
                })
              ])
      ]
    ]

-- A transition request is answered with an error and nothing is written; or its action was authorized,
-- its code matched where the action needs one, no other writer came between the read and the write,
-- the machine allows the move, the booking moved with exactly that move appended to its events, its
-- version raised by one, its customer kept, and its technician the one that the request names, if it
-- names one, and kept otherwise, and the answer tells the new state with the actions legal from it.
pub transition-atomic :
    (caller : Caller) (b : Booking) (request : TransitionRequest) (code_matches : Bool)
    (current : Row)
    → let done = transition caller b request code_matches current in
      IsRefused b done.0 done.1
      ⊎ IsAccepted caller b done.0
          (to_action request.action)
          request.technician_id
          code_matches
          current
          done.1
unfolding transition
transition-atomic caller b request code_matches current =
    let action : Action = to_action request.action in
    elim (Bool-cases (is_acceptable action request)) [
      | inr bad ↦ inl (rw bad record { same = refl; told = refl })
      | inl good ↦
          rw good (service_apply-atomic caller b action request.technician_id code_matches current)
    ]

-- What a successful answer says of the booking that it leaves.
pub record IsReport (b b' : Booking) (request : TransitionRequest) (state : String)
    (actions : List String) : Type 0 where
  pub state_told : state ≡ state_text b'.state
  pub actions_told : actions ≡ booking_actions b'.state
  pub holder_kept : request.technician_id ≡ none → b'.technician_id ≡ b.technician_id

commit-reply :
    (b : Booking) (action : Action) (request : TransitionRequest) (current : Row) (r : Applied)
    {st : String} {acts : List String}
    → (commit b action request.technician_id current r).1 ≡ ok st acts
    → IsReport b (commit b action request.technician_id current r).0 request st acts
unfolding commit booking_actions
commit-reply b action request current (moved to) e = ground arith
commit-reply b action request current (illegal_transition _ _) e = cc
commit-reply b action request current (unknown_state _) e = cc

service_apply-reply :
    (caller : Caller) (b : Booking) (action : Action) (request : TransitionRequest) (matches : Bool)
    (current : Row) {st : String} {acts : List String}
    → (service_apply caller b action request.technician_id matches current).1 ≡ ok st acts
    → IsReport b
        (service_apply caller b action request.technician_id matches current).0
        request
        st
        acts
unfolding service_apply
service_apply-reply caller b action request matches current e =
    elim (Bool-cases (authorize caller b action)) [
      | inr no_right ↦ cc (rw no_right at e)
      | inl right ↦ elim (Bool-cases (needs_code action && not matches)) [
        | inl wrong ↦ cc (rw (right, wrong) at e)
        | inr fine ↦
            rw (right, fine)
              (commit-reply b action request current (apply b.state action) (rw (right, fine) at e))
      ]
    ]

-- A successful answer tells the state that the booking was left in and the actions legal from it,
-- and a request that names no technician leaves the assignment as it was.
pub transition-reply :
    (caller : Caller) (b : Booking) (request : TransitionRequest) (matches : Bool) (current : Row)
    {st : String} {acts : List String}
    → (transition caller b request matches current).1 ≡ ok st acts
    → IsReport b (transition caller b request matches current).0 request st acts
unfolding transition
transition-reply caller b request matches current e =
    elim (Bool-cases (is_acceptable (to_action request.action) request)) [
      | inr bad ↦ cc (rw bad at e)
      | inl good ↦ rw good (
          service_apply-reply caller b (to_action request.action) request matches current
            (rw good at e))
    ]
