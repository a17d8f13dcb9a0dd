-- ===== src/Machine/Table.antt =====
-- What the transition table allows, state by state: `AllowedActions` against `Apply`, terminal
-- states, and the texts by which states and actions cross the network.
use sethu_care.Prelude.{◌≡◌, refl, ◌↔◌, Bool, true, false, String, List, [], arith, str_eq, any}
use sethu_care.Machine.{
  State, draft, other_state, Action, confirm, other_action, Applied, moved, is_valid,
  is_valid_action, is_terminal, apply, allowed_actions, state_text, action_text, to_state,
  to_action,
}

-- Whether an action stands in a list, by its text, as the apps test it with `includes`.
abbrev pub includes : List Action → String → Bool
includes actions name = any (λ a. str_eq (action_text a) name) actions

abbrev pub is_moved : Applied → Bool
is_moved (moved to) = true
is_moved _ = false

-- `AllowedActions` lists a declared action exactly when `Apply` accepts it from that state, in
-- every state, unknown ones included.
pub allowed_actions-apply :
    (s : State) (a : Action)
    → is_valid_action a ≡ true
    → includes (allowed_actions s) (action_text a) ≡ is_moved (apply s a)
unfolding allowed_actions apply action_text
allowed_actions-apply draft confirm h = refl
allowed_actions-apply _ (other_action raw) h = cc
allowed_actions-apply _ _ h = refl

-- A declared state is terminal exactly when it has no allowed action.
pub is_terminal_iff :
    (s : State) → is_valid s ≡ true → (is_terminal s ≡ true) ↔ (allowed_actions s ≡ [])
unfolding is_terminal allowed_actions
is_terminal_iff draft h = ground arith
is_terminal_iff _ h = ground arith

-- A declared state is read back from its text.
pub to_state-text : (s : State) → is_valid s ≡ true → to_state (state_text s) ≡ s
unfolding to_state state_text
to_state-text draft h = refl
to_state-text (other_state raw) h = cc
to_state-text _ h = refl

pub to_action-text : (a : Action) → is_valid_action a ≡ true → to_action (action_text a) ≡ a
unfolding to_action action_text
to_action-text confirm h = refl
to_action-text (other_action raw) h = cc
to_action-text _ h = refl
