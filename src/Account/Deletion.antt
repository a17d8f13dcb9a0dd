-- ===== src/Account/Deletion.antt =====
-- Leaving: the deletion and the sign-out of the account screens mobile/apps/customer/src/app/(tabs)/
-- account/index.tsx and mobile/apps/provider/src/app/(tabs)/account/index.tsx.
use sethu_care.Prelude.{
  ℕ, ◌+◌, ◌≤◌, ◌≡◌, ◌⊎◌, refl, Bool, true, false, not, ◌&&◌, String, none, List, [], ◌∷◌,
  if◌then◌else◌, arith, Bool-cases, inl, inr,
}
use sethu_care.Device.{Device, Keeps, load_token, load_token-delete_token, delete_token-Keeps}
use sethu_care.Session.{Session, sign_out, unauthenticated}
use sethu_care.Preferences.{Preferences}
use sethu_care.Account.{
  Account, account_view, Event, press_sign_out, press_delete, press_cancel, confirm_delete, deleted,
  delete_refused, go_to_sign_in, step, run, opened,
}

abbrev pub presses : List Event → ℕ
presses [] = 0
presses (press_delete ∷ es) = 1 + presses es
presses (_ ∷ es) = presses es

abbrev asked : Account → ℕ
asked a = a.requests + (if a.asking then 1 else 0)

-- An event adds a request or a question at most where the deletion was pressed.
step-asked :
    (offered : Bool) (a : Account) (sd : Session × Device) (e : Event)
    → asked (step offered (a, sd) e).0 ≤ asked a + presses (e ∷ [])
unfolding step go_to_sign_in
step-asked offered a sd press_sign_out = ground arith
step-asked offered a sd press_delete = ground arith
step-asked offered a sd press_cancel = ground arith
step-asked offered a sd confirm_delete = ground arith
step-asked offered a sd deleted = ground arith
step-asked offered a sd delete_refused = ground arith

presses-cons : (e : Event) (es : List Event) → presses (e ∷ es) ≡ presses (e ∷ []) + presses es
presses-cons press_sign_out es = omega arith
presses-cons press_delete es = omega arith
presses-cons press_cancel es = omega arith
presses-cons confirm_delete es = omega arith
presses-cons deleted es = omega arith
presses-cons delete_refused es = omega arith

asked-run :
    (offered : Bool) (es : List Event) (a : Account) (sd : Session × Device)
    → asked (run offered (a, sd) es).0 ≤ asked a + presses es
unfolding run
asked-run offered [] a sd = omega arith
asked-run offered (e ∷ es) a sd =
    let one = step-asked offered a sd e in
    let rest = asked-run offered es (step offered (a, sd) e).0 (step offered (a, sd) e).1 in
    omega (arith, one, rest, presses-cons e es)

-- The screen asks before it deletes: it sends no more deletions than its button was pressed.
pub run-asks :
    (offered : Bool) (es : List Event) (sd : Session × Device)
    → (run offered (opened, sd) es).0.requests ≤ presses es
run-asks offered es sd = omega (arith, asked-run offered es opened sd)

-- What a member's screen keeps to.
abbrev IsIdle : Account → Type 0
IsIdle a = (a.asking ≡ false) × (a.requests ≡ 0)

step-IsIdle :
    (a : Account) (sd : Session × Device) (e : Event) → IsIdle a → IsIdle (step false (a, sd) e).0
unfolding step go_to_sign_in
step-IsIdle a sd press_sign_out (h, k) = simp h (refl, k)
step-IsIdle a sd press_delete (h, k) = (h, k)
step-IsIdle a sd press_cancel (h, k) = (refl, k)
step-IsIdle a sd confirm_delete (h, k) = simp h (refl, k)
step-IsIdle a sd deleted (h, k) = elim (Bool-cases a.deleting) [
  | inl e ↦ simp e (h, k)
  | inr e ↦ simp e (h, k)
]
step-IsIdle a sd delete_refused (h, k) = (h, k)

run-IsIdle :
    (es : List Event) (a : Account) (sd : Session × Device)
    → IsIdle a
    → IsIdle (run false (a, sd) es).0
unfolding run
run-IsIdle [] a sd h = h
run-IsIdle (e ∷ es) a sd h =
    run-IsIdle es (step false (a, sd) e).0 (step false (a, sd) e).1 (step-IsIdle a sd e h)

-- A member of SETHU+ deletes nothing: the screen does not offer the deletion, and whatever else is
-- pressed and answered, it sends none.
pub member-deletes_nothing :
    (to_text : ℕ → String) (s : Session) (d : Device) (p : Preferences) (bookings : ℕ)
    (language : String) (es : List Event)
    → p.sethu_plus ≡ true
    → (run
        (account_view to_text s p bookings language opened).delete_shown
        (opened, (s, d))
        es).0.requests
      ≡ 0
unfolding account_view
member-deletes_nothing to_text s d p bookings language es h =
    rw h (run-IsIdle es opened (s, d) (refl, refl)).1

-- Once the screen leads to the sign-in, the session is over and the device has no token.
abbrev IsLeft : Account × (Session × Device) → Type 0
IsLeft (a, (s, d)) =
    Keeps d
    × ((a.route ≡ none) ⊎ ((s.status ≡ unauthenticated) × (s.token ≡ none) × (load_token d ≡ none)))

left : (a : Account) (s : Session) (d : Device) → Keeps d → IsLeft (go_to_sign_in a (s, d))
unfolding go_to_sign_in sign_out
left a s d h = (delete_token-Keeps d h, inr (refl, refl, load_token-delete_token d h))

step-IsLeft :
    (offered : Bool) (a : Account) (s : Session) (d : Device) (e : Event)
    → IsLeft (a, (s, d))
    → IsLeft (step offered (a, (s, d)) e)
unfolding step
step-IsLeft offered a s d press_sign_out h = elim (Bool-cases a.asking) [
  | inl e ↦ simp e h
  | inr e ↦ simp e (left a s d h.0)
]
step-IsLeft offered a s d press_delete h =
    elim (Bool-cases (offered && (not a.deleting && not a.asking))) [
      | inl e ↦ simp e h
      | inr e ↦ simp e h
    ]
step-IsLeft offered a s d press_cancel h = h
step-IsLeft offered a s d confirm_delete h = elim (Bool-cases a.asking) [
  | inl e ↦ simp e h
  | inr e ↦ simp e h
]
step-IsLeft offered a s d deleted h = elim (Bool-cases a.deleting) [
  | inl e ↦ simp e (left (record a { deleting = false }) s d h.0)
  | inr e ↦ simp e h
]
step-IsLeft offered a s d delete_refused h = h

run-left :
    (offered : Bool) (es : List Event) (a : Account) (s : Session) (d : Device)
    → IsLeft (a, (s, d))
    → IsLeft (run offered (a, (s, d)) es)
unfolding run
run-left offered [] a s d h = h
run-left offered (e ∷ es) a s d h =
    run-left offered es (step offered (a, (s, d)) e).0 (step offered (a, (s, d)) e).1.0
      (step offered (a, (s, d)) e).1.1 (step-IsLeft offered a s d e h)

-- Whatever is pressed and answered on a device that keeps what it is given: when the screen has led to
-- the sign-in, by signing out or by a deletion, the session is over and no token is left behind.
pub run-signed_out :
    (offered : Bool) (es : List Event) (s : Session) (d : Device)
    → Keeps d
    → let (a', (s', d')) = run offered (opened, (s, d)) es in
      (a'.route ≡ none)
      ⊎ ((s'.status ≡ unauthenticated) × (s'.token ≡ none) × (load_token d' ≡ none))
run-signed_out offered es s d h = (run-left offered es opened s d (h, inl refl)).1
