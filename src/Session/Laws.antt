-- ===== src/Session/Laws.antt =====
-- The session against the device, and the gate against the session.
use sethu_care.Prelude.{
  ◌≡◌, refl, sym, ap, ◌∙◌, ◌⊎◌, inl, inr, ◌↔◌, true, false, String, Option, none, some, List, [],
  ◌∷◌, arith, Bool-cases,
}
use sethu_care.Text.{is_truthy, or_empty, is_truthy-or_empty}
use sethu_care.Device.{
  Device, Keeps, load_token, load_token-save_token, load_token-delete_token, save_token-Keeps,
  delete_token-Keeps,
}
use sethu_care.Session.{
  Session, SessionStatus, loading, authenticated, unauthenticated, initial, status_of, hydrate,
  sign_out, Route, auth_gate, in_auth_group, segments_of, VerifyResponse, on_verified,
}

-- What happens to a session: an app start reads the device, a verify screen gets an answer, and the
-- account screen signs out.
pub data Call : Type 0 where
  started : Call
  answered : VerifyResponse → Call
  signed_out : Call

unfoldable pub call : Session × Device → Call → Session × Device
unfolding hydrate on_verified sign_out
call s started = hydrate (initial, s.1)
call s (answered answer) = (on_verified s answer).0
call s signed_out = sign_out s

unfoldable pub run : Session × Device → List Call → Session × Device
run s [] = s
run s (c ∷ cs) = run (call s c) cs

-- The token is the device's, and the status says whether there is one.
pub record IsSettled (s : Session × Device) : Type 0 where
  pub kept : Keeps s.1
  pub stored : load_token s.1 ≡ s.0.token
  pub told : s.0.status ≡ status_of s.0.token

hydrate-IsSettled : (s : Session × Device) → Keeps s.1 → IsSettled (hydrate s)
unfolding hydrate
hydrate-IsSettled (s, d) k = record { kept = k; stored = refl; told = refl }

sign_in-IsSettled :
    (s : Session × Device) (answer : VerifyResponse)
    → is_truthy answer.token ≡ true
    → Keeps s.1
    → IsSettled (on_verified s answer).0
unfolding on_verified
sign_in-IsSettled (s, d) answer h k = rw h (record {
  kept = save_token-Keeps d (or_empty answer.token) k;
  stored = load_token-save_token d (or_empty answer.token) k;
  told = rw (is_truthy-or_empty answer.token h);
})

on_verified-IsSettled :
    (s : Session × Device) (answer : VerifyResponse)
    → IsSettled s
    → IsSettled (on_verified s answer).0
unfolding on_verified
on_verified-IsSettled (s, d) answer h = elim (Bool-cases (is_truthy answer.token)) [
  | inl e ↦ sign_in-IsSettled (s, d) answer e h.kept
  | inr e ↦ rw e h
]

authenticated_iff :
    (token : Option String) → (status_of token ≡ authenticated) ↔ (is_truthy token ≡ true)
authenticated_iff token = (λ e. ground arith, λ e. ground arith)

call-IsSettled : (s : Session × Device) (c : Call) → IsSettled s → IsSettled (call s c)
unfolding call
call-IsSettled s started h = hydrate-IsSettled (initial, s.1) h.kept
call-IsSettled s (answered answer) h = on_verified-IsSettled s answer h
call-IsSettled (s, d) signed_out h = record {
  kept = delete_token-Keeps d h.kept;
  stored = load_token-delete_token d h.kept;
  told = refl;
}

run_from-IsSettled : (s : Session × Device) (cs : List Call) → IsSettled s → IsSettled (run s cs)
unfolding run
run_from-IsSettled s [] h = h
run_from-IsSettled s (c ∷ cs) h = run_from-IsSettled (call s c) cs (call-IsSettled s c h)

-- After any sequence of starts, answers of the OTP check and sign-outs, on a device that keeps what
-- it is given: the session is authenticated exactly if its token is not blank, and an app that is
-- started then has the same token and the same status, and no user.
pub restart-run :
    (d : Device) (cs : List Call)
    → Keeps d
    → let s = run (hydrate (initial, d)) cs in
      let t = (hydrate (initial, s.1)).0 in
      ((s.0.status ≡ authenticated) ↔ (is_truthy s.0.token ≡ true))
      × (t.token ≡ s.0.token)
      × (t.status ≡ s.0.status)
      × (t.user ≡ none)
unfolding hydrate
restart-run d cs k =
    let h = run_from-IsSettled (hydrate (initial, d)) cs (hydrate-IsSettled (initial, d) k) in
    (
      rw h.told (authenticated_iff (run (hydrate (initial, d)) cs).0.token),
      h.stored,
      ap status_of h.stored ∙ sym h.told,
      refl,
    )

-- The gate settles at once: where it leads, it leads no further; and where it stays, the session is
-- being read, or nobody is signed in and the screen is of the auth group, or somebody is and it is
-- not.
pub auth_gate-settles :
    (status : SessionStatus) (segments : List String)
    → ((r : Route) → auth_gate status segments ≡ some r → auth_gate status (segments_of r) ≡ none)
      × (auth_gate status segments ≡ none
          → (status ≡ loading)
            ⊎ (((status ≡ unauthenticated) × (in_auth_group segments ≡ true))
                ⊎ ((status ≡ authenticated) × (in_auth_group segments ≡ false))))
unfolding auth_gate
auth_gate-settles loading segments = (λ r e. cc, λ e. inl refl)
auth_gate-settles status segments = (λ r e. ground arith, λ e. ground arith)
