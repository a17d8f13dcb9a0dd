-- ===== src/Home/Switch.antt =====
-- Whether the switch tells the truth.
use mathlib.Core.List.{append-nil, append_assoc}
use sethu_care.Prelude.{
  Bool-cases, inl, inr, ◌||◌, ◌≡◌, refl, sym, ap, ◌∙◌, Bool, false, not, List, [], ◌∷◌, ◌++◌, arith,
}
use sethu_care.Home.{Home, is_last, toggle_online, on_answer}

-- Flips one after the other, each answered before the next: what the backend makes of each.
pub flips : Bool → Home → List Bool → Home
flips always s [] = s
flips always s (ok ∷ oks) = flips always (on_answer always (toggle_online s (not s.online)) ok) oks

-- The switch shows what the backend holds, and nothing is under way.
pub record IsTrue (s : Home) : Type 0 where
  pub told : s.online ≡ s.held
  pub idle : s.requests ≡ []

flip-IsTrue :
    (always : Bool) (s : Home) (ok : Bool)
    → IsTrue s
    → IsTrue (on_answer always (toggle_online s (not s.online)) ok)
unfolding on_answer toggle_online
flip-IsTrue always s ok h = ground (arith, h.idle, h.told)

-- A switch that tells the truth, flipped any number of times with each flip answered before the next,
-- tells the truth, whichever of the requests fail.
pub flips-IsTrue :
    (always : Bool) (s : Home) (oks : List Bool) → IsTrue s → IsTrue (flips always s oks)
unfolding flips
flips-IsTrue always s [] h = h
flips-IsTrue always s (ok ∷ oks) h =
    flips-IsTrue always (on_answer always (toggle_online s (not s.online)) ok) oks
      (flip-IsTrue always s ok h)

-- Flips one after the other, with no answer in between.
abbrev pub toggles : Home → List Bool → Home
toggles s [] = s
toggles s (value ∷ values) = toggles (toggle_online s value) values

-- As many requests fail, one after the other.
abbrev pub refusals : Bool → Home → List Bool → Home
refusals always s [] = s
refusals always s (value ∷ values) = refusals always (on_answer always s false) values

toggles-same :
    (s : Home) (values : List Bool)
    → ((toggles s values).held ≡ s.held) × ((toggles s values).requests ≡ s.requests ++ values)
unfolding toggle_online
toggles-same s [] = (refl, sym (append-nil s.requests))
toggles-same s (value ∷ values) =
    let (held, requests) = toggles-same (toggle_online s value) values in
    (held, requests ∙ append_assoc s.requests (value ∷ []) values)

refused_request :
    (always : Bool) (s : Home) (value : Bool) (rest : List Bool)
    → s.requests ≡ value ∷ rest
    → ((on_answer always s false).requests ≡ rest) × ((on_answer always s false).held ≡ s.held)
unfolding on_answer
refused_request always s value rest e = elim (Bool-cases (always || is_last rest)) [
  | inl h ↦ rw e (rw h (refl, refl))
  | inr h ↦ rw e (rw h (refl, refl))
]

refusals-last :
    (always : Bool) (s : Home) (values : List Bool) (last : Bool)
    → s.requests ≡ values ++ last ∷ []
    → let t = refusals always s (values ++ last ∷ []) in
      (t.online ≡ not last) × (t.held ≡ s.held) × (t.requests ≡ [])
unfolding on_answer
refusals-last always s [] last e = ground (arith, e)
refusals-last always s (value ∷ values) last e =
    let (same, kept) = refused_request always s value (values ++ last ∷ []) e in
    let (online, held, requests) =
      refusals-last always (on_answer always s false) values last same in
    (online, held ∙ kept, requests)

-- From a switch that tells the truth: any flips made before the first answer, all of which fail, their
-- answers coming in the order in which they were sent, leave the switch at the opposite of the last
-- flip, and the backend where it was. So the switch tells the truth afterwards exactly if the last
-- flip was away from what the backend holds.
pub refusals-toggles :
    (always : Bool) (s : Home) (values : List Bool) (last : Bool)
    → IsTrue s
    → let t = refusals always (toggles s (values ++ last ∷ [])) (values ++ last ∷ []) in
      (t.online ≡ not last) × (t.held ≡ s.held) × (t.requests ≡ [])
refusals-toggles always s values last h =
    let (held, requests) = toggles-same s (values ++ last ∷ []) in
    let (online, kept, none_left) =
      refusals-last always (toggles s (values ++ last ∷ [])) values last
        (requests ∙ ap (λ r. r ++ (values ++ last ∷ [])) h.idle) in
    (online, kept ∙ held, none_left)
