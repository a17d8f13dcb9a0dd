-- ===== src/Kit/Laws.antt =====
-- What the components of mobile/packages/ui/src/components keep to.
use native.Mathlib.Nat.{mod-lt}
use sethu_care.Prelude.{
  ℕ, zero, suc, ◌+◌, ◌≤◌, ◌<◌, min, ◌≡◌, ◌≢◌, ◌-◌, ◌∙◌, refl, sym, ap, Bool, true, false, not, ◌&&◌,
  ◌||◌, String, Option, none, some, List, [], ◌∷◌, find, length, str_eq, if◌then◌else◌, arith,
  Bool-cases, inl, inr, find-holds, eq_iff,
}
use sethu_care.Kit.{
  SearchField, FieldEvent, focus, blur, tick, blurred, is_rotating, field_step, field_run, nth,
  search_field, stars_from, rating, Tab, TabRoute, render_tab, press_tab, tab_of,
}

-- The index of a field lies among its prompts.
abbrev IsInside : List String → SearchField → Type 0
IsInside prompts s = s.index < length prompts

step-IsInside :
    (t : String) (prompts : List String) (value : Option String) (s : SearchField) (e : FieldEvent)
    → IsInside (t ∷ prompts) s
    → IsInside (t ∷ prompts) (field_step (some (t ∷ prompts)) value s e)
unfolding field_step
step-IsInside t prompts value s focus h = h
step-IsInside t prompts value s blur h = h
step-IsInside t prompts value s tick h =
    elim (Bool-cases (is_rotating (some (t ∷ prompts)) value s)) [
      | inl e ↦ simp e (mod-lt (s.index + 1) {m = length (t ∷ prompts)} (omega arith))
      | inr e ↦ simp e h
    ]

run-IsInside :
    (t : String) (prompts : List String) (es : List (Option String × FieldEvent)) (s : SearchField)
    → IsInside (t ∷ prompts) s
    → IsInside (t ∷ prompts) (field_run (some (t ∷ prompts)) s es)
unfolding field_run
run-IsInside t prompts [] s h = h
run-IsInside t prompts ((value, e) ∷ es) s h =
    run-IsInside t prompts es (field_step (some (t ∷ prompts)) value s e)
      (step-IsInside t prompts value s e h)

nth-there : (n : ℕ) (ts : List String) → n < length ts → nth n ts ≢ none
nth-there n [] h e = absurd (omega arith)
nth-there zero (t ∷ ts) h e = cc
nth-there (suc n) (t ∷ ts) h e = nth-there n ts (omega arith) e

there : (b : Bool) (o : Option String) → o ≢ none → (if b then some o else none) ≢ some none
there true none h e = h refl
there true (some t) h e = cc
there false o h e = cc

-- Whatever the field goes through, the rolling prompt that it shows is one of its prompts.
pub search_field-prompt :
    (t : String) (prompts : List String) (es : List (Option String × FieldEvent))
    (value placeholder : Option String)
    → (search_field
        (some (t ∷ prompts))
        value
        placeholder
        (field_run (some (t ∷ prompts)) blurred es)).1
      ≢ some none
unfolding search_field
search_field-prompt t prompts es value placeholder e =
    there (is_rotating (some (t ∷ prompts)) value (field_run (some (t ∷ prompts)) blurred es)) _
      (nth-there (field_run (some (t ∷ prompts)) blurred es).index (t ∷ prompts)
        (run-IsInside t prompts es blurred (omega arith)))
      e

-- How many stars are filled.
abbrev pub filled_count : List (Bool × Option ℕ) → ℕ
filled_count [] = 0
filled_count ((filled, _) ∷ stars) = (if filled then 1 else 0) + filled_count stars

stars-count :
    (left position value : ℕ) (is_interactive : Bool)
    → 1 ≤ position
    → filled_count (stars_from position left value is_interactive) ≡ min left (value + 1 - position)
unfolding stars_from
stars-count zero position value is_interactive h = omega arith
stars-count (suc left) position value is_interactive h =
    let rest = stars-count left (position + 1) value is_interactive (omega arith) in
    ground (arith, rest)

-- A rating shows as many filled stars as its value, and no more than it has.
pub rating-filled :
    (value max : ℕ) (read_only has_on_change : Bool)
    → filled_count (rating value max read_only has_on_change) ≡ min max value
unfolding rating
rating-filled value max read_only has_on_change =
    let counted = stars-count max 1 value (not read_only && has_on_change) (omega arith) in
    omega (arith, counted)

abbrev route_of : Option Tab → String
route_of none = ""
route_of (some t) = t.route

tab-route :
    (routes : List TabRoute) (index : ℕ) (name : String) (found : Option TabRoute) (t : Tab)
    → find (λ r. str_eq r.name name) routes ≡ found
    → tab_of routes index name found ≡ some t
    → t.route ≡ name
tab-route routes index name none t e h = cc
tab-route routes index name (some r) t e h =
    let named : r.name ≡ name = (eq_iff _ _).0 (find-holds _ routes r e) in
    let taken : r.name ≡ t.route = ap route_of h in sym taken ∙ named

-- A tab that the bar shows under a name leads to the route of that name, unless it is the tab that is
-- open or the press was prevented.
pub press_tab-route :
    (routes : List TabRoute) (index : ℕ) (name : String) (t : Tab) (prevented : Bool)
    → render_tab routes index name ≡ some t
    → (press_tab t prevented).1 ≡ (if t.focused || prevented then none else some name)
unfolding press_tab render_tab
press_tab-route routes index name t prevented h =
    let to_name = tab-route routes index name _ t refl h in rw to_name (ground arith)
