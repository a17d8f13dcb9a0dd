-- ===== src/Catalog/Page/Recall.antt =====
-- What the search screen leaves in the preferences.
use sethu_care.Prelude.{
  ◌≡◌, refl, sym, ap, ◌∙◌, subst, String, Option, none, some, List, [], ◌∷◌, ◌++◌, arith,
}
use sethu_care.Text.{trim}
use sethu_care.Device.{Device, Keeps}
use sethu_care.Preferences.{Preferences, Json, IsJson, hydrate}
use sethu_care.Preferences.Recent.{IsTidy}
use sethu_care.Preferences.Restart.{Change, search_for, clear, change, hydrate-run}
use sethu_care.Preferences.Restart
use sethu_care.Catalog.{Service}
use sethu_care.Catalog.Search.{submit-IsTidy, submit-add_recent_search}
use sethu_care.Catalog.Page.{
  SearchScreen, Event, type_query, press_back, press_clear, press_submit, press_clear_recent,
  press_recent, press_service, get_elem?, shown, open_shown, step, run,
}

module _ (lower : String → String) (json : Json) (services : List Service) where
  -- One more list of recent searches on the screen's store.
  abbrev Changes : Preferences × Device → Preferences × Device → Type 0
  Changes s s' = (cs : List Change) × (Restart.run lower json s cs ≡ s')

  nothing : (s : Preferences × Device) → Changes s s
  unfolding Restart.run
  nothing s = ([], refl)

  run-append :
      (s : Preferences × Device) (cs cs' : List Change)
      → Restart.run lower json s (cs ++ cs')
        ≡ Restart.run lower json (Restart.run lower json s cs) cs'
  unfolding Restart.run
  run-append s [] cs' = refl
  run-append s (c ∷ cs) cs' = run-append (change lower json s c) cs cs'

  Changes-trans :
      (s : Preferences × Device) {s' s'' : Preferences × Device}
      → Changes s s'
      → Changes s' s''
      → Changes s s''
  Changes-trans s (cs, e) (cs', e') =
      (cs ++ cs', run-append s cs cs' ∙ (ap (λ t. Restart.run lower json t cs') e ∙ e'))

  open_shown-IsTidy :
      (s : SearchScreen) (service : Option Service)
      → IsTidy lower s.store.0.recent_searches
      → IsTidy lower (open_shown lower json services s service).0.store.0.recent_searches
  unfolding open_shown
  open_shown-IsTidy s none h = h
  open_shown-IsTidy s (some service) h = submit-IsTidy lower json s.store s.query h

  step-IsTidy :
      (s : SearchScreen) (e : Event)
      → IsTidy lower s.store.0.recent_searches
      → IsTidy lower (step lower json services s e).0.store.0.recent_searches
  unfolding step
  step-IsTidy s (type_query t) h = h
  step-IsTidy s (press_back can_go_back) h = h
  step-IsTidy s press_clear h = h
  step-IsTidy s press_submit h = submit-IsTidy lower json s.store s.query h
  step-IsTidy s press_clear_recent h = record { few = omega arith; distinct = tt; trimmed = tt }
  step-IsTidy s (press_recent i) h = h
  step-IsTidy s (press_service i) h =
      open_shown-IsTidy s (get_elem? i (shown lower json services s.query)) h

  run-IsTidy :
      (s : SearchScreen) (es : List Event)
      → IsTidy lower s.store.0.recent_searches
      → IsTidy lower (run lower json services s es).store.0.recent_searches
  unfolding run
  run-IsTidy s [] h = h
  run-IsTidy s (e ∷ es) h = run-IsTidy (step lower json services s e).0 es (step-IsTidy s e h)

  open_shown-Changes :
      (s : SearchScreen) (service : Option Service)
      → Changes s.store (open_shown lower json services s service).0.store
  unfolding open_shown Restart.run Restart.change
  open_shown-Changes s none = nothing s.store
  open_shown-Changes s (some service) =
      (search_for (trim s.query) ∷ [], sym (submit-add_recent_search lower json s.store s.query))

  step-Changes :
      (s : SearchScreen) (e : Event) → Changes s.store (step lower json services s e).0.store
  unfolding step Restart.run Restart.change
  step-Changes s (type_query t) = nothing s.store
  step-Changes s (press_back can_go_back) = nothing s.store
  step-Changes s press_clear = nothing s.store
  step-Changes s press_submit =
      (search_for (trim s.query) ∷ [], sym (submit-add_recent_search lower json s.store s.query))
  step-Changes s press_clear_recent = (clear ∷ [], refl)
  step-Changes s (press_recent i) = nothing s.store
  step-Changes s (press_service i) =
      open_shown-Changes s (get_elem? i (shown lower json services s.query))

  run-Changes :
      (s : SearchScreen) (es : List Event) → Changes s.store (run lower json services s es).store
  unfolding run
  run-Changes s [] = nothing s.store
  run-Changes s (e ∷ es) =
      Changes-trans s.store (step-Changes s e) (run-Changes (step lower json services s e).0 es)

  -- On a device that keeps what it is given, and whose recent searches are tidy (at most six, distinct
  -- but for case, trimmed and not blank), they are still tidy after any sequence of typing, presses on
  -- the services shown, submissions and clearing on the search screen of an app that was just started,
  -- and an app that is started then reads back exactly the preferences that the screen left.
  pub hydrate-run-IsTidy :
      (laws : IsJson json) (d : Device) (query : String) (es : List Event)
      → Keeps d
      → IsTidy lower (hydrate json d).recent_searches
      → let s =
          run lower json services (record { query = query; store = (hydrate json d, d) }) es in
        IsTidy lower s.store.0.recent_searches × (hydrate json s.store.1 ≡ s.store.0)
  hydrate-run-IsTidy laws d query es keeps_it tidy =
      let start : SearchScreen = record { query = query; store = (hydrate json d, d) } in
      let (cs, same) = run-Changes start es in
      (
        run-IsTidy start es tidy,
        subst (λ t. hydrate json t.1 ≡ t.0) same (hydrate-run json laws lower d cs keeps_it),
      )
