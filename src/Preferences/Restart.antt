-- ===== src/Preferences/Restart.antt =====
-- Restarting an app: the setters of the store, and `hydrate` after them.
use sethu_care.Prelude.{
  ◌≡◌, refl, ap, ◌∙◌, inl, inr, Bool, true, false, String, some, List, [], ◌∷◌, str_eq, eq_iff,
  if◌then◌else◌, map, Bool-cases,
}
use sethu_care.Text.{is_truthy, trim}
use sethu_care.Device.{
  Device, Keeps, save_preference, load_preference, save_preference-Keeps,
  load_preference-save_preference,
}
use sethu_care.Preferences.{
  Preferences, Json, IsJson, texts, parse_recent, hydrate, set_language, set_selected_address_id,
  set_sethu_plus, next_recent, add_recent_search, clear_recent_searches, language_key, address_key,
  sethu_plus_key, recent_searches_key, is_true_text,
}

-- The calls that the screens make of the store.
pub data Change : Type 0 where
  language : String → Change
  address : String → Change
  plus : Bool → Change
  search_for : String → Change
  clear : Change

module _ (lower : String → String) (json : Json) where
  unfoldable pub change : Preferences × Device → Change → Preferences × Device
  unfolding set_language set_selected_address_id set_sethu_plus add_recent_search
      clear_recent_searches
  change s (language t) = set_language s t
  change s (address id) = set_selected_address_id s id
  change s (plus member) = set_sethu_plus s member
  change s (search_for term) = add_recent_search lower json s term
  change s clear = clear_recent_searches json s

  unfoldable pub run : Preferences × Device → List Change → Preferences × Device
  run s [] = s
  run s (c ∷ cs) = run (change s c) cs

texts-map-some : (ts : List String) → texts (map some ts) ≡ ts
unfolding texts
texts-map-some [] = refl
texts-map-some (t ∷ ts) = ap (λ us. t ∷ us) (texts-map-some ts)

module _ (json : Json) (laws : IsJson json) where
  stringify-truthy : (ts : List String) → is_truthy (some (json.stringify ts)) ≡ true
  stringify-truthy ts = elim (Bool-cases (str_eq (json.stringify ts) "")) [
    | inl e ↦
        let same : json.stringify ts ≡ "" = (eq_iff _ _).0 e in
        cc (laws.round_trip ts, laws.empty_text, ap json.parse same)
    | inr e ↦ rw e
  ]

  parse_recent-stringify : (ts : List String) → parse_recent json (some (json.stringify ts)) ≡ ts
  unfolding parse_recent
  parse_recent-stringify ts = rw (stringify-truthy ts) (rw (laws.round_trip ts) (texts-map-some ts))

  -- The device holds the preferences.
  record InSync (s : Preferences × Device) : Type 0 where
    kept : Keeps s.1
    languages : load_preference s.1 language_key ≡ s.0.language
    addresses : load_preference s.1 address_key ≡ s.0.selected_address_id
    memberships : is_true_text (load_preference s.1 sethu_plus_key) ≡ s.0.sethu_plus
    searches : parse_recent json (load_preference s.1 recent_searches_key) ≡ s.0.recent_searches

  -- A write keeps them in step if the state changed in the field of the key that was written.
  save-InSync :
      (d : Device) (q : Preferences) (key value : String)
      → Keeps d
      → (if str_eq key language_key then some value else load_preference d language_key)
        ≡ q.language
      → (if str_eq key address_key then some value else load_preference d address_key)
        ≡ q.selected_address_id
      → is_true_text
          (if str_eq key sethu_plus_key then some value else load_preference d sethu_plus_key)
        ≡ q.sethu_plus
      → parse_recent json (
          if str_eq key recent_searches_key
          then some value
          else load_preference d recent_searches_key)
        ≡ q.recent_searches
      → InSync (q, save_preference d key value)
  save-InSync d q key value k l a m r =
      let load = λ (j : String). load_preference-save_preference d key j value k in
      record {
        kept = save_preference-Keeps d key value k;
        languages = load language_key ∙ l;
        addresses = load address_key ∙ a;
        memberships = ap is_true_text (load sethu_plus_key) ∙ m;
        searches = ap (parse_recent json) (load recent_searches_key) ∙ r;
      }

  is_true_text-member : (b : Bool) → is_true_text (some (if b then "true" else "false")) ≡ b
  is_true_text-member true = refl
  is_true_text-member false = refl

  change-InSync :
      (lower : String → String) (s : Preferences × Device) (c : Change)
      → InSync s
      → InSync (change lower json s c)
  unfolding change
  change-InSync lower (p, d) (language t) h =
      save-InSync d _ language_key t h.kept refl h.addresses h.memberships h.searches
  change-InSync lower (p, d) (address id) h =
      save-InSync d _ address_key id h.kept h.languages refl h.memberships h.searches
  change-InSync lower (p, d) (plus b) h =
      save-InSync d _ sethu_plus_key _ h.kept h.languages h.addresses (is_true_text-member b)
        h.searches
  change-InSync lower (p, d) (search_for term) h = elim (Bool-cases (str_eq (trim term) "")) [
    | inl e ↦ rw e h
    | inr e ↦ rw e (
        save-InSync d _ recent_searches_key _ h.kept h.languages h.addresses h.memberships
          (parse_recent-stringify (next_recent lower (trim term) p.recent_searches)))
  ]
  change-InSync lower (p, d) clear h =
      save-InSync d _ recent_searches_key _ h.kept h.languages h.addresses h.memberships
        (parse_recent-stringify [])

  run-InSync :
      (lower : String → String) (s : Preferences × Device) (cs : List Change)
      → InSync s
      → InSync (run lower json s cs)
  unfolding run
  run-InSync lower s [] h = h
  run-InSync lower s (c ∷ cs) h =
      run-InSync lower (change lower json s c) cs (change-InSync lower s c h)

  hydrate-InSync : (s : Preferences × Device) → InSync s → hydrate json s.1 ≡ s.0
  unfolding hydrate
  hydrate-InSync (p, d) h = λ i. record {
    language = h.languages i;
    selected_address_id = h.addresses i;
    sethu_plus = h.memberships i;
    recent_searches = h.searches i;
  }

  -- On a device that keeps what it is given, an app that is restarted after any sequence of changes
  -- reads back exactly the preferences that it had: the language, the address, the membership and
  -- the recent searches. The first start is itself a `hydrate`.
  pub hydrate-run :
      (lower : String → String) (d : Device) (cs : List Change)
      → Keeps d
      → let s = run lower json (hydrate json d, d) cs in hydrate json s.1 ≡ s.0
  unfolding hydrate
  hydrate-run lower d cs k = hydrate-InSync _ (
      run-InSync lower _ cs (record {
        kept = k;
        languages = refl;
        addresses = refl;
        memberships = refl;
        searches = refl;
      }))
