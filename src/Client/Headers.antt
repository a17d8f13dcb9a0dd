-- ===== src/Client/Headers.antt =====
-- What the customer app's requests carry once it has started.
use sethu_care.Prelude.{
  ◌≡◌, refl, true, false, String, Option, none, some, [], ◌∷◌, arith, str_eq, eq_iff, if◌then◌else◌,
  inl, inr, Bool-cases, ◌∙◌, ◌⊎◌, ap, sym, Bool,
}
use Prim.Native.Char.{Char}
use Prim.Native.String.{◌++◌ as text_append}
use sethu_care.Text.{is_truthy, or_empty}
use sethu_care.Client.{
  Headers, set_header, get_header, merge_headers, attach_token, delete_header, content_type,
  cut_slash, request_headers, start_customer, Os, android, Probe, local_api_url, api_base_url,
  resolve_api_base_url, ngrok_header, authorization,
}
use sethu_care.Text.Search.{includes_text}

pub get_header-set_header :
    (name value other : String) (hs : Headers)
    → get_header other (set_header name value hs)
      ≡ (if str_eq name other then some value else get_header other hs)
unfolding get_header set_header
get_header-set_header name value other [] = refl
get_header-set_header name value other ((n, v) ∷ hs) = ground (
  arith,
  eq_iff n name,
  eq_iff n other,
  eq_iff name other,
  get_header-set_header name value other hs,
)

local_no_ngrok : (os : Os) → includes_text (local_api_url os) "ngrok" ≡ false
unfolding includes_text
local_no_ngrok android = refl
local_no_ngrok _ = refl

get_header-attach_token :
    (token : Option String) (name : String) (hs : Headers)
    → get_header name (attach_token token hs) ≡ (
        if is_truthy token
        then (if str_eq authorization name
            then some (text_append "Bearer " (or_empty token))
            else get_header name hs)
        else get_header name hs)
unfolding attach_token
get_header-attach_token token name hs = elim (Bool-cases (is_truthy token)) [
  | inl e ↦ rw e (get_header-set_header authorization _ name hs)
  | inr e ↦ rw e refl
]

empty_has_none : includes_text "" "ngrok" ≡ true → ⊥
unfolding includes_text
empty_has_none h = cc

abbrev tunnel_headers : String → Headers
tunnel_headers base = if includes_text base "ngrok" then (ngrok_header, "true") ∷ [] else []

get_header-tunnel :
    (base name : String) (hs : Headers)
    → get_header name (merge_headers hs (tunnel_headers base)) ≡ (
        if includes_text base "ngrok"
        then (if str_eq ngrok_header name then some "true" else get_header name hs)
        else get_header name hs)
unfolding merge_headers
get_header-tunnel base name hs = elim (Bool-cases (includes_text base "ngrok")) [
  | inl e ↦ rw e (get_header-set_header ngrok_header "true" name hs)
  | inr e ↦ rw e refl
]

-- The module's own configuration leaves no header that the probe's choice does not ask for.
first_no_stale :
    (override : Option String) (os : Os) (probe : Probe)
    → includes_text (api_base_url override os) "ngrok" ≡ true
    → includes_text (resolve_api_base_url override os probe) "ngrok" ≡ true
unfolding api_base_url resolve_api_base_url
first_no_stale none os probe h = cc (rw (local_no_ngrok os) at h)
first_no_stale (some u) os probe h = elim (Bool-cases (str_eq u "")) [
  | inl e ↦
      let same : u ≡ "" = (eq_iff _ _).0 e in
      let none_there : includes_text "" "ngrok" ≡ true = rw same at h in
      absurd (empty_has_none none_there)
  | inr e ↦ rw e h
]

get_header-merge_headers :
    (name : String) (hs own : Headers)
    → get_header name own ≡ none
    → get_header name (merge_headers hs own) ≡ get_header name hs
unfolding merge_headers get_header
get_header-merge_headers name hs [] h = refl
get_header-merge_headers name hs ((n, v) ∷ own) h = elim (Bool-cases (str_eq n name)) [
  | inl e ↦ cc (rw e at h)
  | inr e ↦
      let rest : get_header name own ≡ none = rw e at h in
      let kept : get_header name (set_header n v hs) ≡ get_header name hs =
        get_header-set_header n v name hs ∙ rw e refl in
      get_header-merge_headers name (set_header n v hs) own rest ∙ kept
]

get_header-delete_header :
    (name other : String) (hs : Headers)
    → str_eq other name ≡ false
    → get_header name (delete_header other hs) ≡ get_header name hs
unfolding get_header delete_header
get_header-delete_header name other [] h = refl
get_header-delete_header name other ((n, v) ∷ hs) h = ground (
  arith,
  eq_iff n other,
  eq_iff n name,
  eq_iff other name,
  get_header-delete_header name other hs h,
)

-- What a request adds to the client's headers before the interceptors.
get_header-own :
    (name : String) (hs own : Headers) (has_body : Bool)
    → get_header name own ≡ none
    → str_eq content_type name ≡ false
    → get_header name (
        if has_body
        then merge_headers hs own
        else delete_header content_type (merge_headers hs own))
      ≡ get_header name hs
get_header-own name hs own true h ne = get_header-merge_headers name hs own h
get_header-own name hs own false h ne =
    get_header-delete_header name content_type (merge_headers hs own) ne
    ∙ get_header-merge_headers name hs own h

-- A text with a slash after it.
abbrev pub with_slash : String → String
with_slash String.[] = "/"
with_slash (String.◌∷◌ c t) = String.◌∷◌ c (with_slash t)

-- A URL less the slash at its end, if it has one.
abbrev pub IsCut : String → String → Type 0
IsCut url base =
    (with_slash base ≡ url) ⊎ ((base ≡ url) × ((stem : String) → ¬ (with_slash stem ≡ url)))

one_no_stem :
    (c : Char)
    → str_eq (String.◌∷◌ c "") "/" ≡ false
    → (stem : String) → ¬ (with_slash stem ≡ String.◌∷◌ c "")
one_no_stem c n String.[] h = cc (rw (sym h) at n)
one_no_stem c n (String.◌∷◌ x String.[]) h = cc
one_no_stem c n (String.◌∷◌ x (String.◌∷◌ y t)) h = cc

more_no_stem :
    (c d : Char) (t : String)
    → ((stem : String) → ¬ (with_slash stem ≡ String.◌∷◌ d t))
    → (stem : String) → ¬ (with_slash stem ≡ String.◌∷◌ c (String.◌∷◌ d t))
more_no_stem c d t no_stem String.[] h = cc
more_no_stem c d t no_stem (String.◌∷◌ x stem) h = no_stem stem cc

empty_no_stem : (stem : String) → ¬ (with_slash stem ≡ "")
empty_no_stem String.[] h = cc
empty_no_stem (String.◌∷◌ x stem) h = cc

cut_slash-IsCut : (url : String) → IsCut url (cut_slash url)
unfolding cut_slash
cut_slash-IsCut String.[] = inr (refl, empty_no_stem)
cut_slash-IsCut (String.◌∷◌ c String.[]) = elim (Bool-cases (str_eq (String.◌∷◌ c "") "/")) [
  | inl e ↦ inl (rw e (sym ((eq_iff _ _).0 e)))
  | inr e ↦ inr (rw e refl, one_no_stem c e)
]
cut_slash-IsCut (String.◌∷◌ c (String.◌∷◌ d t)) = elim (cut_slash-IsCut (String.◌∷◌ d t)) [
  | inl e ↦ inl (ap (λ u. String.◌∷◌ c u) e)
  | inr (e, no_stem) ↦ inr (ap (λ u. String.◌∷◌ c u) e, more_no_stem c d t no_stem)
]

-- Once the customer app has chosen its backend: requests go to the chosen URL, less the slash at its
-- end if it has one; and each request, with a body or without, that brings neither header itself
-- carries the session's token exactly if there is one, and the header that skips the tunnel's warning
-- exactly if the chosen backend is an ngrok tunnel, whatever the configuration at the load of the
-- module was.
pub start_customer-headers :
    (override : Option String) (os : Os) (probe : Probe) (base : String) (token : Option String)
    (own : Headers) (has_body : Bool)
    → get_header authorization own ≡ none
    → get_header ngrok_header own ≡ none
    → let client = start_customer override os probe base in
      let hs = request_headers client own has_body token in
      IsCut (resolve_api_base_url override os probe) client.base_url
      × (get_header authorization hs
          ≡ (if is_truthy token then some (text_append "Bearer " (or_empty token)) else none))
      × (get_header ngrok_header hs ≡ (
          if includes_text (resolve_api_base_url override os probe) "ngrok"
          then some "true"
          else none))
unfolding start_customer request_headers get_header
start_customer-headers override os probe base token own has_body no_token no_tunnel =
    let plain = λ (name : String) (hs : Headers). get_header-own name hs own has_body in
    (
      cut_slash-IsCut (resolve_api_base_url override os probe),
      simp (get_header-attach_token, plain authorization _ no_token refl, get_header-tunnel)
          (ground arith),
      simp (get_header-attach_token, plain ngrok_header _ no_tunnel refl, get_header-tunnel)
          (ground (arith, first_no_stale override os probe)),
    )
