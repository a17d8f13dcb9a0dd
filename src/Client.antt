-- ===== src/Client.antt =====
-- Which backend the customer app talks to, and what every request carries: apps/customer/src/lib/config.ts
-- and packages/api-client/src/index.ts under mobile. The merging of headers is `mergeHeaders` of the generated client.
pub mod Headers
use sethu_care.Prelude.{
  ◌≡◌, refl, Bool, true, false, ◌||◌, String, Option, none, some, List, [], ◌∷◌, str_eq,
  if◌then◌else◌,
}
use Prim.Native.String
use Prim.Native.String.{◌++◌ as text_append}
use sethu_care.Text.{is_truthy, or_empty, or_else}
use sethu_care.Text.Search.{includes_text}

pub data Os : Type 0 where
  android ios other_os : Os

abbrev pub local_api_url : Os → String
local_api_url android = "http://10.0.2.2:8090"
local_api_url _ = "http://localhost:8090"

abbrev pub ngrok_tunnel_url : String
ngrok_tunnel_url = "https://climatologically-grindable-wilhelmina.ngrok-free.dev"

-- `process.env.EXPO_PUBLIC_API_URL` enters as an argument.
unfoldable pub api_base_url : Option String → Os → String
api_base_url override os = or_else override (local_api_url os)

-- What the probe of `/health` comes to within its 1.5 seconds: an answer with its `ok`, or a failure.
pub data Probe : Type 0 where
  response : Bool → Probe
  unreachable : Probe

abbrev is_ok : Probe → Bool
is_ok (response ok) = ok
is_ok unreachable = false

unfoldable pub resolve_api_base_url : Option String → Os → Probe → String
resolve_api_base_url override os probe =
    if is_truthy override
    then or_empty override
    else if is_ok probe
    then local_api_url os
    else ngrok_tunnel_url

abbrev pub Headers : Type 0
Headers = List (String × String)

-- `Headers.set` and `Headers.get`. A name is spelled one way throughout, since `Headers` ignores case.
unfoldable pub set_header : String → String → Headers → Headers
set_header name value [] = (name, value) ∷ []
set_header name value ((n, v) ∷ hs) =
    if str_eq n name then (name, value) ∷ hs else (n, v) ∷ set_header name value hs

unfoldable pub get_header : String → Headers → Option String
get_header name [] = none
get_header name ((n, v) ∷ hs) = if str_eq n name then some v else get_header name hs

-- `mergeHeaders` of two lists of plain headers.
unfoldable pub merge_headers : Headers → Headers → Headers
unfolding set_header
merge_headers hs [] = hs
merge_headers hs ((n, v) ∷ more) = merge_headers (set_header n v hs) more

-- `Headers.delete`.
unfoldable pub delete_header : String → Headers → Headers
delete_header name [] = []
delete_header name ((n, v) ∷ hs) =
    if str_eq n name then delete_header name hs else (n, v) ∷ delete_header name hs

-- One slash cut off the end of a base URL: `endsWith` and `substring`.
unfoldable pub cut_slash : String → String
cut_slash String.[] = ""
cut_slash (String.◌∷◌ c String.[]) = if str_eq (String.◌∷◌ c "") "/" then "" else String.◌∷◌ c ""
cut_slash (String.◌∷◌ c (String.◌∷◌ d t)) = String.◌∷◌ c (cut_slash (String.◌∷◌ d t))

-- The generated client's configuration, and its interceptors, newest first.
pub record Client : Type 0 where
  pub base_url : String
  pub headers : Headers
  pub interceptors : List (Option String → Headers → Headers)

-- `setConfig`, with `mergeConfigs`.
unfoldable pub set_config : Client → String → Headers → Client
unfolding cut_slash merge_headers
set_config client base headers = record {
  base_url = cut_slash base;
  headers = merge_headers client.headers headers;
  interceptors = client.interceptors;
}

abbrev pub ngrok_header : String
ngrok_header = "ngrok-skip-browser-warning"

abbrev pub authorization : String
authorization = "Authorization"

-- The interceptor that `configureApiClient` installs, given the token of the moment.
unfoldable pub attach_token : Option String → Headers → Headers
unfolding set_header
attach_token token headers =
    if is_truthy token
    then set_header authorization (text_append "Bearer " (or_empty token)) headers
    else headers

-- `configureApiClient` with a `getToken`.
unfoldable pub configure_api_client : Client → String → Client
unfolding set_config includes_text
configure_api_client client base =
    let configured =
      set_config client base
        (if includes_text base "ngrok" then (ngrok_header, "true") ∷ [] else []) in
    record {
      base_url = configured.base_url;
      headers = configured.headers;
      interceptors = attach_token ∷ configured.interceptors;
    }

unfoldable pub intercept :
    List (Option String → Headers → Headers) → Option String → Headers → Headers
intercept [] token headers = headers
intercept (f ∷ fs) token headers = f token (intercept fs token headers)

abbrev pub content_type : String
content_type = "Content-Type"

-- The headers of a request with headers of its own, and with a body or without: the client's, the
-- request's, less the content type where there is no body, through every interceptor.
unfoldable pub request_headers : Client → Headers → (has_body : Bool) → Option String → Headers
unfolding intercept merge_headers delete_header
request_headers client own has_body token =
    let merged = merge_headers client.headers own in
    intercept client.interceptors token
      (if has_body then merged else delete_header content_type merged)

-- The client as it is created, with its own base URL and the default headers.
abbrev pub created : String → Client
created base = record {
  base_url = base;
  headers = (content_type, "application/json") ∷ [];
  interceptors = [];
}

-- The two configurations of the customer app: at the load of its module, and after the probe.
unfoldable pub start_customer : Option String → Os → Probe → String → Client
unfolding configure_api_client api_base_url resolve_api_base_url
start_customer override os probe base =
    configure_api_client (configure_api_client (created base) (api_base_url override os))
      (resolve_api_base_url override os probe)

local_is_no_tunnel : includes_text (local_api_url ios) "ngrok" ≡ false
unfolding includes_text
local_is_no_tunnel = refl

tunnel_is_tunnel : includes_text ngrok_tunnel_url "ngrok" ≡ true
unfolding includes_text
tunnel_is_tunnel = refl
