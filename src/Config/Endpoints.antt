-- ===== src/Config/Endpoints.antt =====
-- config/index.ts: lists of endpoints, and the key by which two of them are compared.
use Prim.Native.Char.{code}
use myqrlwallet_backend.Prelude.{
  ℕ, String, Bool, false, not, ◌&&◌, ◌||◌, Option, none, some, List, [], ◌∷◌, map, leb, ◌==◌,
  str_eq, if◌then◌else◌, keep_if,
}
use myqrlwallet_backend.Patterns.{
  is_digit, every, count, strip, starts_with, concat, split, trim, is_one_of,
}
use myqrlwallet_backend.Config.Numbers.{Environment}

-- What the URL parser gives.
pub record Url : Type 0 where
  pub protocol : String
  pub hostname : String
  pub port : String
  pub pathname : String

-- `new URL(input)`, where it does not throw, `isIP` of node:net, and `toLowerCase` of a text.
pub record UrlTools : Type 0 where
  pub parse_url : String → Option Url
  pub is_ip : String → ℕ
  pub to_lower_case : String → String

abbrev pub is_filled : String → Bool
is_filled s = not (str_eq s "")

-- The trimmed pieces between commas that are not empty.
unfoldable pub list_items : String → List String
list_items s = keep_if is_filled (map trim (split b',' s))

unfoldable pub parse_dormant_endpoint_list : Option String → Option String → List String
parse_dormant_endpoint_list (some value) single = list_items value
parse_dormant_endpoint_list none (some value) = list_items value
parse_dormant_endpoint_list none none = []

-- A single URL, if one is set.
abbrev pub single_endpoint : Option String → List String → List String
single_endpoint none fallback = fallback
single_endpoint (some value) fallback = if is_filled value then value ∷ [] else fallback

unfoldable pub parse_endpoint_list : Environment → String → List String → List String
parse_endpoint_list env network fallback =
    let single = single_endpoint (env (concat "RPC_ENDPOINT_" network)) fallback in
    elim (env (concat "RPC_ENDPOINTS_" network)) [
      | none ↦ single
      | some value ↦ elim (list_items value) [ [] ↦ single | e ∷ es ↦ e ∷ es ]
    ]

-- `replace(/\.$/, '')`
unfoldable pub strip_dot : String → String
strip_dot String.[] = String.[]
strip_dot (String.◌∷◌ c s) =
    let rest = strip_dot s in if code c == b'.' && str_eq s "" then "" else String.◌∷◌ c rest

-- `replace(/\/+$/, '')`
unfoldable pub strip_slashes : String → String
strip_slashes String.[] = String.[]
strip_slashes (String.◌∷◌ c s) =
    let rest = strip_slashes s in if code c == b'/' && str_eq rest "" then "" else String.◌∷◌ c rest

-- A text without its last character, if that is the given one.
unfoldable pub drop_last : ℕ → String → Option String
drop_last x String.[] = none
drop_last x (String.◌∷◌ c s) =
    let rest = drop_last x s in
    if str_eq s ""
    then (if code c == x then some "" else none)
    else elim rest [ none ↦ none | some t ↦ some (String.◌∷◌ c t) ]

abbrev pub is_lower_hex : ℕ → Bool
is_lower_hex c = is_digit c || leb b'a' c && leb c b'f'

-- `[0-9a-f]{1,4}\]$`
unfoldable pub is_last_group : String → Bool
is_last_group s = elim (drop_last b']' s) [
  | none ↦ false
  | some t ↦ every is_lower_hex t && leb 1 (count t) && leb (count t) 4
]

unfoldable pub are_groups : List String → Bool
are_groups (a ∷ b ∷ []) = count a == 2 && every is_lower_hex a && is_last_group b
are_groups _ = false

-- `^\[::ffff:7f[0-9a-f]{2}:[0-9a-f]{1,4}\]$`
unfoldable pub is_mapped_loopback : String → Bool
is_mapped_loopback s = elim (strip "[::ffff:7f" s) [
  | none ↦ false
  | some rest ↦ are_groups (split b':' rest)
]

abbrev pub loopback_hostnames : List String
loopback_hostnames = "localhost" ∷ "0.0.0.0" ∷ "[::1]" ∷ "[::]" ∷ []

unfoldable pub is_loopback : UrlTools → String → Bool
is_loopback tools hostname =
    is_one_of hostname loopback_hostnames
    || tools.is_ip hostname == 4 && starts_with "127." hostname
    || is_mapped_loopback hostname

-- The host, the port and the path.
unfoldable pub url_key : UrlTools → Url → String
url_key tools url =
    let hostname = strip_dot url.hostname in
    let host = if is_loopback tools hostname then "loopback" else hostname in
    let default_port = if str_eq url.protocol "https:" then "443" else "80" in
    let port = if is_filled url.port then url.port else default_port in
    concat host (concat ":" (concat port (strip_slashes url.pathname)))

unfoldable pub rpc_endpoint_key : UrlTools → String → String
rpc_endpoint_key tools endpoint =
    let input = trim endpoint in
    elim (tools.parse_url input) [
      | none ↦ tools.to_lower_case input
      | some url ↦
          if str_eq url.protocol "http:" || str_eq url.protocol "https:"
          then url_key tools url
          else tools.to_lower_case input
    ]
