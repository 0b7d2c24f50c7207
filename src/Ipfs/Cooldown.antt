-- ===== src/Ipfs/Cooldown.antt =====
-- ipfs.routes.ts: when a gateway is left alone for a while, and which failure is reported.
pub mod Distinct
pub mod Bounds
use Prim.Native.Char.{code}
use myqrlwallet_backend.Prelude.{
  ℕ, ◌+◌, ◌-◌, ◌*◌, min, max, String, Bool, true, false, not, ◌&&◌, ◌||◌, Option, none, some, ltb,
  leb, ◌==◌, str_eq, if◌then◌else◌, keep_if, length, List, [], Dict.Dict,
}
use myqrlwallet_backend.Prelude.Dict
use myqrlwallet_backend.Patterns.{is_digit, every, trim, read_decimal}
use myqrlwallet_backend.Ipfs.Types.{IpfsConfig, GatewayState, GatewayFailure, AttemptError}
use myqrlwallet_backend.Ipfs.Paths.{cid_key}

abbrev pub default_cooldown_ms : ℕ
default_cooldown_ms = 60000

abbrev pub server_error_cooldown_ms : ℕ
server_error_cooldown_ms = 30000

abbrev pub is_gateway_error : ℕ → Bool
is_gateway_error status = status == 502 || status == 503 || status == 504

-- `now - failedAt >= window`, the other way round.
abbrev pub is_in_window : IpfsConfig → ℕ → ℕ → Bool
is_in_window cfg now failed_at = not (leb (failed_at + cfg.server_error_window_ms) now)

abbrev pub recent_failures : IpfsConfig → ℕ → Dict ℕ → Dict ℕ
recent_failures cfg now failures = keep_if (λ e. is_in_window cfg now e.1) failures

-- The failed CIDs of the window, with the one that fails now.
abbrev pub noted_failures : IpfsConfig → String → ℕ → Dict ℕ → Dict ℕ
noted_failures cfg cid now failures = Dict.put (cid_key cid) now (recent_failures cfg now failures)

abbrev pub set_failures : Dict ℕ → GatewayState → GatewayState
set_failures failures g = record g { server_error_cids = failures }

unfoldable pub should_cool_down_for_server_error :
    IpfsConfig → String → ℕ → ℕ → GatewayState → GatewayState × Bool
should_cool_down_for_server_error cfg cid status now g =
    let counted = noted_failures cfg cid now g.server_error_cids in
    if not (is_gateway_error status)
    then (g, false)
    else if ltb (length counted) cfg.server_error_min_cids
    then (set_failures counted g, false)
    else (set_failures [] g, true)

-- `^[0-9]+$`
abbrev pub is_decimal : String → Bool
is_decimal s = not (str_eq s "") && every is_digit s

abbrev pub is_letter : ℕ → Bool
is_letter c = leb b'A' c && leb c b'Z' || leb b'a' c && leb c b'z'

-- `^[A-Za-z]{3}, `
unfoldable pub is_dated : String → Bool
is_dated (String.◌∷◌ a (String.◌∷◌ b (String.◌∷◌ c (String.◌∷◌ d (String.◌∷◌ e s))))) =
    is_letter (code a)
    && is_letter (code b)
    && is_letter (code c)
    && code d == b','
    && code e == b' '
is_dated _ = false

-- The value of a `Retry-After` header, in milliseconds from now.
unfoldable pub retry_after_ms : IpfsConfig → Option String → ℕ → ℕ
retry_after_ms cfg none now = default_cooldown_ms
retry_after_ms cfg (some value) now =
    let input = trim value in
    let retry_at = if is_dated input then cfg.parse_date input else none in
    if is_decimal input
    then min (read_decimal 0 input * 1000) cfg.max_cooldown_ms
    else elim retry_at [ none ↦ default_cooldown_ms | some at ↦ min (at - now) cfg.max_cooldown_ms ]

abbrev pub is_upstream_error : GatewayFailure → Bool
is_upstream_error f = elim f.upstream_status [ none ↦ false | some s ↦ leb 500 s ]

abbrev pub is_rate_limited : GatewayFailure → Bool
is_rate_limited f = elim f.upstream_status [ none ↦ false | some s ↦ s == 429 ]

unfoldable pub failure_priority : GatewayFailure → ℕ
failure_priority f =
    if f.status == 504
    then 4
    else if is_upstream_error f
    then 3
    else if f.status == 503
    then 0
    else if is_rate_limited f
    then 1
    else 2

unfoldable pub prefer_failure : GatewayFailure → GatewayFailure → GatewayFailure
prefer_failure current next =
    if ltb (failure_priority current) (failure_priority next) then next else current

abbrev pub cooling_down : GatewayFailure
cooling_down = record { status = 503; error = "IPFS gateways cooling down"; upstream_status = none }

abbrev pub timeout_failure : GatewayFailure
timeout_failure = record { status = 504; error = "gateway timeout"; upstream_status = none }

-- The failure of an attempt that has thrown; `reading_body` if a response had come.
abbrev pub thrown_failure : Bool → AttemptError → GatewayFailure
thrown_failure reading_body t = if t.timed_out then timeout_failure else record {
  status = 502;
  error = if reading_body then "gateway stream error" else "gateway unreachable";
  upstream_status = none;
}

abbrev pub upstream_failure : ℕ → GatewayFailure
upstream_failure status = record {
  status = if status == 404 then 404 else 502;
  error = "gateway error";
  upstream_status = some status;
}

abbrev pub is_server_error : ℕ → Bool
is_server_error status = leb 500 status && ltb status 600

abbrev pub cool_until : ℕ → GatewayState → GatewayState
cool_until t g = record g { cooldown_until = max g.cooldown_until t }

-- What a response that is not 2xx does to its gateway.
unfoldable pub punish : IpfsConfig → String → ℕ → Option String → ℕ → GatewayState → GatewayState
punish cfg cid status retry_after now g =
    let x = should_cool_down_for_server_error cfg cid status now g in
    if status == 429
    then cool_until (now + retry_after_ms cfg retry_after now) g
    else if not (is_server_error status)
    then g
    else if x.1
    then cool_until (now + server_error_cooldown_ms) x.0
    else x.0
