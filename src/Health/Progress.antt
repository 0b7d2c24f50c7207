-- ===== src/Health/Progress.antt =====
-- healthMonitor.ts: applyPollSuccess and applyFailure.
use myqrlwallet_backend.Prelude.{
  ℕ, suc, ◌-◌, String, Bool, true, false, not, ◌&&◌, ◌||◌, Option, none, some, List, [], ◌∷◌, ◌++◌,
  ltb, leb, str_eq, if◌then◌else◌,
}
use myqrlwallet_backend.Patterns.{is_digit, is_exactly}
use myqrlwallet_backend.Health.Types.{
  EndpointState, up, unknown, stalled, down, is_state, Thrown, EndpointRecord, HealthConfig, Event,
  height_regression, came_up, went_stalled, went_down,
}

-- `/^HTTP \d{3}$/`
abbrev pub is_http_status : String → Bool
is_http_status = is_exactly "HTTP " is_digit 3

unfoldable pub sanitize_health_error : Thrown → String
sanitize_health_error err =
    if err.is_bounded_json
    then err.message
    else if str_eq err.name "AbortError"
    then "upstream request timed out"
    else if is_http_status err.message
    then err.message
    else if str_eq err.message "Unparseable qrl_blockNumber result"
    then err.message
    else if str_eq err.message "RPC chain identity mismatch"
    then err.message
    else "upstream health check failed"

-- Only a strictly larger height is progress.
unfoldable pub is_advance : Option ℕ → ℕ → Bool
is_advance none height = true
is_advance (some last) height = ltb last height

unfoldable pub is_regression : Option ℕ → ℕ → Bool
is_regression none height = false
is_regression (some last) height = ltb height last

unfoldable pub note_height : ℕ → ℕ → EndpointRecord → EndpointRecord
note_height now height ep =
    if is_advance ep.last_height height
    then record ep { last_height = some height; last_height_change_at = now }
    else if is_regression ep.last_height height
    then record ep { last_height = some height }
    else ep

unfoldable pub regression_event : ℕ → EndpointRecord → List Event
regression_event height ep = elim ep.last_height [
  | none ↦ []
  | some last ↦ if ltb height last then height_regression last height ∷ [] else []
]

-- Enough successes in a row to leave the state `down`.
abbrev pub recovers : HealthConfig → EndpointRecord → Bool
recovers cfg ep = is_state ep.state down && leb cfg.up_after_successes ep.consecutive_successes

-- The state after a poll that succeeded, from the record with its counters updated.
unfoldable pub state_after : HealthConfig → ℕ → Bool → EndpointRecord → EndpointState
state_after cfg now advanced ep =
    if advanced
    then (if is_state ep.state unknown || is_state ep.state stalled
        then up
        else if recovers cfg ep
        then up
        else ep.state)
    else if ltb cfg.stall_after_ms (now - ep.last_height_change_at)
    then stalled
    else if is_state ep.state unknown
    then up
    else if recovers cfg ep
    then up
    else ep.state

abbrev pub state_event : ℕ → ℕ → EndpointState → EndpointRecord → List Event
state_event now height previous ep = if is_state ep.state previous then [] else elim ep.state [
  | up ↦ came_up height previous ∷ []
  | stalled ↦ went_stalled height (now - ep.last_height_change_at) ∷ []
  | _ ↦ []
]

abbrev pub count_success : EndpointRecord → EndpointRecord
count_success ep = record ep {
  consecutive_successes = suc ep.consecutive_successes;
  consecutive_failures = 0;
  last_error = none;
}

unfoldable pub apply_poll_success :
    HealthConfig → ℕ → ℕ → EndpointRecord → EndpointRecord × List Event
apply_poll_success cfg now height ep =
    let counted = count_success (note_height now height ep) in
    let moved = record counted {
      state = state_after cfg now (is_advance ep.last_height height) counted;
    } in
    (moved, regression_event height ep ++ state_event now height ep.state moved)

unfoldable pub apply_failure : HealthConfig → Thrown → EndpointRecord → EndpointRecord × List Event
apply_failure cfg error ep =
    let message = sanitize_health_error error in
    let counted : EndpointRecord = record ep {
      verified_identity = none;
      consecutive_failures = suc ep.consecutive_failures;
      consecutive_successes = 0;
      last_error = some message;
    } in
    if leb cfg.down_after_failures counted.consecutive_failures && not (is_state ep.state down)
    then (record counted { state = down }, went_down message ep.state ∷ [])
    else (counted, [])
