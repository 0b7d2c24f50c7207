-- ===== src/Ipfs/Handler.antt =====
-- ipfs.routes.ts: the handler tries the gateways in turn.
pub mod Served
pub mod Failures
pub mod Unavailable
use myqrlwallet_backend.Prelude.{
  ℕ, ◌+◌, ◌-◌, ◌*◌, ◌/◌, min, max, String, Bool, true, false, not, ◌&&◌, ◌||◌, Option, none, some,
  List, [], ◌∷◌, ◌++◌, ltb, leb, ◌==◌, if◌then◌else◌,
}
use myqrlwallet_backend.Ipfs.Types.{
  IpfsConfig, GatewayState, GatewayFailure, AttemptError, UpstreamResponse, Closing, error_json,
  Response, no_response, send_json,
}
use myqrlwallet_backend.Ipfs.Paths.{is_valid_cid, is_safe_path}
use myqrlwallet_backend.Ipfs.Slots.{FetchSlots, acquire_fetch_slot}
use myqrlwallet_backend.Ipfs.Cooldown.{
  prefer_failure, cooling_down, timeout_failure, thrown_failure, upstream_failure, is_server_error,
  punish,
}
use myqrlwallet_backend.Ipfs.Stream.{plain_failure, send_stream_error, stream_gateway_response}

-- What a request to a gateway comes to: a status that is not 2xx, with its `Retry-After`, the time
-- and the gateway as it is by then; a response; or an error.
pub data GatewayReply : Type 0 where
  refused : ℕ → Option String → ℕ → GatewayState → GatewayReply
  served : UpstreamResponse → GatewayReply
  unreachable : AttemptError → GatewayReply

-- A turn of the loop: whether the client is gone, whether the time is up, the time, the gateway as
-- the loop finds it, and what a request to it comes to.
pub record Attempt : Type 0 where
  pub client_disconnected : Bool
  pub out_of_time : Bool
  pub now : ℕ
  pub gateway : GatewayState
  pub reply : GatewayReply

-- The loop goes on with a failure, ends with one, or has given the response.
pub data Verdict : Type 0 where
  goes_on breaks : GatewayFailure → Verdict
  returns : Response → Verdict

abbrev pub is_cooling : Attempt → Bool
is_cooling a = ltb a.now a.gateway.cooldown_until

-- The catch clause: an error is passed on once the response has begun.
unfoldable pub catch_error : Bool → Response → AttemptError → GatewayFailure → Verdict
catch_error reading_body res t f =
    let failure = thrown_failure reading_body t in
    if t.client_disconnected
    then returns res
    else if res.headers_sent
    then returns (send_stream_error failure.status failure.error res)
    else goes_on (prefer_failure f failure)

unfoldable pub judge : IpfsConfig → GatewayReply → GatewayFailure → Verdict
judge cfg (refused status retry_after now g) f =
    if status == 429 || is_server_error status
    then goes_on (prefer_failure f (upstream_failure status))
    else breaks (upstream_failure status)
judge cfg (unreachable t) f = catch_error false no_response t f
judge cfg (served up) f =
    let x = stream_gateway_response cfg up no_response in
    elim x.1 [ none ↦ returns x.0 | some t ↦ catch_error true x.0 t f ]

unfoldable pub make_attempt : IpfsConfig → Attempt → GatewayFailure → Verdict
make_attempt cfg a f =
    if a.client_disconnected
    then returns no_response
    else if a.out_of_time
    then breaks timeout_failure
    else if is_cooling a
    then goes_on f
    else judge cfg a.reply f

-- The gateway that a turn changes, in its new state.
unfoldable pub changed : IpfsConfig → String → Attempt → List GatewayState
changed cfg cid a = elim a.reply [
  | refused status retry_after now g ↦
      if a.client_disconnected || a.out_of_time || is_cooling a
      then []
      else punish cfg cid status retry_after now g ∷ []
  | _ ↦ []
]

-- The loop over the gateways, and those that it changes, in their order. It has gone through all
-- of them if it goes on at its end.
unfoldable pub try_gateways :
    IpfsConfig → String → List Attempt → GatewayFailure → Verdict × List GatewayState
try_gateways cfg cid [] f = (goes_on f, [])
try_gateways cfg cid (a ∷ later) f =
    let first = changed cfg cid a in
    elim (make_attempt cfg a f) [
      | goes_on g ↦ (let x = try_gateways cfg cid later g in (x.0, first ++ x.1))
      | breaks g ↦ (breaks g, first)
      | returns res ↦ (returns res, first)
    ]

-- What the end of the handler finds; there is at least one gateway.
pub record FinalTurn : Type 0 where
  pub client_disconnected : Bool
  pub out_of_time : Bool
  pub now : ℕ
  pub cooldown_until : ℕ
  pub other_cooldowns : List ℕ

unfoldable pub earliest : ℕ → List ℕ → ℕ
earliest t [] = t
earliest t (u ∷ us) = min t (earliest u us)

-- `Math.max(1, Math.ceil((retryAt - now) / 1000))`
abbrev pub retry_seconds : FinalTurn → ℕ
retry_seconds e = max 1 ((earliest e.cooldown_until e.other_cooldowns - e.now + 999) / 1000)

unfoldable pub report : FinalTurn → GatewayFailure → Response
report e f =
    let failure = if e.out_of_time then timeout_failure else f in
    let retry = if failure.status == 503 then some (retry_seconds e) else none in
    if e.client_disconnected then no_response else send_json (error_json failure retry) no_response

unfoldable pub conclude : FinalTurn → Verdict → Response
conclude e (goes_on f) = report e f
conclude e (breaks f) = report e f
conclude e (returns res) = res

abbrev pub refuse_request : ℕ → String → Option ℕ → Response
refuse_request status error retry =
    send_json (error_json (plain_failure status error) retry) no_response

-- The response, and the gateways in their new state. The slot is released when the handler ends.
unfoldable pub ipfs_handler :
    IpfsConfig
    → String
    → String
    → FetchSlots
    → List Attempt
    → FinalTurn
    → Response × List GatewayState
ipfs_handler cfg cid rest slots attempts e =
    let x = try_gateways cfg cid attempts cooling_down in
    if not (is_valid_cid cid)
    then (refuse_request 400 "invalid CID" none, [])
    else if not (is_safe_path rest)
    then (refuse_request 400 "invalid path" none, [])
    else elim (acquire_fetch_slot cfg slots) [
      | none ↦ (refuse_request 503 "IPFS proxy busy" (some 1), [])
      | some taken ↦ (conclude e x.0, x.1)
    ]
