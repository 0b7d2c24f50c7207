-- ===== src/Rpc/Call.antt =====
-- rpc.service.ts: one call to an endpoint, from its slot to its result.
pub mod Errors
use myqrlwallet_backend.Prelude.{
  ℕ, String, Bool, true, false, Option, none, some, str_eq, if◌then◌else◌,
}
use myqrlwallet_backend.Patterns.{concat}
use myqrlwallet_backend.Value.{Value}
use myqrlwallet_backend.BoundedJson.{
  BoundedJsonFailure, too_large, empty, non_binary, invalid_json, invalid_utf8, stream_error,
  BodyResponse, Decoding, parsed, unread, read_bounded_json_response,
}
use myqrlwallet_backend.Rpc.Methods.{RpcId}
use myqrlwallet_backend.Rpc.Slots.{
  SlotLimits, Slots, granted, client_busy, busy, acquire_rpc_call_slot, release_rpc_call_slot,
}

pub record HttpError : Type 0 where
  pub status : ℕ
  pub message : String

abbrev pub http : ℕ → String → HttpError
http status message = record { status = status; message = message }

-- What a call comes to: a value, or an error that is thrown.
pub data CallResult : Type 0 where
  returned : Value → CallResult
  threw : HttpError → CallResult

-- The request that is sent to an endpoint.
pub record RpcRequest : Type 0 where
  pub endpoint : String
  pub method : String
  pub params : Value
  pub id : RpcId

-- What `fetch` comes to: an error with its name, if it has one, or a response with its `ok`, its
-- status in decimal and its body.
pub data Fetched : Type 0 where
  fetch_threw : Option String → Fetched
  responded : Bool → String → BodyResponse → Fetched

-- The world of a call: what an endpoint replies to a request, and what other calls do to the slots
-- while this one waits for it.
pub record Exchange : Type 0 where
  pub reply : RpcRequest → Fetched
  pub meanwhile : RpcRequest → Slots → Slots

unfoldable pub body_error : BoundedJsonFailure → HttpError
body_error too_large = http 502 "RPC upstream response too large"
body_error empty = http 502 "RPC upstream returned an empty response body"
body_error non_binary = http 502 "RPC upstream returned a non-binary response chunk"
body_error invalid_json = http 502 "RPC upstream returned invalid JSON"
body_error invalid_utf8 = http 502 "RPC upstream returned an invalid response body"
body_error stream_error = http 502 "RPC upstream returned an invalid response body"

abbrev pub is_abort : Option String → Bool
is_abort none = false
is_abort (some name) = str_eq name "AbortError"

module _ {D : Type 0} (tools : Decoding D) (lim : SlotLimits) where
  unfoldable pub read_bounded_rpc_json : BodyResponse → CallResult
  read_bounded_rpc_json response =
      elim (read_bounded_json_response tools lim.max_response_bytes response).outcome [
        | parsed v ↦ returned v
        | unread failure ↦ threw (body_error failure)
      ]

  unfoldable pub read_reply : Fetched → CallResult
  read_reply (fetch_threw name) =
      threw
        (http 502 (if is_abort name then "RPC upstream timeout" else "RPC upstream unavailable"))
  read_reply (responded true status response) = read_bounded_rpc_json response
  read_reply (responded false status response) =
      threw (http 502 (concat "RPC upstream HTTP " status))

  -- The slots after the call, and its result.
  unfoldable pub make_rpc_call : Option String → Exchange → RpcRequest → Slots → Slots × CallResult
  make_rpc_call client exchange request slots = elim (acquire_rpc_call_slot lim client slots) [
    | client_busy ↦ (slots, threw (http 429 "Too many concurrent RPC requests from this client"))
    | busy ↦ (slots, threw (http 503 "RPC proxy busy"))
    | granted taken ↦ (
      release_rpc_call_slot lim client (exchange.meanwhile request taken),
      read_reply (exchange.reply request),
    )
  ]
