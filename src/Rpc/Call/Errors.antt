-- ===== src/Rpc/Call/Errors.antt =====
-- rpc.service.ts: the errors of a call to an endpoint.
use myqrlwallet_backend.Prelude.{◌≡◌, ◌⊎◌, refl, inl, inr, String, true, false, Option}
use myqrlwallet_backend.BoundedJson.{
  ReadOutcome, Decoding, BodyResponse, parsed, unread, read_bounded_json_response, too_large, empty,
  non_binary, invalid_json, invalid_utf8, stream_error,
}
use myqrlwallet_backend.Rpc.Slots.{
  SlotLimits, Slots, granted, client_busy, busy, release_rpc_call_slot, acquire_rpc_call_slot,
  Acquired,
}
use myqrlwallet_backend.Rpc.Call.{
  HttpError, CallResult, returned, threw, Fetched, fetch_threw, responded, body_error,
  read_bounded_rpc_json, read_reply, RpcRequest, Exchange, make_rpc_call, http,
}

-- The errors of a call.
abbrev pub IsCallError : HttpError → Type 0
IsCallError e = (e.status ≡ 429) ⊎ ((e.status ≡ 503) ⊎ (e.status ≡ 502))

abbrev pub ThrowsWell : CallResult → Type 0
ThrowsWell (returned v) = Unit
ThrowsWell (threw e) = IsCallError e

module _ {D : Type 0} (tools : Decoding D) (lim : SlotLimits) where
  read_bounded_rpc_json-ThrowsWell :
      (r : BodyResponse) → ThrowsWell (read_bounded_rpc_json tools lim r)
  unfolding read_bounded_rpc_json body_error
  read_bounded_rpc_json-ThrowsWell r =
      by_outcome (read_bounded_json_response tools lim.max_response_bytes r).outcome
    where
      by_outcome :
          (o : ReadOutcome)
          → ThrowsWell (elim o as (λ _. CallResult) [
            | parsed v ↦ returned v
            | unread f ↦ threw (body_error f)
          ])
      by_outcome (parsed v) = tt
      by_outcome (unread too_large) = inr (inr refl)
      by_outcome (unread empty) = inr (inr refl)
      by_outcome (unread non_binary) = inr (inr refl)
      by_outcome (unread invalid_json) = inr (inr refl)
      by_outcome (unread invalid_utf8) = inr (inr refl)
      by_outcome (unread stream_error) = inr (inr refl)

  read_reply-ThrowsWell : (f : Fetched) → ThrowsWell (read_reply tools lim f)
  unfolding read_reply
  read_reply-ThrowsWell (fetch_threw name) = inr (inr refl)
  read_reply-ThrowsWell (responded true status r) = read_bounded_rpc_json-ThrowsWell r
  read_reply-ThrowsWell (responded false status r) = inr (inr refl)

  pub make_rpc_call-ThrowsWell :
      (client : Option String) (x : Exchange) (q : RpcRequest) (slots : Slots)
      → ThrowsWell (make_rpc_call tools lim client x q slots).1
  unfolding make_rpc_call
  make_rpc_call-ThrowsWell client x q slots = by_slot (acquire_rpc_call_slot lim client slots)
    where
      by_slot :
          (a : Acquired)
          → ThrowsWell
              (elim a as (λ _. Slots × CallResult) [
                | client_busy ↦
                    (slots, threw (http 429 "Too many concurrent RPC requests from this client"))
                | busy ↦ (slots, threw (http 503 "RPC proxy busy"))
                | granted taken ↦ (
                  release_rpc_call_slot lim client (x.meanwhile q taken),
                  read_reply tools lim (x.reply q),
                )
              ]).1
      by_slot client_busy = inl refl
      by_slot busy = inr (inl refl)
      by_slot (granted taken) = read_reply-ThrowsWell (x.reply q)
