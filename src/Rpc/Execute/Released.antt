-- ===== src/Rpc/Execute/Released.antt =====
-- rpc.service.ts: every call of executeRPC gives its slot back.
use myqrlwallet_backend.Prelude.{
  ◌≡◌, refl, String, Option, none, some, List, [], ◌∷◌, if◌then◌else◌, if_either,
}
use myqrlwallet_backend.Value.{Value}
use myqrlwallet_backend.BoundedJson.{Decoding}
use myqrlwallet_backend.Health.Routing.{ready_endpoints_for_attempt}
use myqrlwallet_backend.Rpc.Slots.{
  SlotLimits, Slots, Acquired, granted, client_busy, busy, acquire_rpc_call_slot,
  release_rpc_call_slot, step_call, take_nth,
}
use myqrlwallet_backend.Rpc.Slots.Exact.{IsExact, start-IsExact, end-IsExact}
use myqrlwallet_backend.Rpc.Call.{
  HttpError, http, CallResult, returned, threw, RpcRequest, Exchange, read_reply, make_rpc_call,
}
use myqrlwallet_backend.Rpc.Failover.{
  Attempted, chosen, not_admitted, EndpointCall, attempt, attempt_any, attempt_order, attempt_rpc,
  is_admission,
}
use myqrlwallet_backend.Rpc.Execute.{
  CacheTools, ServiceConfig, Execution, Circumstances, Service, Answer, from_cache, cached_response,
  is_nothing, call_of, fetch_rpc, find_cached, answer_ready, execute_rpc, is_network_name,
}

abbrev pub OpenCalls : Type 0
OpenCalls = List (Option String)

-- The counters are those of some open calls that came from others by a relation.
abbrev pub ExactAfter : (OpenCalls → OpenCalls → Type 0) → SlotLimits → OpenCalls → Slots → Type 0
ExactAfter R lim calls st =
    (next : OpenCalls) × R calls next × IsExact lim (record { slots = st; calls = next })

-- While a call waits, other calls start and end by the relation, and this one stays open.
abbrev pub IsMindful :
    (OpenCalls → OpenCalls → Type 0) → SlotLimits → Option String → Exchange → Type 0
IsMindful R lim client x =
    (q : RpcRequest) (st : Slots) (calls : OpenCalls)
    → IsExact lim (record { slots = st; calls = client ∷ calls })
    → (next : OpenCalls) × R calls next
      × IsExact lim (record { slots = x.meanwhile q st; calls = client ∷ next })

granted-IsExact :
    (lim : SlotLimits) (client : Option String) (st taken : Slots) (calls : OpenCalls)
    → acquire_rpc_call_slot lim client st ≡ granted taken
    → IsExact lim (record { slots = st; calls = calls })
    → IsExact lim (record { slots = taken; calls = client ∷ calls })
unfolding step_call
granted-IsExact lim client st taken calls e h =
    rw (e, step_call) at (start-IsExact lim client (record { slots = st; calls = calls }) h)

released-IsExact :
    (lim : SlotLimits) (client : Option String) (st : Slots) (calls : OpenCalls)
    → IsExact lim (record { slots = st; calls = client ∷ calls })
    → IsExact lim (record { slots = release_rpc_call_slot lim client st; calls = calls })
unfolding step_call take_nth
released-IsExact lim client st calls h =
    end-IsExact lim 0 (record { slots = st; calls = client ∷ calls }) h

module _ (R : OpenCalls → OpenCalls → Type 0) (same : (a : OpenCalls) → R a a)
    (chain : (a b c : OpenCalls) → R a b → R b c → R a c) where
  module _ {D : Type 0} (tools : Decoding D) (lim : SlotLimits) (client : Option String)
      (x : Exchange) (mindful : IsMindful R lim client x) where
    make_rpc_call-ExactAfter :
        (q : RpcRequest) (st : Slots) (calls : OpenCalls)
        → IsExact lim (record { slots = st; calls = calls })
        → ExactAfter R lim calls (make_rpc_call tools lim client x q st).0
    unfolding make_rpc_call
    make_rpc_call-ExactAfter q st calls h = by_slot (acquire_rpc_call_slot lim client st) refl
      where
        by_slot :
            (a : Acquired)
            → acquire_rpc_call_slot lim client st ≡ a
            → ExactAfter R lim calls
                (elim a as (λ _. Slots × CallResult) [
                  | client_busy ↦
                      (st, threw (http 429 "Too many concurrent RPC requests from this client"))
                  | busy ↦ (st, threw (http 503 "RPC proxy busy"))
                  | granted taken ↦ (
                    release_rpc_call_slot lim client (x.meanwhile q taken),
                    read_reply tools lim (x.reply q),
                  )
                ]).0
        by_slot client_busy e = (calls, same calls, h)
        by_slot busy e = (calls, same calls, h)
        by_slot (granted taken) e =
            let (next, r, exact) =
              mindful q taken calls (granted-IsExact lim client st taken calls e h) in
            (next, r, released-IsExact lim client (x.meanwhile q taken) next exact)

  module _ (lim : SlotLimits) (call : EndpointCall)
      (exact : (url : String) (st : Slots) (calls : OpenCalls)
        → IsExact lim (record { slots = st; calls = calls })
        → ExactAfter R lim calls (call url st).0) where
    attempt-ExactAfter :
        (urls : List String) (last : Option HttpError) (st : Slots) (calls : OpenCalls)
        → IsExact lim (record { slots = st; calls = calls })
        → ExactAfter R lim calls (attempt call urls last st).0
    unfolding attempt
    attempt-ExactAfter [] last st calls h = (calls, same calls, h)
    attempt-ExactAfter (url ∷ urls) last st calls h =
        let (next, r, after) = exact url st calls h in
        by_result next r after (λ e. attempt-ExactAfter urls (some e) (call url st).0 next after)
          (call url st).1
      where
        by_result :
            (next : OpenCalls)
            → R calls next
            → IsExact lim (record { slots = (call url st).0; calls = next })
            → ((e : HttpError)
                → ExactAfter R lim next (attempt call urls (some e) (call url st).0).0)
            → (r : CallResult)
            → ExactAfter R lim calls
                (elim r as (λ _. Slots × Attempted) [
                  | returned v ↦ ((call url st).0, chosen url v)
                  | threw e ↦
                      let rest = attempt call urls (some e) (call url st).0 in
                      if is_admission e.status then ((call url st).0, not_admitted e) else rest
                ]).0
        by_result next r after later (returned v) = (next, r, after)
        by_result next r after later (threw e) =
            if_either (λ (y : Slots × Attempted). ExactAfter R lim calls y.0)
              (is_admission e.status) _ _ (λ _. (next, r, after))
              (λ _. let (last, r', exact') = later e in (last, chain calls next last r r', exact'))

    attempt_rpc-ExactAfter :
        (method : String) (primary : Option String) (ready : List String) (st : Slots)
        (calls : OpenCalls)
        → IsExact lim (record { slots = st; calls = calls })
        → ExactAfter R lim calls (attempt_rpc call method primary ready st).0
    unfolding attempt_rpc
    attempt_rpc-ExactAfter method primary ready st calls h =
        by_order (attempt_order method primary ready)
      where
        by_order : (urls : List String) → ExactAfter R lim calls (attempt_any call urls st).0
        by_order [] = (calls, same calls, h)
        by_order (url ∷ urls) = attempt-ExactAfter (url ∷ urls) none st calls h

  module _ {C D : Type 0} (cache : CacheTools C) (tools : Decoding D) (cfg : ServiceConfig)
      (e : Execution) (w : Circumstances C)
      (mindful : IsMindful R cfg.limits e.client w.exchange) where
    abbrev Kept : OpenCalls → Service C × Answer → Type 0
    Kept calls r = ExactAfter R cfg.limits calls r.0.slots

    fetch_rpc-Kept :
        (ready : List String) (st : Service C) (calls : OpenCalls)
        → IsExact cfg.limits (record { slots = st.slots; calls = calls })
        → Kept calls (fetch_rpc cache tools cfg e w ready st)
    unfolding fetch_rpc
    fetch_rpc-Kept ready st calls h =
        attempt_rpc-ExactAfter cfg.limits (call_of cache tools cfg e w.exchange)
          (λ url slots.
            make_rpc_call-ExactAfter tools cfg.limits e.client w.exchange mindful _ slots)
          e.method (cfg.primary e.network) ready st.slots calls h

    answer_ready-Kept :
        (ready : List String) (st : Service C) (calls : OpenCalls)
        → IsExact cfg.limits (record { slots = st.slots; calls = calls })
        → Kept calls (answer_ready cache tools cfg e w ready st)
    unfolding answer_ready
    answer_ready-Kept [] st calls h = (calls, same calls, h)
    answer_ready-Kept (url ∷ urls) st calls h =
        by_found (find_cached cache tools cfg w.now e st.cache)
      where
        by_found :
            (r : Option Value)
            → Kept calls (elim r as (λ _. Service C × Answer) [
              | some v ↦
                  let missed = fetch_rpc cache tools cfg e w (url ∷ urls) st in
                  if is_nothing v then missed else (st, from_cache (cached_response e.id v))
              | none ↦ fetch_rpc cache tools cfg e w (url ∷ urls) st
            ])
        by_found none = fetch_rpc-Kept (url ∷ urls) st calls h
        by_found (some v) =
            if_either (Kept calls) (is_nothing v) _ _ (λ _. fetch_rpc-Kept (url ∷ urls) st calls h)
              (λ _. (calls, same calls, h))

    -- If the slot counters are those of the open calls when a request comes, and other calls change
    -- them by a reflexive and transitive relation on the open calls while one of this request waits,
    -- then the counters are again those of open calls related to the first: whatever the outcome,
    -- each slot that the request took has been given back.
    pub execute_rpc-ExactAfter :
        (st : Service C) (calls : OpenCalls)
        → IsExact cfg.limits (record { slots = st.slots; calls = calls })
        → ExactAfter R cfg.limits calls (execute_rpc cache tools cfg e w st).0.slots
    unfolding execute_rpc
    execute_rpc-ExactAfter st calls h =
        if_either (Kept calls) (is_network_name e.network) _ _
          (λ _.
            answer_ready-Kept
              (ready_endpoints_for_attempt cfg.health (cfg.expected e.network) w.now w.endpoints) st
              calls h)
          (λ _. (calls, same calls, h))
