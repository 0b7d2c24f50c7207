-- ===== src/Rpc/Execute.antt =====
-- rpc.service.ts: executeRPC, with its cache.
pub mod Answered
pub mod Keys
pub mod Released
pub mod Tests
use myqrlwallet_backend.Prelude.{
  ℕ, String, Bool, true, false, not, ◌&&◌, ◌||◌, Option, none, some, List, [], ◌∷◌, str_eq,
  if◌then◌else◌,
}
use myqrlwallet_backend.Patterns.{concat, is_one_of}
use myqrlwallet_backend.Value.{Value, Fields, is_record, has_field, field_of}
use myqrlwallet_backend.BoundedJson.{Decoding}
use myqrlwallet_backend.Health.Types.{RpcIdentity, EndpointRecord, HealthConfig}
use myqrlwallet_backend.Health.Routing.{ready_endpoints_for_attempt}
use myqrlwallet_backend.Rpc.Methods.{RpcId}
use myqrlwallet_backend.Rpc.Slots.{SlotLimits, Slots}
use myqrlwallet_backend.Rpc.Call.{HttpError, http, RpcRequest, Exchange, make_rpc_call}
use myqrlwallet_backend.Rpc.Failover.{
  Attempted, chosen, not_admitted, all_failed, no_endpoint, EndpointCall, attempt_rpc,
}

unfoldable pub is_network_name : String → Bool
is_network_name value = str_eq value "dev" || str_eq value "testnet" || str_eq value "mainnet"

abbrev pub cacheable_methods : List String
cacheable_methods = "qrl_chainId" ∷ "net_version" ∷ []

-- The cache, which forgets entries with time, and `JSON.stringify`.
pub record CacheTools (C : Type 0) : Type 0 where
  pub get : ℕ → String → C → Option Value
  pub set : ℕ → String → Value → C → C
  pub stringify : Value → String

-- CONFIG.RPC_HEALTH, and for a network its pins and its first configured endpoint.
pub record ServiceConfig : Type 0 where
  pub health : HealthConfig
  pub expected : String → Option RpcIdentity
  pub primary : String → Option String
  pub limits : SlotLimits

-- The arguments of executeRPC.
pub record Execution : Type 0 where
  pub network : String
  pub method : String
  pub params : Value
  pub id : RpcId
  pub client : Option String

-- What a request meets: the time when it starts and when it ends, the records of the network's
-- endpoints, the world of its calls, and what other requests do to the cache meanwhile.
pub record Circumstances (C : Type 0) : Type 0 where
  pub now : ℕ
  pub later : ℕ
  pub endpoints : List EndpointRecord
  pub exchange : Exchange
  pub aside : C → C

pub record Service (C : Type 0) : Type 0 where
  pub slots : Slots
  pub cache : C

-- The answer: from the cache, from an endpoint, or an error. `unattempted` is the error of a loop
-- that tried nothing.
pub data Answer : Type 0 where
  from_cache : Value → Answer
  from_endpoint : String → Value → Answer
  raised : HttpError → Answer
  unattempted : Answer

abbrev pub id_value : RpcId → Value
id_value (RpcId.text_id s) = Value.str s
id_value (RpcId.number_id n) = Value.num n
id_value RpcId.null_id = Value.null

-- `{ jsonrpc: '2.0', id, result }`
abbrev pub cached_response : RpcId → Value → Value
cached_response id result = Value.obj (
    Fields.field "jsonrpc" (Value.str "2.0")
      (Fields.field "id" (id_value id) (Fields.field "result" result Fields.no_fields)))

abbrev pub identity_key : Option RpcIdentity → String → String
identity_key none rest = rest
identity_key (some p) rest =
    concat p.chain_id (concat "-" (concat p.genesis_hash (concat "-" rest)))

-- `${network}-${identityKey}${method}-${JSON.stringify(params)}`
unfoldable pub cache_key : String → Option RpcIdentity → String → String → String
cache_key network identity method params =
    concat network (concat "-" (identity_key identity (concat method (concat "-" params))))

abbrev pub is_nothing : Value → Bool
is_nothing Value.undefined = true
is_nothing _ = false

-- `result.error === undefined && 'result' in result`
abbrev pub is_result : Value → Bool
is_result v = is_record v && is_nothing (field_of "error" v) && has_field "result" v

abbrev pub settle_attempt : Attempted → Answer
settle_attempt (chosen url v) = from_endpoint url v
settle_attempt (not_admitted e) = raised e
settle_attempt (all_failed (some e)) = raised e
settle_attempt (all_failed none) = unattempted
settle_attempt no_endpoint = raised (http 503 "Primary RPC endpoint is not ready")

module _ {C D : Type 0} (cache : CacheTools C) (tools : Decoding D) (cfg : ServiceConfig) where
  abbrev pub request_key : Execution → String
  request_key e = cache_key e.network (cfg.expected e.network) e.method (cache.stringify e.params)

  abbrev pub call_of : Execution → Exchange → EndpointCall
  call_of e exchange url =
      make_rpc_call tools cfg.limits e.client exchange
        (record { endpoint = url; method = e.method; params = e.params; id = e.id })

  unfoldable pub remember : ℕ → Execution → Answer → C → C
  remember now e (from_endpoint url v) c =
      if is_one_of e.method cacheable_methods && is_result v
      then cache.set now (request_key e) (field_of "result" v) c
      else c
  remember now e _ c = c

  -- The endpoints are asked.
  unfoldable pub fetch_rpc :
      Execution → Circumstances C → List String → Service C → Service C × Answer
  fetch_rpc e w ready st =
      let (slots, tried) =
        attempt_rpc (call_of e w.exchange) e.method (cfg.primary e.network) ready st.slots in
      let answer = settle_attempt tried in
      (record { slots = slots; cache = remember w.later e answer (w.aside st.cache) }, answer)

  abbrev pub find_cached : ℕ → Execution → C → Option Value
  find_cached now e c =
      if is_one_of e.method cacheable_methods then cache.get now (request_key e) c else none

  unfoldable pub answer_ready :
      Execution → Circumstances C → List String → Service C → Service C × Answer
  answer_ready e w [] st = (st, raised (http 503 "No ready RPC endpoint for this network"))
  answer_ready e w (url ∷ urls) st = elim (find_cached w.now e st.cache) [
    | some v ↦
        let missed = fetch_rpc e w (url ∷ urls) st in
        if is_nothing v then missed else (st, from_cache (cached_response e.id v))
    | none ↦ fetch_rpc e w (url ∷ urls) st
  ]

  unfoldable pub execute_rpc : Execution → Circumstances C → Service C → Service C × Answer
  execute_rpc e w st =
      if is_network_name e.network
      then answer_ready e w
          (ready_endpoints_for_attempt cfg.health (cfg.expected e.network) w.now w.endpoints) st
      else (st, raised (http 404 "Unknown network"))
