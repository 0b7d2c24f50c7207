-- ===== src/Rpc/Execute/Tests.antt =====
-- Requests answered from the cache and from an endpoint, and each theorem applied to one.
use myqrlwallet_backend.Prelude.{
  ◌≡◌, refl, sym, ◌∙◌, inl, inr, String, true, false, none, some, [], ◌∷◌, str_eq, Bool-cases,
  keep_if, eq_iff,
}
use myqrlwallet_backend.Prelude.Dict
use myqrlwallet_backend.Patterns.{concat, strip, every, read_decimal, char_at}
use myqrlwallet_backend.Value.{Value, Number}
use myqrlwallet_backend.Health.Types.{EndpointRecord, up, make_endpoint_record}
use myqrlwallet_backend.Health.Tests.{cfg}
use myqrlwallet_backend.Health.Routing.{
  ready_endpoints_for_attempt, ready_records, is_candidate, has_fresh_head, matches_identity,
  highest, has_url, order_endpoints_for_attempt, rank, insert,
}
use myqrlwallet_backend.BoundedJson.Tests.{digits, number_response}
use myqrlwallet_backend.BoundedJson.{
  read_bounded_json_response, read_body, end_body, parse_body, declared_body_is_oversize,
}
use myqrlwallet_backend.Rpc.Methods.{RpcId}
use myqrlwallet_backend.Rpc.Slots.{acquire_rpc_call_slot, idle}
use myqrlwallet_backend.Rpc.Call.{responded, make_rpc_call, read_reply, read_bounded_rpc_json}
use myqrlwallet_backend.Rpc.Failover.{attempt_rpc, attempt, attempt_order, is_primary_only_method}
use myqrlwallet_backend.Rpc.Execute.{
  CacheTools, ServiceConfig, Execution, Circumstances, Service, cache_key, from_cache,
  from_endpoint, cached_response, execute_rpc, answer_ready, fetch_rpc, is_network_name,
}
use myqrlwallet_backend.Rpc.Slots.{run_calls}
use myqrlwallet_backend.Rpc.Slots.Exact.{IsExact, run_calls-IsExact}
use myqrlwallet_backend.Rpc.Execute.Released.{ExactAfter, execute_rpc-ExactAfter}
use myqrlwallet_backend.Rpc.Execute.Answered.{
  Answered, Holds, OldOrFresh, Remembers, execute_rpc-Answered,
}

-- A cache that forgets nothing.
abbrev keeper : CacheTools (Dict.Dict Value)
keeper = record {
  get = λ _ k c. Dict.get k c;
  set = λ _ k v c. Dict.put k v c;
  stringify = λ _. "[]";
}

abbrev service_config : ServiceConfig
service_config = record {
  health = cfg;
  expected = λ _. none;
  primary = λ _. some "https://node";
  limits = record {
    max_response_bytes = 100;
    max_concurrent = 4;
    max_concurrent_per_client = 2;
    max_inflight_bytes = 1000;
  };
}

keeper-Remembers : Remembers keeper digits service_config
keeper-Remembers t u k j v w c found =
    let all = sym (Dict.get-put j k v c) ∙ found in
    elim (Bool-cases (str_eq j k)) [
      | inl same ↦
          let value : some v ≡ some w = rw same at all in inl (sym ((eq_iff j k).0 same), cc)
      | inr other ↦ inr (rw other at all)
    ]

abbrev node : EndpointRecord
node = record (make_endpoint_record 0 "https://node") {
  state = up;
  last_height = some 31;
  last_verified_poll_at = some 5;
  head_timestamp = some 4;
  syncing = some false;
}

abbrev circumstances : Circumstances (Dict.Dict Value)
circumstances = record {
  now = 9;
  later = 12;
  endpoints = node ∷ [];
  exchange = record { reply = λ _. responded true "200" number_response; meanwhile = λ _ s. s };
  aside = λ c. c;
}

abbrev chain_request : Execution
chain_request = record {
  network = "dev";
  method = "qrl_chainId";
  params = Value.null;
  id = RpcId.text_id "a";
  client = some "1.1.1.1";
}

abbrev filled : Service (Dict.Dict Value)
filled = record { slots = idle.slots; cache = ("dev-qrl_chainId-[]", Value.str "0x1") ∷ [] }

abbrev OneValue : String → Value → Type 0
OneValue k v = v ≡ Value.str "0x1"

answered-cached :
    (execute_rpc keeper digits service_config chain_request circumstances filled).1
    ≡ from_cache (cached_response (RpcId.text_id "a") (Value.str "0x1"))
unfolding keep_if execute_rpc answer_ready is_network_name cache_key concat Dict.get
    ready_endpoints_for_attempt ready_records is_candidate has_fresh_head matches_identity highest
    has_url order_endpoints_for_attempt rank insert
answered-cached = refl

answered-fetched :
    (execute_rpc keeper digits service_config
      (record chain_request { method = "net_version" })
      circumstances
      filled).1
    ≡ from_endpoint "https://node" (Value.num (Number.nat 420))
unfolding keep_if execute_rpc answer_ready fetch_rpc is_network_name cache_key concat Dict.get
    ready_endpoints_for_attempt ready_records is_candidate has_fresh_head matches_identity highest
    has_url order_endpoints_for_attempt rank insert attempt_rpc attempt attempt_order
    is_primary_only_method strip make_rpc_call acquire_rpc_call_slot read_reply
    read_bounded_rpc_json read_bounded_json_response declared_body_is_oversize every read_decimal
    read_body end_body parse_body char_at
answered-fetched = refl

filled-Holds : Holds keeper digits service_config OneValue filled.cache
unfolding Dict.get
filled-Holds t k v found = elim (Bool-cases (str_eq "dev-qrl_chainId-[]" k)) [
  | inl same ↦ let value : some (Value.str "0x1") ≡ some v = rw (same, Dict.get) at found in cc
  | inr other ↦ let wrong : none ≡ some v = rw (other, Dict.get) at found in cc
]

execute_rpc-Answered_example :
    let (after, answer) =
      execute_rpc keeper digits service_config chain_request circumstances filled in
    Answered keeper digits service_config OneValue chain_request circumstances answer
    × Holds keeper digits service_config
        (OldOrFresh keeper digits service_config OneValue chain_request answer)
        after.cache
execute_rpc-Answered_example =
    execute_rpc-Answered keeper digits service_config OneValue chain_request circumstances filled
      keeper-Remembers filled-Holds (λ c h. h)

idle-IsExact : IsExact service_config.limits idle
unfolding run_calls
idle-IsExact = run_calls-IsExact service_config.limits []

-- No other call comes in between, so the open calls are the same as before.
execute_rpc-ExactAfter_example :
    ExactAfter
      (λ a b. a ≡ b)
      service_config.limits
      []
      (execute_rpc keeper digits service_config chain_request circumstances filled).0.slots
execute_rpc-ExactAfter_example =
    execute_rpc-ExactAfter (λ a b. a ≡ b) (λ a. refl) (λ a b c p q. p ∙ q) keeper digits
      service_config chain_request circumstances (λ q st calls h. (calls, refl, h)) filled []
      idle-IsExact
