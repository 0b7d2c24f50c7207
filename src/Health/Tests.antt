-- ===== src/Health/Tests.antt =====
-- Polls of an endpoint on small inputs, and each theorem applied to one.
use myqrlwallet_backend.Prelude.{
  ℕ, suc, ◌≡◌, ◌⊎◌, ◌↔◌, refl, true, false, none, [], ◌∷◌, ◌++◌, arith,
}
use myqrlwallet_backend.Value.{Value, Number, no_fields, field}
use myqrlwallet_backend.Health.Types.{
  EndpointRecord, HealthConfig, Thrown, down, make_endpoint_record,
}
use myqrlwallet_backend.Health.Poll.{
  Poll, Reply, threw, body, throw, check_replies, poll_one, read_height,
}
use myqrlwallet_backend.Health.Routing.{ready_endpoints_for_attempt}
use myqrlwallet_backend.Health.Ready.{lists, IsReady, offered_iff}
use myqrlwallet_backend.Health.Verified.Outcomes.{Verified, Failed, poll_one_outcome}
use myqrlwallet_backend.Health.Runs.{run_polls, IsCoherent, run_polls-IsCoherent, run_polls_down}

abbrev pub cfg : HealthConfig
cfg = record {
  poll_interval_ms = 10000;
  poll_timeout_ms = 5000;
  down_after_failures = 2;
  up_after_successes = 1;
  stall_after_ms = 300000;
  max_head_age_ms = 300000;
  max_head_future_ms = 60000;
  max_lag_blocks = 8;
}

abbrev timeout : Thrown
timeout = record { is_bounded_json = false; name = "AbortError"; message = "aborted" }

abbrev lost : ℕ → Poll
lost t = record {
  started = t;
  now = suc t;
  block_number = threw timeout;
  chain_id = threw timeout;
  genesis = threw timeout;
  syncing = threw timeout;
  block_at = λ _. threw timeout;
}

abbrev the_answer : Value → Value → Reply
the_answer id result = body (
    Value.obj (field "jsonrpc" (Value.str "2.0") (field "id" id (field "result" result no_fields))))

abbrev head : Value
head = Value.obj (field "number" (Value.str "0x1f") (field "timestamp" (Value.str "0xa") no_fields))

abbrev seen : ℕ → Poll
seen t = record {
  started = t;
  now = suc t;
  block_number = the_answer (Value.num (Number.nat t)) (Value.str "0x1f");
  chain_id = threw timeout;
  genesis = threw timeout;
  syncing = the_answer (Value.str "qrl_syncing") (Value.bool false);
  block_at = λ _. the_answer (Value.str "qrl_getBlockByNumber") head;
}

unfoldable new : EndpointRecord
new = make_endpoint_record 0 "https://node"

poll_one_outcome_example :
    let ep = (poll_one cfg none (seen 5) new).0 in Verified none (seen 5) new ep ⊎ Failed new ep
poll_one_outcome_example = poll_one_outcome cfg none (seen 5) new

offered_iff_example :
    let eps = (poll_one cfg none (seen 5) new).0 ∷ [] in
    (lists "https://node" (ready_endpoints_for_attempt cfg none 9 eps) ≡ true)
    ↔ ((ep : EndpointRecord) × IsReady cfg none 9 eps ep × (ep.url ≡ "https://node"))
offered_iff_example =
    offered_iff cfg none 9 ((poll_one cfg none (seen 5) new).0 ∷ []) "https://node"

run_polls-IsCoherent_example :
    IsCoherent cfg
      (run_polls cfg none (lost 1 ∷ seen 2 ∷ lost 3 ∷ []) (make_endpoint_record 0 "https://node"))
run_polls-IsCoherent_example =
    run_polls-IsCoherent cfg none (lost 1 ∷ seen 2 ∷ lost 3 ∷ []) 0 "https://node" (omega arith)

lost-Fails : (t : ℕ) → check_replies none (lost t) ≡ throw timeout
unfolding check_replies read_height
lost-Fails t = refl

run_polls_down_example :
    (run_polls cfg none
      ((seen 2 ∷ []) ++ lost 3 ∷ lost 4 ∷ [])
      (make_endpoint_record 0 "https://node")).state
    ≡ down
run_polls_down_example =
    run_polls_down cfg none (seen 2 ∷ []) (lost 3 ∷ lost 4 ∷ []) 0 "https://node" (omega arith)
      ((timeout, lost-Fails 3), ((timeout, lost-Fails 4), tt)) (omega arith)
