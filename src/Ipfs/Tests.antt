-- ===== src/Ipfs/Tests.antt =====
-- The IPFS proxy on small inputs, and each theorem applied to one.
use myqrlwallet_backend.Prelude.{
  ℕ, ◌+◌, ◌≤◌, ◌<◌, ◌≡◌, ◌≢◌, ◌⊎◌, ◌↔◌, refl, String, true, false, none, some, List, [], ◌∷◌, All,
  Any, length, keep_if, arith, Dict.Dict,
}
use myqrlwallet_backend.Prelude.Dict
use myqrlwallet_backend.Patterns.{every, has_double, strip, count, split}
use myqrlwallet_backend.Ipfs.Types.{IpfsConfig, GatewayState, Chunk}
use myqrlwallet_backend.Ipfs.Paths.{
  is_valid_cid, is_safe_path, gateway_path, all_segments, is_segment_char,
}
use myqrlwallet_backend.Ipfs.Paths.Safe.{is_path_char, gateway_path-safe}
use myqrlwallet_backend.Ipfs.Slots.{
  arrives, ends, run_fetches, no_fetches, IsCounted, run_fetches-IsCounted,
}
use myqrlwallet_backend.Ipfs.Cooldown.{is_in_window, punish, should_cool_down_for_server_error}
use myqrlwallet_backend.Ipfs.Cooldown.Distinct.{
  Refusal, punished, Reported, cool_down_needs_failures,
}
use myqrlwallet_backend.Ipfs.Cooldown.Bounds.{longest_cooldown, punished_bounds}
use myqrlwallet_backend.Ipfs.Handler.{GatewayReply, Attempt, FinalTurn, ipfs_handler}
use myqrlwallet_backend.Ipfs.Stream.Passed.{IsBare}
use myqrlwallet_backend.Ipfs.Handler.Served.{ServedBy, ipfs_handler-ServedBy}
use myqrlwallet_backend.Ipfs.Types.{error_json, no_response, send_json}
use myqrlwallet_backend.Ipfs.Cooldown.{cooling_down}
use myqrlwallet_backend.Ipfs.Handler.{retry_seconds}
use myqrlwallet_backend.Ipfs.Handler.Failures.{is_unavailable}
use myqrlwallet_backend.Ipfs.Handler.Unavailable.{
  Skipped, InTime, loop_response, loop_unavailable_iff,
}

abbrev limits : IpfsConfig
limits = record {
  max_size_bytes = 4;
  max_concurrent = 2;
  max_inflight_bytes = 10;
  fallback_reserve_ms = 1000;
  server_error_window_ms = 60000;
  server_error_min_cids = 2;
  max_cooldown_ms = 900000;
  parse_date = λ _. none;
}

abbrev a_cid : String
a_cid = "Qm11111111111111111111111111111111111111111111"

a_cid-valid : is_valid_cid a_cid ≡ true
unfolding is_valid_cid strip every count
a_cid-valid = refl

a_path-safe : is_safe_path "images/1.png" ≡ true
unfolding is_safe_path has_double all_segments split every is_segment_char
a_path-safe = refl

gateway_path-safe_example :
    (every is_path_char (gateway_path a_cid "images/1.png") ≡ true)
    × (has_double b'.' (gateway_path a_cid "images/1.png") ≡ false)
gateway_path-safe_example = gateway_path-safe a_cid "images/1.png" a_cid-valid a_path-safe

run_fetches-IsCounted_example :
    IsCounted limits (run_fetches limits (arrives ∷ arrives ∷ arrives ∷ ends ∷ []) (no_fetches, 0))
run_fetches-IsCounted_example =
    run_fetches-IsCounted limits (arrives ∷ arrives ∷ arrives ∷ ends ∷ [])

abbrev gateway : GatewayState
gateway = record {
  url = "https://gateway.example/ipfs/";
  origin = "https://gateway.example";
  cooldown_until = 0;
  server_error_cids = [];
}

abbrev bad_gateway : String → ℕ → Refusal
bad_gateway cid now = record { cid = cid; status = 502; retry_after = none; now = now }

abbrev one_failure : List Refusal
one_failure = bad_gateway "Qm1" 10 ∷ []

second-cools :
    (punished limits (bad_gateway "Qm2" 20 ∷ one_failure) gateway).cooldown_until
    ≢ (punished limits one_failure gateway).cooldown_until
unfolding punished punish should_cool_down_for_server_error keep_if Dict.put strip
second-cools e = cc e

cool_down_needs_failures_example :
    (failures : Dict ℕ) × Dict.IsDistinct failures
    × (limits.server_error_min_cids ≤ length failures)
    × All (Reported (bad_gateway "Qm2" 20 ∷ one_failure)) failures
    × All (λ x. is_in_window limits 20 x.1 ≡ true) failures
cool_down_needs_failures_example =
    cool_down_needs_failures limits (bad_gateway "Qm2" 20) one_failure gateway (omega arith) refl
      (λ e. ground (arith, e)) second-cools

punished_bounds_example :
    let h = punished limits one_failure gateway in
    (length h.server_error_cids < limits.server_error_min_cids)
    × (h.cooldown_until ≤ 30 + longest_cooldown limits)
    × ((r : Refusal)
        → r.now ≤ 30
        → h.cooldown_until ≤ (punished limits (r ∷ one_failure) gateway).cooldown_until)
punished_bounds_example =
    punished_bounds limits one_failure gateway 30 (omega arith) (ground arith) refl (omega arith)

-- The first gateway limits the rate, the second serves two chunks.
abbrev attempts : List Attempt
attempts =
    record {
      client_disconnected = false;
      out_of_time = false;
      now = 1;
      gateway = gateway;
      reply = GatewayReply.refused 429 (some "2") 1 gateway;
    }
    ∷ record {
      client_disconnected = false;
      out_of_time = false;
      now = 2;
      gateway = gateway;
      reply = GatewayReply.served (record {
        declared_size = none;
        content_type = some "image/png";
        body = some (Chunk.bytes (1 ∷ 2 ∷ []) none ∷ Chunk.bytes (3 ∷ []) none ∷ []);
      });
    }
    ∷ []

abbrev final : FinalTurn
final = record {
  client_disconnected = false;
  out_of_time = false;
  now = 3;
  cooldown_until = 2001;
  other_cooldowns = 0 ∷ [];
}

ipfs_handler-ServedBy_example :
    let res = (ipfs_handler limits a_cid "images/1.png" no_fetches attempts final).0 in
    IsBare res
    ⊎ ((is_valid_cid a_cid ≡ true)
        × (is_safe_path "images/1.png" ≡ true)
        × Any (ServedBy limits res) attempts)
ipfs_handler-ServedBy_example =
    ipfs_handler-ServedBy limits a_cid "images/1.png" no_fetches attempts final

abbrev cooling : List Attempt
cooling =
    record {
      client_disconnected = false;
      out_of_time = false;
      now = 1;
      gateway = record gateway { cooldown_until = 2001 };
      reply = GatewayReply.refused 500 none 1 gateway;
    }
    ∷ []

loop_unavailable_iff_example :
    ((is_unavailable (loop_response limits a_cid final cooling cooling_down) ≡ true)
      ↔ (All Skipped cooling × InTime final))
    × (All Skipped cooling × InTime final
        → loop_response limits a_cid final cooling cooling_down
          ≡ send_json (error_json cooling_down (some (retry_seconds final))) no_response)
loop_unavailable_iff_example = loop_unavailable_iff limits a_cid final cooling
