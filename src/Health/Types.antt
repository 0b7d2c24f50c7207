-- ===== src/Health/Types.antt =====
-- The data of healthMonitor.ts: endpoints, their states, the replies to a poll.
use myqrlwallet_backend.Prelude.{ℕ, String, Bool, Option, none}

pub data EndpointState : Type 0 where
  up unknown stalled down : EndpointState

-- Places in the order of preference.
abbrev pub state_order : EndpointState → ℕ
state_order up = 0
state_order unknown = 1
state_order stalled = 2
state_order down = 3

abbrev pub is_state : EndpointState → EndpointState → Bool
is_state up up = Bool.true
is_state unknown unknown = Bool.true
is_state stalled stalled = Bool.true
is_state down down = Bool.true
is_state _ _ = Bool.false

pub record RpcIdentity : Type 0 where
  pub chain_id : String
  pub genesis_hash : String

-- A caught error: whether it is a BoundedJsonError, its name and its message.
pub record Thrown : Type 0 where
  pub is_bounded_json : Bool
  pub name : String
  pub message : String

-- `last_error` is the message of the sanitised error.
pub record EndpointRecord : Type 0 where
  pub url : String
  pub state : EndpointState
  pub consecutive_failures : ℕ
  pub consecutive_successes : ℕ
  pub last_height : Option ℕ
  pub last_height_change_at : ℕ
  pub last_latency_ms : Option ℕ
  pub last_error : Option String
  pub last_poll_at : Option ℕ
  pub last_verified_poll_at : Option ℕ
  pub head_timestamp : Option ℕ
  pub syncing : Option Bool
  pub verified_identity : Option RpcIdentity

-- CONFIG.RPC_HEALTH, and the identity that the configuration pins for each network.
pub record HealthConfig : Type 0 where
  pub poll_interval_ms : ℕ
  pub poll_timeout_ms : ℕ
  pub down_after_failures : ℕ
  pub up_after_successes : ℕ
  pub stall_after_ms : ℕ
  pub max_head_age_ms : ℕ
  pub max_head_future_ms : ℕ
  pub max_lag_blocks : ℕ

-- What the monitor notifies its operators of.
pub data Event : Type 0 where
  height_regression : ℕ → ℕ → Event
  came_up : ℕ → EndpointState → Event
  went_stalled : ℕ → ℕ → Event
  went_down : String → EndpointState → Event

abbrev pub make_endpoint_record : ℕ → String → EndpointRecord
make_endpoint_record now url = record {
  url = url;
  state = unknown;
  consecutive_failures = 0;
  consecutive_successes = 0;
  last_height = none;
  last_height_change_at = now;
  last_latency_ms = none;
  last_error = none;
  last_poll_at = none;
  last_verified_poll_at = none;
  head_timestamp = none;
  syncing = none;
  verified_identity = none;
}
