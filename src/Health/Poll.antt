-- ===== src/Health/Poll.antt =====
-- healthMonitor.ts: pollOne, from the replies of the endpoint to the endpoint's new record.
use myqrlwallet_backend.Prelude.{
  ℕ, ◌-◌, ◌*◌, String, Bool, true, false, not, ◌&&◌, Option, none, some, List, ltb, leb, ◌==◌,
  if◌then◌else◌, is_some,
}
use myqrlwallet_backend.Value.{Value, is_record, has_field, field_of, is_text, is_number}
use myqrlwallet_backend.Patterns.{
  strip, is_exactly, is_hex, is_hex_number, is_positive_hex, read_hex, lower_eq, count, concat,
  max_safe_integer,
}
use myqrlwallet_backend.Health.Types.{RpcIdentity, Thrown, EndpointRecord, HealthConfig, Event}
use myqrlwallet_backend.Health.Progress.{apply_poll_success, apply_failure}

-- What a request comes to: an error of the transport or of the bounded reader, a status that is not
-- ok (in decimal), or the parsed body.
pub data Reply : Type 0 where
  threw : Thrown → Reply
  not_ok : String → Reply
  body : Value → Reply

-- A poll's replies; `started` is also its id, and `now` is read after the replies.
pub record Poll : Type 0 where
  pub started : ℕ
  pub now : ℕ
  pub block_number : Reply
  pub chain_id : Reply
  pub genesis : Reply
  pub syncing : Reply
  pub block_at : ℕ → Reply

pub data Result (A : Type 0) : Type 0 where
  ok : A → Result A
  throw : Thrown → Result A

abbrev pub bind : {A B : Type 0} → Result A → (A → Result B) → Result B
bind (ok a) f = f a
bind (throw e) f = throw e

abbrev pub error : String → Thrown
error message = record { is_bounded_json = false; name = "Error"; message = message }

abbrev pub safe_integer : ℕ → Option ℕ
safe_integer n = if leb n max_safe_integer then some n else none

unfoldable pub parse_hex_height : Value → Option ℕ
parse_hex_height (Value.str s) = elim (strip "0x" s) [
  | none ↦ none
  | some rest ↦ if is_hex_number rest then safe_integer (read_hex 0 rest) else none
]
parse_hex_height _ = none

abbrev pub is_envelope : Value → Bool
is_envelope v = is_record v && is_text "2.0" (field_of "jsonrpc" v) && not (has_field "error" v)

abbrev pub some_height : Option ℕ → Result ℕ
some_height none = throw (error "Unparseable qrl_blockNumber result")
some_height (some height) = ok height

unfoldable pub read_height : ℕ → Reply → Result ℕ
read_height poll_id (threw e) = throw e
read_height poll_id (not_ok status) = throw (error (concat "HTTP " status))
read_height poll_id (body v) = some_height (
    parse_hex_height (
      if is_envelope v && is_number poll_id (field_of "id" v)
      then field_of "result" v
      else Value.undefined))

unfoldable pub query : String → Reply → Result Value
query method (threw e) = throw e
query method (not_ok status) = throw (error (concat "HTTP " status))
query method (body v) =
    if is_envelope v && is_text method (field_of "id" v) && has_field "result" v
    then ok (field_of "result" v)
    else throw (error "Invalid readiness response")

-- `/^0x[1-9a-fA-F][0-9a-fA-F]{0,63}$/`
unfoldable pub is_chain_id : String → Bool
is_chain_id s = elim (strip "0x" s) [
  | none ↦ false
  | some rest ↦ is_positive_hex rest && leb (count rest) 64
]

unfoldable pub has_chain_id : RpcIdentity → Value → Bool
has_chain_id identity (Value.str s) = is_chain_id s && lower_eq s identity.chain_id
has_chain_id identity _ = false

unfoldable pub has_hash : RpcIdentity → Value → Bool
has_hash identity (Value.str s) = is_exactly "0x" is_hex 64 s && lower_eq s identity.genesis_hash
has_hash identity _ = false

unfoldable pub is_genesis : RpcIdentity → Value → Bool
is_genesis identity v =
    is_record v && is_text "0x0" (field_of "number" v) && has_hash identity (field_of "hash" v)

abbrev pub require : Bool → String → Result Unit
require true message = ok tt
require false message = throw (error message)

unfoldable pub check_identity : Option RpcIdentity → Poll → Result Unit
check_identity none p = ok tt
check_identity (some identity) p = bind (query "qrl_chainId" p.chain_id) λ v.
    bind (require (has_chain_id identity v) "RPC chain identity mismatch") λ _.
      bind (query "qrl_getBlockByNumber" p.genesis)
        λ g. require (is_genesis identity g) "RPC chain identity mismatch"

abbrev pub is_false : Value → Bool
is_false (Value.bool b) = not b
is_false _ = false

abbrev pub is_height : Value → Bool
is_height v = is_some (parse_hex_height v)

unfoldable pub read_syncing : Value → Result Bool
read_syncing v =
    if is_false v
    then ok false
    else if is_record v
        && is_height (field_of "startingBlock" v)
        && is_height (field_of "currentBlock" v)
        && is_height (field_of "highestBlock" v)
    then ok true
    else throw (error "Invalid synchronization response")

abbrev pub is_height_of : ℕ → Value → Bool
is_height_of height v = elim (parse_hex_height v) [ none ↦ false | some n ↦ n == height ]

-- `Number.MAX_SAFE_INTEGER / 1000` is no integer: a timestamp above it is above its whole part.
abbrev pub max_timestamp : ℕ
max_timestamp = 9007199254740

unfoldable pub read_timestamp : ℕ → Value → Result ℕ
read_timestamp height v = elim (parse_hex_height (field_of "timestamp" v)) [
  | none ↦ throw (error "Invalid head timestamp response")
  | some t ↦
      if is_record v && is_height_of height (field_of "number" v) && not (ltb max_timestamp t)
      then ok t
      else throw (error "Invalid head timestamp response")
]

-- What a poll that succeeds has found.
pub record Evidence : Type 0 where
  pub height : ℕ
  pub is_syncing : Bool
  pub timestamp : ℕ

unfoldable pub check_replies : Option RpcIdentity → Poll → Result Evidence
check_replies identity p = bind (read_height p.started p.block_number) λ height.
    bind (check_identity identity p) λ _. bind (query "qrl_syncing" p.syncing) λ s.
      bind (read_syncing s) λ syncing. bind (query "qrl_getBlockByNumber" (p.block_at height)) λ b.
        bind (read_timestamp height b)
          λ t. ok (record { height = height; is_syncing = syncing; timestamp = t })

abbrev pub note_poll : Poll → EndpointRecord → EndpointRecord
note_poll p ep = record ep { last_poll_at = some p.now; last_latency_ms = some (p.now - p.started) }

abbrev pub note_evidence : Option RpcIdentity → Poll → Evidence → EndpointRecord → EndpointRecord
note_evidence identity p found ep = record ep {
  syncing = some found.is_syncing;
  head_timestamp = some (found.timestamp * 1000);
  last_verified_poll_at = some p.now;
  verified_identity = identity;
}

unfoldable pub poll_one :
    HealthConfig → Option RpcIdentity → Poll → EndpointRecord → EndpointRecord × List Event
poll_one cfg identity p ep = elim (check_replies identity p) [
  | ok found ↦
      apply_poll_success cfg p.now found.height (note_evidence identity p found (note_poll p ep))
  | throw e ↦ apply_failure cfg e (note_poll p ep)
]
