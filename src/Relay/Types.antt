-- ===== src/Relay/Types.antt =====
-- The data of src/relay/channelManager.ts: channels, participants, buffered messages, reservations.
use myqrlwallet_backend.Prelude.{ℕ, ◌*◌, String, Bool, true, false, Option, List, update, Dict.Dict}
use myqrlwallet_backend.Value.{Value}

abbrev pub channel_ttl_ms : ℕ
channel_ttl_ms = 30 * 60 * 1000

abbrev pub max_participants : ℕ
max_participants = 2

abbrev pub max_buffered_messages : ℕ
max_buffered_messages = 50

abbrev pub buffer_ttl_ms : ℕ
buffer_ttl_ms = 5 * 60 * 1000

abbrev pub tombstone_ttl_ms : ℕ
tombstone_ttl_ms = 24 * 60 * 60 * 1000

abbrev pub max_tombstones : ℕ
max_tombstones = 20000

abbrev pub max_public_key_bytes : ℕ
max_public_key_bytes = 2048

pub data ClientType : Type 0 where
  dapp wallet : ClientType

abbrev pub same_type : ClientType → ClientType → Bool
same_type dapp dapp = true
same_type wallet wallet = true
same_type _ _ = false

abbrev pub other_type : ClientType → ClientType
other_type dapp = wallet
other_type wallet = dapp

pub record Participant : Type 0 where
  pub client_type : ClientType
  pub joined_at : ℕ

pub record RelayPayload : Type 0 where
  pub id : String
  pub client_type : ClientType
  pub message : Value
  pub seq : Option ℕ

pub record BufferedMessage : Type 0 where
  pub payload : RelayPayload
  pub target_client_type : ClientType
  pub timestamp : ℕ
  pub size_bytes : ℕ
  pub source_ip : String

pub record Channel : Type 0 where
  pub participants : Dict Participant
  pub last_activity : ℕ
  pub message_buffer : List BufferedMessage
  pub buffered_bytes : ℕ
  pub direct_inflight_bytes : ℕ
  pub seq_numbers : Dict ℕ
  pub public_key : Option String
  pub terminated : Bool
  pub terminated_at : ℕ
  pub creator_ip : Option String

-- `channel` is a reference: it may outlive the channel's entry in the manager's map.
pub record DirectDeliveryReservation : Type 0 where
  pub channel : ℕ
  pub source_ip : String
  pub size_bytes : ℕ

-- `heap` holds the channel objects by reference, `next_ref` the references given out so far.
pub record ChannelManager : Type 0 where
  pub heap : ℕ → Channel
  pub next_ref : ℕ
  pub channels : Dict ℕ
  pub terminated_order : List String
  pub total_buffered_bytes : ℕ
  pub total_direct_inflight_bytes : ℕ
  pub direct_deliveries : Dict DirectDeliveryReservation
  pub buffered_bytes_by_ip : Dict ℕ

-- The configured limits, and the library calls: base64, and the size of a payload's JSON text in
-- bytes (`none` where `JSON.stringify` gives no text).
pub record Setup : Type 0 where
  pub max_channels_per_ip : Option ℕ
  pub max_bytes_per_channel : ℕ
  pub max_bytes_per_ip : ℕ
  pub max_bytes_global : ℕ
  pub decode_base64 : String → List ℕ
  pub encode_base64 : List ℕ → String
  pub serialized_size : RelayPayload → Option ℕ

-- What a call finds outside: the clock, and the state of the sockets.
pub record World : Type 0 where
  pub now : ℕ
  pub is_socket_active : String → Bool
  pub can_socket_receive : String → Bool

pub data JoinError : Type 0 where
  key_not_base64 key_empty key_too_large too_many_channels key_required : JoinError
  type_changed channel_full key_mismatch : JoinError
  already_connected : ClientType → JoinError

pub record JoinSuccess : Type 0 where
  pub buffered_messages : List RelayPayload
  pub channel_public_key : Option String
  pub participants : List ClientType
  pub terminated : Bool

pub data JoinResult : Type 0 where
  success : JoinSuccess → JoinResult
  failure : JoinError → JoinResult

pub data RouteError : Type 0 where
  channel_not_found channel_terminated sender_not_in_channel type_mismatch : RouteError
  replay_rejected not_serializable : RouteError
  channel_capacity ip_capacity global_capacity : RouteError

pub record RouteResult : Type 0 where
  pub target_socket_id : Option String
  pub backpressured_socket_id : Option String
  pub buffered : Bool
  pub error : Option RouteError

-- The object at a reference, changed.
abbrev pub modify : ℕ → (Channel → Channel) → ChannelManager → ChannelManager
modify r f m = record m { heap = update r (f (m.heap r)) m.heap }
