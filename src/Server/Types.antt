-- ===== src/Server/Types.antt =====
-- relayServer.ts: the server's state, what a turn finds outside, and what it emits.
use myqrlwallet_backend.Prelude.{
  ℕ, suc, ◌-◌, String, Bool, not, ◌&&◌, Option, List, leb, if◌then◌else◌, get_or_else, Dict.Dict,
}
use myqrlwallet_backend.Prelude.Dict
use myqrlwallet_backend.Value.{Value}
use myqrlwallet_backend.Relay.Types.{
  ClientType, RelayPayload, ChannelManager, Setup, World, JoinError, JoinSuccess, RouteError,
}
use myqrlwallet_backend.Relay.Lifecycle.{new_manager}
use myqrlwallet_backend.Server.Limits.{RateLimitEntry}

-- The limits of the server; `message_size` is the size of a payload's JSON text in bytes.
pub record ServerConfig : Type 0 where
  pub setup : Setup
  pub max_sockets_per_ip : ℕ
  pub max_active_sockets : ℕ
  pub max_active_channels : ℕ
  pub message_size : Value → Option ℕ

-- What Socket.IO and Engine.IO know during a turn.
pub record Turn : Type 0 where
  pub now : ℕ
  pub clients_count : ℕ
  pub is_registered : String → Bool
  pub is_connected : String → Bool
  pub is_open : String → Bool
  pub is_writable : String → Bool

-- Which event of a transport a socket's delivery waits for.
pub data Armed : Type 0 where
  on_drain on_ready : Armed

pub record PendingJoin : Type 0 where
  pub channel_id : String
  pub client_type : ClientType
  pub public_key : Option String
  pub joined_room : Bool

pub data PresenceEvent : Type 0 where
  joined_event left_event closed_event disconnected_event : PresenceEvent

pub data AckResponse : Type 0 where
  refused_text : String → AckResponse
  refused_join : JoinError → AckResponse
  refused_route : RouteError → AckResponse
  joined : JoinSuccess → AckResponse
  routed : Bool → AckResponse
  left_channel not_closed closed_channel : AckResponse
  pong : ℕ → AckResponse

-- Where the handler of `join_channel` waits: for the room of the new channel, for the room of the
-- old one, for the room of a join that was not made, or for a room after an error.
pub data JoinStage : Type 0 where
  no_join : JoinStage
  entering : PendingJoin → JoinStage
  leaving : PendingJoin → JoinSuccess → JoinStage
  answering : PendingJoin → AckResponse → JoinStage
  recovering : AckResponse → JoinStage

-- The variables of a socket's handlers. `released` is set when the socket has disconnected.
pub record Connection : Type 0 where
  pub client_ip : String
  pub current_channel_id : Option String
  pub released : Bool
  pub stage : JoinStage

pub record RelayServer : Type 0 where
  pub manager : ChannelManager
  pub rate_limits : Dict RateLimitEntry
  pub active_sockets_by_ip : Dict ℕ
  pub engine_sessions_by_ip : Dict ℕ
  pub direct_transport_listeners : Dict Armed
  pub connections : Dict Connection

-- What goes out: an answer to the client, if it asked for one; a presence event to the others of a
-- room; a message; a disconnect; and the room that a socket enters or leaves.
pub data Effect : Type 0 where
  acks : String → AckResponse → Effect
  presence : String → String → PresenceEvent → ClientType → Effect
  emits : String → RelayPayload → Effect
  drops : String → Effect
  enters exits : String → String → Effect

-- What the channel manager finds: `isSocketActive` and `canSocketReceive`.
unfoldable pub world_of : Turn → RelayServer → World
world_of t srv = record {
  now = t.now;
  is_socket_active = t.is_registered;
  can_socket_receive = λ sid.
      t.is_connected sid
      && t.is_open sid
      && t.is_writable sid
      && not (Dict.has sid srv.direct_transport_listeners);
}

abbrev pub set_manager : ChannelManager → RelayServer → RelayServer
set_manager m srv = record srv { manager = m }

abbrev pub set_connection : String → Connection → RelayServer → RelayServer
set_connection sid c srv = record srv { connections = Dict.put sid c srv.connections }

-- `(counts.get(ip) ?? 0)`
abbrev pub count_for : String → Dict ℕ → ℕ
count_for ip counts = get_or_else (Dict.get ip counts) 0

abbrev pub count_up : String → Dict ℕ → Dict ℕ
count_up ip counts = Dict.put ip (suc (count_for ip counts)) counts

-- One less, and no entry where none is left.
unfoldable pub count_down : String → Dict ℕ → Dict ℕ
count_down ip counts =
    if leb (count_for ip counts) 1
    then Dict.delete ip counts
    else Dict.put ip (count_for ip counts - 1) counts

unfoldable pub new_server : RelayServer
new_server = record {
  manager = new_manager;
  rate_limits = List.[];
  active_sockets_by_ip = List.[];
  engine_sessions_by_ip = List.[];
  direct_transport_listeners = List.[];
  connections = List.[];
}
