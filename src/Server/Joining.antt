-- ===== src/Server/Joining.antt =====
-- relayServer.ts: the handler of `join_channel`, in the turns between its `await`s.
use myqrlwallet_backend.Prelude.{
  ℕ, String, Bool, false, not, ◌&&◌, ◌||◌, Option, none, some, List, [], ◌∷◌, ◌++◌, ltb, leb, ◌==◌,
  str_eq, if◌then◌else◌, is_some, Dict.Dict,
}
use myqrlwallet_backend.Prelude.Dict
use myqrlwallet_backend.Patterns.{is_digit, every, count}
use myqrlwallet_backend.Value.{Value, field_of}
use myqrlwallet_backend.Relay.Types.{ClientType, dapp, wallet, JoinSuccess, success, failure}
use myqrlwallet_backend.Relay.Join.{join, tombstone_reply}
use myqrlwallet_backend.Relay.Lifecycle.{leave, get_active_channel_count}
use myqrlwallet_backend.Server.Limits.{by_join}
use myqrlwallet_backend.Server.Types.{
  ServerConfig, Turn, PendingJoin, PresenceEvent, AckResponse, refused_text, refused_join, joined,
  JoinStage, no_join, entering, leaving, answering, recovering, Connection, RelayServer, Effect,
  acks, presence, enters, exits, set_manager, set_connection, world_of,
}
use myqrlwallet_backend.Server.Sockets.{check_bucket, leave_and_tell}

abbrev pub max_channel_id_length : ℕ
max_channel_id_length = 128

-- `[a-zA-Z0-9_-]`
abbrev pub is_id_char : ℕ → Bool
is_id_char c =
    leb b'a' c && leb c b'z' || leb b'A' c && leb c b'Z' || is_digit c || c == b'_' || c == b'-'

unfoldable pub is_valid_channel_id : String → Bool
is_valid_channel_id s = ltb 0 (count s) && leb (count s) max_channel_id_length && every is_id_char s

-- A valid channel id.
unfoldable pub channel_id_of : Value → Option String
channel_id_of (Value.str s) = if is_valid_channel_id s then some s else none
channel_id_of _ = none

unfoldable pub client_type_of : Value → Option ClientType
client_type_of (Value.str s) =
    if str_eq s "dapp" then some dapp else if str_eq s "wallet" then some wallet else none
client_type_of _ = none

pub data KeyField : Type 0 where
  key_field : Option String → KeyField
  bad_key : KeyField

abbrev pub key_of : Value → KeyField
key_of Value.undefined = key_field none
key_of (Value.str s) = key_field (some s)
key_of _ = bad_key

abbrev pub set_stage : JoinStage → Connection → Connection
set_stage stage c = record c { stage = stage }

abbrev pub is_current : String → Connection → Bool
is_current channel_id c = elim c.current_channel_id [ none ↦ false | some k ↦ str_eq k channel_id ]

-- The handler ends with an answer.
unfoldable pub answer : String → Connection → AckResponse → RelayServer → RelayServer × List Effect
answer sid c r srv = (set_connection sid (set_stage no_join c) srv, acks sid r ∷ [])

-- A join that is not made: the room that the socket has entered for it is left first.
unfoldable pub give_up :
    String → Connection → PendingJoin → AckResponse → RelayServer → RelayServer × List Effect
give_up sid c p r srv =
    if p.joined_room
    then (set_connection sid (set_stage (answering p r) c) srv, exits sid p.channel_id ∷ [])
    else answer sid c r srv

-- The socket's channel is the new one.
unfoldable pub settle :
    String → Connection → PendingJoin → JoinSuccess → RelayServer → RelayServer × List Effect
settle sid c p res srv = (
  set_connection sid (record c { current_channel_id = some p.channel_id; stage = no_join }) srv,
  presence p.channel_id sid PresenceEvent.joined_event p.client_type ∷ acks sid (joined res) ∷ [],
)

-- The manager has seated the socket: it leaves its channel before, if that is another.
unfoldable pub seat_socket :
    Turn → String → Connection → PendingJoin → JoinSuccess → RelayServer → RelayServer × List Effect
seat_socket t sid c p res srv = elim c.current_channel_id [
  | none ↦ settle sid c p res srv
  | some previous ↦
      if str_eq previous p.channel_id
      then settle sid c p res srv
      else (let x = leave_and_tell t sid previous PresenceEvent.left_event srv in
          (set_connection sid (set_stage (leaving p res) c) x.0, x.1 ++ exits sid previous ∷ []))
]

-- From the call of the manager on.
unfoldable pub ask_manager :
    ServerConfig
    → Turn
    → String
    → Connection
    → PendingJoin
    → RelayServer
    → RelayServer × List Effect
ask_manager cfg t sid c p srv =
    let x =
      join cfg.setup (world_of t srv) p.channel_id sid p.client_type p.public_key (some c.client_ip)
        srv.manager in
    let asked = set_manager x.0 srv in
    elim x.1 [
      | failure e ↦ give_up sid c p (refused_join e) asked
      | success res ↦
          if res.terminated
          then give_up sid c p (joined tombstone_reply) asked
          else seat_socket t sid c p res asked
    ]

-- The room is entered first, unless the socket's channel stays.
unfoldable pub enter_room :
    ServerConfig
    → Turn
    → String
    → Connection
    → String
    → ClientType
    → Option String
    → RelayServer
    → RelayServer × List Effect
enter_room cfg t sid c channel_id ct k srv =
    let p : PendingJoin = record {
      channel_id = channel_id;
      client_type = ct;
      public_key = k;
      joined_room = not (is_current channel_id c);
    } in
    if p.joined_room
    then (set_connection sid (set_stage (entering p) c) srv, enters sid channel_id ∷ [])
    else ask_manager cfg t sid c p srv

abbrev pub at_capacity : ServerConfig → String → RelayServer → Bool
at_capacity cfg channel_id srv =
    not (is_some (Dict.get channel_id srv.manager.channels))
    && leb cfg.max_active_channels (get_active_channel_count srv.manager)

-- The checks of the payload, in their order.
unfoldable pub check_join :
    ServerConfig → Turn → String → Connection → Value → RelayServer → RelayServer × List Effect
check_join cfg t sid c payload srv = elim (channel_id_of (field_of "channelId" payload)) [
  | none ↦ answer sid c (refused_text "Invalid channelId") srv
  | some channel_id ↦
      if at_capacity cfg channel_id srv
      then answer sid c (refused_text "Relay channel capacity reached") srv
      else elim (client_type_of (field_of "clientType" payload)) [
        | none ↦ answer sid c (refused_text "clientType must be \"dapp\" or \"wallet\"") srv
        | some ct ↦ elim (key_of (field_of "publicKey" payload)) [
          | bad_key ↦ answer sid c (refused_text "publicKey must be a base64 string") srv
          | key_field k ↦ enter_room cfg t sid c channel_id ct k srv
        ]
      ]
]

unfoldable pub start_join :
    ServerConfig → Turn → String → Connection → Value → RelayServer → RelayServer × List Effect
start_join cfg t sid c payload srv =
    let x = check_bucket t c.client_ip by_join srv in
    if x.1
    then check_join cfg t sid c payload x.0
    else answer sid c (refused_text "Join rate limit exceeded") x.0

-- The event, and what follows each `await`.
unfoldable pub on_join_channel :
    ServerConfig → Turn → String → Connection → Value → RelayServer → RelayServer × List Effect
on_join_channel cfg t sid c payload srv = elim c.stage [
  | no_join ↦ start_join cfg t sid c payload srv
  | _ ↦ (srv, acks sid (refused_text "Another channel join is in progress") ∷ [])
]

unfoldable pub resume_join :
    ServerConfig → Turn → String → Connection → RelayServer → RelayServer × List Effect
resume_join cfg t sid c srv = elim c.stage [
  | no_join ↦ (srv, [])
  | entering p ↦ ask_manager cfg t sid c p srv
  | leaving p res ↦ settle sid c p res srv
  | answering p r ↦ answer sid c r srv
  | recovering r ↦ answer sid c r srv
]

abbrev pub failed_join : AckResponse
failed_join = refused_text "Unable to join channel"

-- The room that was entered is left, with no regard to a further error.
unfoldable pub leave_again :
    String → Connection → PendingJoin → RelayServer → RelayServer × List Effect
leave_again sid c p srv =
    if p.joined_room
    then (
      set_connection sid (set_stage (recovering failed_join) c) srv,
      exits sid p.channel_id ∷ [],
    )
    else answer sid c failed_join srv

-- The catch clause: what follows an `await` that throws.
unfoldable pub fail_join : Turn → String → Connection → RelayServer → RelayServer × List Effect
fail_join t sid c srv = elim c.stage [
  | no_join ↦ (srv, [])
  | entering p ↦ answer sid c failed_join srv
  | leaving p res ↦
      leave_again sid c p (set_manager (leave t.now sid p.channel_id srv.manager).0 srv)
  | answering p r ↦ leave_again sid c p srv
  | recovering r ↦ answer sid c r srv
]
