-- ===== src/Server/Messages.antt =====
-- relayServer.ts: the handler of `message`.
use myqrlwallet_backend.Prelude.{
  ℕ, ◌*◌, String, Bool, true, false, not, Option, none, some, List, [], ◌∷◌, ◌++◌, ltb, leb,
  if◌then◌else◌,
}
use myqrlwallet_backend.Value.{Value, Number, is_missing, field_of}
use myqrlwallet_backend.Patterns.{max_safe_integer}
use myqrlwallet_backend.Relay.Types.{ClientType, RelayPayload, RouteResult}
use myqrlwallet_backend.Relay.Route.{route_message, has_direct_delivery}
use myqrlwallet_backend.Server.Limits.{by_message}
use myqrlwallet_backend.Server.Types.{
  ServerConfig, Turn, refused_text, refused_route, routed, Connection, RelayServer, Effect, acks,
  emits, set_manager, world_of,
}
use myqrlwallet_backend.Server.Transport.{release_delivery, arm_direct_delivery}
use myqrlwallet_backend.Server.Sockets.{check_bucket, disconnect_socket}
use myqrlwallet_backend.Server.Joining.{channel_id_of, client_type_of}

abbrev pub max_message_bytes : ℕ
max_message_bytes = 256 * 1024

abbrev pub refuse_text : String → String → RelayServer → RelayServer × List Effect
refuse_text sid message srv = (srv, acks sid (refused_text message) ∷ [])

pub data SeqField : Type 0 where
  seq_field : Option ℕ → SeqField
  bad_seq : SeqField

-- A sequence number, if there is one, is a non-negative safe integer.
unfoldable pub seq_of : Value → SeqField
seq_of Value.undefined = seq_field none
seq_of (Value.num (Number.nat n)) = if leb n max_safe_integer then seq_field (some n) else bad_seq
seq_of _ = bad_seq

-- A slow counterparty is disconnected, unless a delivery to it is in flight.
unfoldable pub drop_slow : Turn → Option String → RelayServer → RelayServer × List Effect
drop_slow t none srv = (srv, [])
drop_slow t (some slow) srv =
    if has_direct_delivery slow srv.manager
    then (srv, [])
    else if t.is_registered slow
    then disconnect_socket t slow srv
    else (srv, [])

-- The delivery to a counterparty that can take it after all: it is armed and the message sent.
unfoldable pub deliver :
    Turn → String → String → RelayPayload → RelayServer → RelayServer × List Effect
deliver t sid target payload srv =
    let armed = arm_direct_delivery t target srv in
    let freed = release_delivery target srv in
    let refused = acks sid (refused_text "Counterparty transport unavailable") in
    if not (t.is_registered target)
    then (freed, refused ∷ [])
    else if armed.1
    then (armed.0, emits target payload ∷ acks sid (routed false) ∷ [])
    else (let x = disconnect_socket t target (release_delivery target armed.0) in
        (x.0, x.1 ++ refused ∷ []))

-- What follows the manager's answer.
unfoldable pub finish_message :
    Turn → String → RelayPayload → RouteResult → RelayServer → RelayServer × List Effect
finish_message t sid payload res srv =
    let x = drop_slow t res.backpressured_socket_id srv in
    elim res.error [
      | some e ↦ (x.0, x.1 ++ acks sid (refused_route e) ∷ [])
      | none ↦ elim res.target_socket_id [
        | some target ↦ (let y = deliver t sid target payload x.0 in (y.0, x.1 ++ y.1))
        | none ↦ (x.0, x.1 ++ acks sid (routed res.buffered) ∷ [])
      ]
    ]

unfoldable pub route :
    ServerConfig
    → Turn
    → String
    → Connection
    → RelayPayload
    → RelayServer
    → RelayServer × List Effect
route cfg t sid c payload srv =
    let x =
      route_message cfg.setup (world_of t srv) payload.id sid payload c.client_ip srv.manager in
    finish_message t sid payload x.1 (set_manager x.0 srv)

abbrev pub is_too_large : ServerConfig → Value → Bool
is_too_large cfg payload = elim (cfg.message_size payload) [
  | none ↦ true
  | some size ↦ ltb max_message_bytes size
]

-- The fields that every message has to carry.
unfoldable pub read_message : Value → Option (String × ClientType)
read_message payload = elim (channel_id_of (field_of "id" payload)) [
  | none ↦ none
  | some channel_id ↦
      if is_missing (field_of "message" payload)
      then none
      else elim (client_type_of (field_of "clientType" payload)) [
        | none ↦ none
        | some ct ↦ some (channel_id, ct)
      ]
]

-- The checks of the payload, in their order.
unfoldable pub check_message :
    ServerConfig → Turn → String → Connection → Value → RelayServer → RelayServer × List Effect
check_message cfg t sid c payload srv = elim (read_message payload) [
  | none ↦ refuse_text sid "Invalid channelId, clientType, or missing message" srv
  | some (channel_id, ct) ↦ elim (seq_of (field_of "seq" payload)) [
    | bad_seq ↦ refuse_text sid "seq must be a non-negative safe integer" srv
    | seq_field seq ↦
        if is_too_large cfg payload
        then refuse_text sid "Message payload too large" srv
        else route cfg t sid c
            (record {
              id = channel_id;
              client_type = ct;
              message = field_of "message" payload;
              seq = seq;
            })
            srv
  ]
]

unfoldable pub on_message :
    ServerConfig → Turn → String → Connection → Value → RelayServer → RelayServer × List Effect
on_message cfg t sid c payload srv =
    let x = check_bucket t c.client_ip by_message srv in
    if x.1 then check_message cfg t sid c payload x.0 else refuse_text sid "Rate limit exceeded" x.0
