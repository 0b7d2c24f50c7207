-- ===== src/Server/Control.antt =====
-- relayServer.ts: the handlers of `leave_channel`, `close_channel` and `ping`.
use myqrlwallet_backend.Prelude.{
  String, Option, none, some, List, [], ◌∷◌, ◌++◌, str_eq, if◌then◌else◌,
}
use myqrlwallet_backend.Value.{Value, field_of}
use myqrlwallet_backend.Relay.Lifecycle.{leave, close}
use myqrlwallet_backend.Server.Limits.{by_control}
use myqrlwallet_backend.Server.Types.{
  ServerConfig, Turn, PresenceEvent, left_channel, not_closed, closed_channel, pong, Connection,
  RelayServer, Effect, acks, presence, exits, set_manager, set_connection,
}
use myqrlwallet_backend.Server.Sockets.{check_bucket, leave_and_tell}
use myqrlwallet_backend.Server.Joining.{is_valid_channel_id, is_current}
use myqrlwallet_backend.Server.Messages.{refuse_text}

-- The channel that is asked for, or else the socket's own.
unfoldable pub requested_channel : Value → Connection → Option String
requested_channel payload c = elim (field_of "channelId" payload) [
  | Value.str s ↦ if str_eq s "" then c.current_channel_id else some s
  | _ ↦ c.current_channel_id
]

-- The socket is no longer in the channel, if that was its own.
unfoldable pub forget_channel : String → Connection → String → RelayServer → RelayServer
forget_channel sid c channel_id srv =
    if is_current channel_id c
    then set_connection sid (record c { current_channel_id = none }) srv
    else srv

unfoldable pub leave_requested :
    Turn → String → Connection → Option String → RelayServer → RelayServer × List Effect
leave_requested t sid c none srv = (srv, acks sid left_channel ∷ [])
leave_requested t sid c (some channel_id) srv =
    if str_eq channel_id ""
    then (srv, acks sid left_channel ∷ [])
    else (let x = leave_and_tell t sid channel_id PresenceEvent.left_event srv in
        (
          forget_channel sid c channel_id x.0,
          exits sid channel_id ∷ x.1 ++ acks sid left_channel ∷ [],
        ))

unfoldable pub on_leave_channel :
    ServerConfig → Turn → String → Connection → Value → RelayServer → RelayServer × List Effect
on_leave_channel cfg t sid c payload srv =
    let x = check_bucket t c.client_ip by_control srv in
    if x.1
    then leave_requested t sid c (requested_channel payload c) x.0
    else refuse_text sid "Control rate limit exceeded" x.0

-- Only a participant closes a channel: it leaves, and the channel is closed.
unfoldable pub close_valid :
    Turn → String → Connection → String → RelayServer → RelayServer × List Effect
close_valid t sid c channel_id srv =
    let x = leave t.now sid channel_id srv.manager in
    elim x.1 [
      | none ↦ (set_manager x.0 srv, acks sid not_closed ∷ [])
      | some p ↦
          let y = close t.now channel_id x.0 in
          let closed = set_manager y.0 srv in
          if y.1
          then (
            forget_channel sid c channel_id closed,
            exits sid channel_id
                ∷ presence channel_id sid PresenceEvent.closed_event p.client_type
                ∷ acks sid closed_channel
                ∷ [],
          )
          else (closed, acks sid not_closed ∷ [])
    ]

unfoldable pub close_requested :
    Turn → String → Connection → Option String → RelayServer → RelayServer × List Effect
close_requested t sid c none srv = (srv, acks sid not_closed ∷ [])
close_requested t sid c (some channel_id) srv =
    if is_valid_channel_id channel_id
    then close_valid t sid c channel_id srv
    else (srv, acks sid not_closed ∷ [])

unfoldable pub on_close_channel :
    ServerConfig → Turn → String → Connection → Value → RelayServer → RelayServer × List Effect
on_close_channel cfg t sid c payload srv =
    let x = check_bucket t c.client_ip by_control srv in
    if x.1
    then close_requested t sid c (requested_channel payload c) x.0
    else refuse_text sid "Control rate limit exceeded" x.0

unfoldable pub on_ping : Turn → String → Connection → RelayServer → RelayServer × List Effect
on_ping t sid c srv =
    let x = check_bucket t c.client_ip by_control srv in
    if x.1
    then (x.0, acks sid (pong t.now) ∷ [])
    else refuse_text sid "Control rate limit exceeded" x.0
