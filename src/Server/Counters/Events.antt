-- ===== src/Server/Counters/Events.antt =====
-- relayServer.ts: messages, control events and transports keep the counters of sockets exact.
use myqrlwallet_backend.Prelude.{
  ℕ, refl, inl, inr, String, not, Option, none, some, if◌then◌else◌, str_eq, if_either,
  Option-cases,
}
use myqrlwallet_backend.Value.{Value, field_of}
use myqrlwallet_backend.Relay.Types.{ClientType, RelayPayload, RouteResult}
use myqrlwallet_backend.Relay.Lifecycle.{leave, close}
use myqrlwallet_backend.Relay.Route.{route_message, has_direct_delivery}
use myqrlwallet_backend.Server.Limits.{by_message, by_control}
use myqrlwallet_backend.Server.Types.{
  ServerConfig, Turn, PresenceEvent, Connection, RelayServer, set_manager, world_of,
}
use myqrlwallet_backend.Server.Transport.{release_delivery, arm_direct_delivery}
use myqrlwallet_backend.Server.Sockets.{check_bucket, leave_and_tell}
use myqrlwallet_backend.Server.Joining.{is_current, is_valid_channel_id}
use myqrlwallet_backend.Server.Messages.{
  drop_slow, deliver, finish_message, route, read_message, seq_of, SeqField, seq_field, bad_seq,
  is_too_large, check_message, on_message, refuse_text,
}
use myqrlwallet_backend.Server.Control.{
  requested_channel, forget_channel, leave_requested, on_leave_channel, close_valid,
  close_requested, on_close_channel,
}
use myqrlwallet_backend.Server.Counters.{set_connection-IsCounted}
use myqrlwallet_backend.Server.Counters.Sockets.{
  HasCounts, Seen, After, disconnect_socket-HasCounts, arm-HasCounts,
}

module _ (cfg : ServerConfig) (cap : ℕ) (t : Turn) where
  drop_slow-After :
      (slow : Option String) (srv : RelayServer)
      → HasCounts cap srv
      → After cap t (drop_slow t slow srv)
  unfolding drop_slow
  drop_slow-After none srv h = h
  drop_slow-After (some slow) srv h =
      if_either (After cap t) (has_direct_delivery slow srv.manager) _ _ (λ _. h)
        (λ _.
          if_either (After cap t) (t.is_registered slow) _ _
            (λ _. disconnect_socket-HasCounts cap t slow srv h) (λ _. h))

  deliver-After :
      (sid target : String) (payload : RelayPayload) (srv : RelayServer)
      → HasCounts cap srv
      → After cap t (deliver t sid target payload srv)
  unfolding deliver release_delivery
  deliver-After sid target payload srv h =
      let armed = arm_direct_delivery t target srv in
      let still = arm-HasCounts cap t target srv h in
      if_either (After cap t) (not (t.is_registered target)) _ _ (λ _. h)
        (λ _.
          if_either (After cap t) armed.1 _ _ (λ _. still)
            (λ _. disconnect_socket-HasCounts cap t target (release_delivery target armed.0) still))

  finish_message-After :
      (sid : String) (payload : RelayPayload) (res : RouteResult) (srv : RelayServer)
      → HasCounts cap srv
      → After cap t (finish_message t sid payload res srv)
  unfolding finish_message
  finish_message-After sid payload res srv h =
      let x = drop_slow t res.backpressured_socket_id srv in
      let slow = drop_slow-After res.backpressured_socket_id srv h in
      elim (Option-cases res.error) [
        | inr (e, q) ↦ rw (q, finish_message) slow
        | inl q ↦ elim (Option-cases res.target_socket_id) [
          | inl n ↦ rw (q, n, finish_message) slow
          | inr (target, n) ↦ rw (q, n, finish_message) (deliver-After sid target payload x.0 slow)
        ]
      ]

  route-After :
      (sid : String) (c : Connection) (payload : RelayPayload) (srv : RelayServer)
      → HasCounts cap srv
      → After cap t (route cfg t sid c payload srv)
  unfolding route
  route-After sid c payload srv h =
      let x =
        route_message cfg.setup (world_of t srv) payload.id sid payload c.client_ip srv.manager in
      finish_message-After sid payload x.1 (set_manager x.0 srv) h

  check_message-After :
      (sid : String) (c : Connection) (payload : Value) (srv : RelayServer)
      → HasCounts cap srv
      → After cap t (check_message cfg t sid c payload srv)
  unfolding check_message
  check_message-After sid c payload srv h = elim (Option-cases (read_message payload)) [
    | inl q ↦ rw (q, check_message) h
    | inr (f, q) ↦ rw (q, check_message) (by_seq f.0 f.1 (seq_of (field_of "seq" payload)))
  ]
    where
      by_seq :
          (channel_id : String) (ct : ClientType) (q : SeqField)
          → After cap t (elim q [
            | bad_seq ↦ refuse_text sid "seq must be a non-negative safe integer" srv
            | seq_field seq ↦
                if is_too_large cfg payload
                then refuse_text sid "Message payload too large" srv
                else route cfg t sid c
                    (record {
                      id = channel_id;
                      client_type = ct;
                      message = field_of "message" payload;
                      seq = seq;
                    })
                    srv
          ])
      by_seq channel_id ct bad_seq = h
      by_seq channel_id ct (seq_field seq) =
          if_either (After cap t) (is_too_large cfg payload) _ _ (λ _. h)
            (λ _. route-After sid c _ srv h)

  pub on_message-After :
      (sid : String) (c : Connection) (payload : Value) (srv : RelayServer)
      → HasCounts cap srv
      → After cap t (on_message cfg t sid c payload srv)
  unfolding on_message check_bucket
  on_message-After sid c payload srv h =
      let x = check_bucket t c.client_ip by_message srv in
      if_either (After cap t) x.1 _ _ (λ _. check_message-After sid c payload x.0 h) (λ _. h)

  forget-HasCounts :
      (sid : String) (c : Connection) (channel_id : String) (srv : RelayServer)
      → Seen sid c srv
      → HasCounts cap srv
      → HasCounts cap (forget_channel sid c channel_id srv)
  unfolding forget_channel
  forget-HasCounts sid c channel_id srv seen h =
      if_either (HasCounts cap) (is_current channel_id c) _ _
        (λ _.
          set_connection-IsCounted cap srv.active_sockets_by_ip srv.connections sid c
            (record c { current_channel_id = none }) seen refl refl h)
        (λ _. h)

  leave_requested-After :
      (sid : String) (c : Connection) (channel : Option String) (srv : RelayServer)
      → Seen sid c srv
      → HasCounts cap srv
      → After cap t (leave_requested t sid c channel srv)
  unfolding leave_requested leave_and_tell
  leave_requested-After sid c none srv seen h = h
  leave_requested-After sid c (some channel_id) srv seen h =
      if_either (After cap t) (str_eq channel_id "") _ _ (λ _. h)
        (λ _.
          forget-HasCounts sid c channel_id
            (leave_and_tell t sid channel_id PresenceEvent.left_event srv).0 seen h)

  pub on_leave_channel-After :
      (sid : String) (c : Connection) (payload : Value) (srv : RelayServer)
      → Seen sid c srv
      → HasCounts cap srv
      → After cap t (on_leave_channel cfg t sid c payload srv)
  unfolding on_leave_channel check_bucket
  on_leave_channel-After sid c payload srv seen h =
      let x = check_bucket t c.client_ip by_control srv in
      if_either (After cap t) x.1 _ _
        (λ _. leave_requested-After sid c (requested_channel payload c) x.0 seen h) (λ _. h)

  close_valid-After :
      (sid : String) (c : Connection) (channel_id : String) (srv : RelayServer)
      → Seen sid c srv
      → HasCounts cap srv
      → After cap t (close_valid t sid c channel_id srv)
  unfolding close_valid
  close_valid-After sid c channel_id srv seen h =
      let x = leave t.now sid channel_id srv.manager in
      let y = close t.now channel_id x.0 in
      elim (Option-cases x.1) [
        | inl q ↦ rw (q, close_valid) h
        | inr (p, q) ↦
            rw (q, close_valid)
              (if_either (After cap t) y.1 _ _
                (λ _. forget-HasCounts sid c channel_id (set_manager y.0 srv) seen h) (λ _. h))
      ]

  pub on_close_channel-After :
      (sid : String) (c : Connection) (payload : Value) (srv : RelayServer)
      → Seen sid c srv
      → HasCounts cap srv
      → After cap t (on_close_channel cfg t sid c payload srv)
  unfolding on_close_channel close_requested check_bucket
  on_close_channel-After sid c payload srv seen h =
      let x = check_bucket t c.client_ip by_control srv in
      if_either (After cap t) x.1 _ _ (λ _. by_channel (requested_channel payload c)) (λ _. h)
    where
      by_channel :
          (o : Option String)
          → After cap t (close_requested t sid c o (check_bucket t c.client_ip by_control srv).0)
      by_channel none = h
      by_channel (some channel_id) =
          if_either (After cap t) (is_valid_channel_id channel_id) _ _
            (λ _.
              close_valid-After sid c channel_id (check_bucket t c.client_ip by_control srv).0 seen
                h)
            (λ _. h)
