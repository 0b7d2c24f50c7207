-- ===== src/Server/Counters/Serving.antt =====
-- relayServer.ts: whatever the server handles, the counters of sockets stay exact.
use myqrlwallet_backend.Prelude.{
  ℕ, refl, inl, inr, String, Bool, not, List, [], ◌∷◌, leb, arith, if_either, sum_by, Option-cases,
  Dict.Dict,
}
use myqrlwallet_backend.Prelude.Dict
use myqrlwallet_backend.Server.Limits.{by_control, by_handshake}
use myqrlwallet_backend.Server.Types.{
  ServerConfig, Turn, Connection, RelayServer, count_for, new_server,
}
use myqrlwallet_backend.Server.Sockets.{
  check_bucket, admit_engine_request, engine_opened, engine_closed,
}
use myqrlwallet_backend.Server.Control.{on_ping}
use myqrlwallet_backend.Server.Run.{SocketEvent, ServerEvent, handle_socket, handle, serve}
use myqrlwallet_backend.Server.Counters.{IsCounted}
use myqrlwallet_backend.Server.Counters.Sockets.{
  HasCounts, Seen, After, disconnect_socket-HasCounts, on_connection-HasCounts,
}
use myqrlwallet_backend.Server.Counters.Failures.{fail_join-After}
use myqrlwallet_backend.Server.Counters.Joins.{on_join_channel-After, resume_join-After}
use myqrlwallet_backend.Server.Counters.Events.{
  on_message-After, on_leave_channel-After, on_close_channel-After,
}
use myqrlwallet_backend.Server.Counters.Drains.{
  on_transport_ready-After, on_transport_drain-HasCounts,
}

module _ (cfg : ServerConfig) (t : Turn) where
  abbrev cap : ℕ
  cap = cfg.max_sockets_per_ip

  handle_socket-After :
      (sid : String) (c : Connection) (e : SocketEvent) (srv : RelayServer)
      → Seen sid c srv
      → HasCounts cap srv
      → After cap t (handle_socket cfg t sid c e srv)
  unfolding handle_socket on_ping check_bucket
  handle_socket-After sid c SocketEvent.resumed srv seen h =
      resume_join-After cfg cap t sid c srv seen h
  handle_socket-After sid c SocketEvent.rejected srv seen h =
      fail_join-After cfg cap t sid c srv seen h
  handle_socket-After sid c (SocketEvent.join_channel v) srv seen h =
      if_either (After cap t) c.released _ _ (λ _. h)
        (λ _. on_join_channel-After cfg cap t sid c v srv seen h)
  handle_socket-After sid c (SocketEvent.message v) srv seen h =
      if_either (After cap t) c.released _ _ (λ _. h)
        (λ _. on_message-After cfg cap t sid c v srv h)
  handle_socket-After sid c (SocketEvent.leave_channel v) srv seen h =
      if_either (After cap t) c.released _ _ (λ _. h)
        (λ _. on_leave_channel-After cfg cap t sid c v srv seen h)
  handle_socket-After sid c (SocketEvent.close_channel v) srv seen h =
      if_either (After cap t) c.released _ _ (λ _. h)
        (λ _. on_close_channel-After cfg cap t sid c v srv seen h)
  handle_socket-After sid c SocketEvent.ping srv seen h =
      if_either (After cap t) c.released _ _ (λ _. h)
        (λ _.
          if_either (After cap t) (check_bucket t c.client_ip by_control srv).1 _ _ (λ _. h)
            (λ _. h))
  handle_socket-After sid c SocketEvent.disconnected srv seen h =
      disconnect_socket-HasCounts cap t sid srv h

  admit-HasCounts :
      (ip : String) (b : Bool) (srv : RelayServer)
      → HasCounts cap srv
      → HasCounts cap (admit_engine_request cfg t ip b srv).0
  unfolding admit_engine_request check_bucket
  admit-HasCounts ip b srv h =
      let P = λ (x : RelayServer × Bool). HasCounts cap x.0 in
      if_either P b _ _ (λ _. h)
        (λ _.
          if_either P (not (check_bucket t ip by_handshake srv).1) _ _ (λ _. h)
            (λ _.
              if_either P (leb cfg.max_sockets_per_ip (count_for ip srv.engine_sessions_by_ip)) _ _
                (λ _. h)
                (λ _.
                  if_either P (leb cfg.max_active_sockets t.clients_count) _ _ (λ _. h) (λ _. h))))

  handle-After :
      (e : ServerEvent) (srv : RelayServer)
      → HasCounts cap srv
      → After cap t (handle cfg (t, e) srv)
  unfolding handle engine_opened engine_closed
  handle-After (ServerEvent.requested ip b) srv h = admit-HasCounts ip b srv h
  handle-After (ServerEvent.session_opened ip) srv h = h
  handle-After (ServerEvent.session_closed ip) srv h = h
  handle-After (ServerEvent.connected sid ip) srv h =
      elim (Option-cases (Dict.get sid srv.connections)) [
        | inl q ↦ rw (q, handle) (on_connection-HasCounts cfg t sid ip srv q h)
        | inr (c, q) ↦ rw (q, handle) h
      ]
  handle-After (ServerEvent.socket sid e) srv h =
      elim (Option-cases (Dict.get sid srv.connections)) [
        | inl q ↦ rw (q, handle) h
        | inr (c, q) ↦ rw (q, handle) (handle_socket-After sid c e srv q h)
      ]
  handle-After (ServerEvent.drained sid) srv h = on_transport_drain-HasCounts cap t sid srv h
  handle-After (ServerEvent.became_ready sid) srv h = on_transport_ready-After cap t sid srv h
  handle-After ServerEvent.limits_cleaned srv h = h
  handle-After ServerEvent.channels_cleaned srv h = h

serve_from-HasCounts :
    (cfg : ServerConfig) (es : List (Turn × ServerEvent)) (srv : RelayServer)
    → HasCounts cfg.max_sockets_per_ip srv
    → HasCounts cfg.max_sockets_per_ip (serve cfg es srv)
unfolding serve
serve_from-HasCounts cfg [] srv h = h
serve_from-HasCounts cfg ((t, e) ∷ es) srv h =
    serve_from-HasCounts cfg es (handle cfg (t, e) srv).0 (handle-After cfg t e srv h)

-- After any events of a new server, joins that wait and sockets that are dropped for being slow
-- included: for every address the counter of active sockets is the number of its accepted sockets
-- that have not disconnected, and it is within the cap for an address.
pub serve-IsCounted :
    (cfg : ServerConfig) (es : List (Turn × ServerEvent))
    → let srv = serve cfg es new_server in
      IsCounted cfg.max_sockets_per_ip srv.active_sockets_by_ip srv.connections
unfolding new_server sum_by Dict.get
serve-IsCounted cfg es =
    serve_from-HasCounts cfg es new_server
      (record { distinct = tt; exact = λ ip. refl; capped = λ ip. omega arith })
