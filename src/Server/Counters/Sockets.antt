-- ===== src/Server/Counters/Sockets.antt =====
-- relayServer.ts: the counters when a socket is accepted, refused or disconnected.
use myqrlwallet_backend.Prelude.{
  ℕ, ◌+◌, ◌≡◌, inl, inr, String, Bool, not, ◌||◌, none, some, List, ltb, arith, if_either,
  Option-cases, Dict.Dict,
}
use myqrlwallet_backend.Prelude.Dict
use myqrlwallet_backend.Server.Limits.{by_connect}
use myqrlwallet_backend.Server.Types.{
  ServerConfig, Turn, PresenceEvent, Connection, RelayServer, Effect, count_for,
}
use myqrlwallet_backend.Server.Transport.{release_delivery, arm_direct_delivery, is_up}
use myqrlwallet_backend.Server.Sockets.{
  check_bucket, on_connection, release_socket_counter, leave_and_tell, on_disconnect,
  disconnect_socket,
}
use myqrlwallet_backend.Server.Counters.{
  IsCounted, release-IsCounted, connect-IsCounted, count_back-IsCounted,
}

-- The counters of a server are exact.
abbrev pub HasCounts : ℕ → RelayServer → Type 0
HasCounts cap srv = IsCounted cap srv.active_sockets_by_ip srv.connections

abbrev pub Seen : String → Connection → RelayServer → Type 0
Seen sid c srv = Dict.get sid srv.connections ≡ some c

module _ (cap : ℕ) (t : Turn) where
  -- A turn of the server leaves them exact.
  abbrev pub After : RelayServer × List Effect → Type 0
  After x = HasCounts cap x.0

  release_socket_counter-HasCounts :
      (sid : String) (c : Connection) (srv : RelayServer)
      → Seen sid c srv
      → HasCounts cap srv
      → HasCounts cap (release_socket_counter sid c srv)
  unfolding release_socket_counter
  release_socket_counter-HasCounts sid c srv seen h =
      if_either (HasCounts cap) c.released _ _ (λ gone. h)
        (λ live. release-IsCounted cap srv.active_sockets_by_ip srv.connections sid c seen live h)

  leave_and_tell-HasCounts :
      (sid channel_id : String) (event : PresenceEvent) (srv : RelayServer)
      → HasCounts cap srv
      → After (leave_and_tell t sid channel_id event srv)
  unfolding leave_and_tell
  leave_and_tell-HasCounts sid channel_id event srv h = h

  pub disconnect_socket-HasCounts :
      (sid : String) (srv : RelayServer) → HasCounts cap srv → After (disconnect_socket t sid srv)
  unfolding disconnect_socket on_disconnect release_delivery
  disconnect_socket-HasCounts sid srv h = elim (Option-cases (Dict.get sid srv.connections)) [
    | inl q ↦ rw (q, disconnect_socket) h
    | inr (c, q) ↦
        let freed = release_delivery sid (release_socket_counter sid c srv) in
        let counted = release_socket_counter-HasCounts sid c srv q h in
        rw (q, disconnect_socket)
          (if_either After c.released _ _ (λ gone. h)
            (λ live. elim (Option-cases c.current_channel_id) [
              | inl n ↦ rw (n, on_disconnect) counted
              | inr (channel_id, n) ↦
                  rw (n, on_disconnect)
                    (leave_and_tell-HasCounts sid channel_id PresenceEvent.disconnected_event freed
                      counted)
            ]))
  ]

  pub arm-HasCounts :
      (sid : String) (srv : RelayServer)
      → HasCounts cap srv
      → HasCounts cap (arm_direct_delivery t sid srv).0
  unfolding arm_direct_delivery
  arm-HasCounts sid srv h =
      let P = λ (x : RelayServer × Bool). HasCounts cap x.0 in
      if_either P (not (is_up t sid)) _ _ (λ _. h)
        (λ up.
          if_either P (not (t.is_writable sid) || Dict.has sid srv.direct_transport_listeners) _ _
            (λ _. h) (λ _. h))

-- The handler of a socket whose id is new.
pub on_connection-HasCounts :
    (cfg : ServerConfig) (t : Turn) (sid ip : String) (srv : RelayServer)
    → Dict.get sid srv.connections ≡ none
    → HasCounts cfg.max_sockets_per_ip srv
    → After cfg.max_sockets_per_ip t (on_connection cfg t sid ip srv)
unfolding on_connection check_bucket
on_connection-HasCounts cfg t sid ip srv new h =
    let P = After cfg.max_sockets_per_ip t in
    let x = check_bucket t ip by_connect srv in
    let active = count_for ip x.0.active_sockets_by_ip + 1 in
    let back =
      count_back-IsCounted cfg.max_sockets_per_ip srv.active_sockets_by_ip srv.connections ip h in
    if_either P (not x.1) _ _ (λ _. h)
      (λ _.
        if_either P (ltb cfg.max_sockets_per_ip active) _ _ (λ _. back)
          (λ room.
            if_either P (ltb cfg.max_active_sockets t.clients_count) _ _ (λ _. back)
              (λ _.
                connect-IsCounted cfg.max_sockets_per_ip srv.active_sockets_by_ip srv.connections
                  sid ip new (ground (arith, room)) h)))
