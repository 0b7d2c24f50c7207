-- ===== src/Server/Sockets.antt =====
-- relayServer.ts: the admission of sessions and sockets, and the end of a socket.
use myqrlwallet_backend.Prelude.{
  ℕ, ◌+◌, ◌-◌, String, Bool, true, false, not, none, some, List, [], ◌∷◌, ltb, leb, if◌then◌else◌,
  Dict.Dict,
}
use myqrlwallet_backend.Prelude.Dict
use myqrlwallet_backend.Relay.Lifecycle.{leave}
use myqrlwallet_backend.Server.Limits.{Bucket, by_connect, by_handshake, check_rate_limit}
use myqrlwallet_backend.Server.Types.{
  ServerConfig, Turn, Connection, no_join, PresenceEvent, RelayServer, Effect, presence, drops,
  set_manager, set_connection, count_for, count_up, count_down,
}
use myqrlwallet_backend.Server.Transport.{release_delivery}

-- A check of a bucket, and the server after it.
unfoldable pub check_bucket : Turn → String → Bucket → RelayServer → RelayServer × Bool
check_bucket t ip bucket srv =
    let x = check_rate_limit t.now ip bucket srv.rate_limits in
    (record srv { rate_limits = x.0 }, x.1)

-- `admitEngineRequest`; whether the request carries a session id is a parameter.
unfoldable pub admit_engine_request :
    ServerConfig → Turn → String → Bool → RelayServer → RelayServer × Bool
admit_engine_request cfg t ip is_existing srv =
    let x = check_bucket t ip by_handshake srv in
    if is_existing
    then (srv, true)
    else if not x.1
    then (x.0, false)
    else if leb cfg.max_sockets_per_ip (count_for ip x.0.engine_sessions_by_ip)
    then (x.0, false)
    else if leb cfg.max_active_sockets t.clients_count
    then (x.0, false)
    else (x.0, true)

unfoldable pub engine_opened : String → RelayServer → RelayServer
engine_opened ip srv = record srv { engine_sessions_by_ip = count_up ip srv.engine_sessions_by_ip }

unfoldable pub engine_closed : String → RelayServer → RelayServer
engine_closed ip srv = record srv {
  engine_sessions_by_ip = count_down ip srv.engine_sessions_by_ip;
}

-- The counter goes back when a cap is passed.
unfoldable pub count_back : String → Dict ℕ → Dict ℕ
count_back ip counts =
    let left = count_for ip counts - 1 in
    if leb left 0 then Dict.delete ip counts else Dict.put ip left counts

abbrev pub set_active : Dict ℕ → RelayServer → RelayServer
set_active counts srv = record srv { active_sockets_by_ip = counts }

abbrev pub new_connection : String → Connection
new_connection ip = record {
  client_ip = ip;
  current_channel_id = none;
  released = false;
  stage = no_join;
}

-- The handler of a new socket: whether its handlers are installed.
unfoldable pub on_connection :
    ServerConfig → Turn → String → String → RelayServer → RelayServer × List Effect
on_connection cfg t sid ip srv =
    let x = check_bucket t ip by_connect srv in
    let active = count_for ip x.0.active_sockets_by_ip + 1 in
    let counted = set_active (Dict.put ip active x.0.active_sockets_by_ip) x.0 in
    let back = set_active (count_back ip counted.active_sockets_by_ip) counted in
    if not x.1
    then (x.0, drops sid ∷ [])
    else if ltb cfg.max_sockets_per_ip active
    then (back, drops sid ∷ [])
    else if ltb cfg.max_active_sockets t.clients_count
    then (back, drops sid ∷ [])
    else (set_connection sid (new_connection ip) counted, [])

unfoldable pub release_socket_counter : String → Connection → RelayServer → RelayServer
release_socket_counter sid c srv =
    if c.released
    then srv
    else set_active (count_down c.client_ip srv.active_sockets_by_ip)
        (set_connection sid (record c { released = true }) srv)

-- The socket leaves a channel of the manager, and the others of the room hear of a participant.
unfoldable pub leave_and_tell :
    Turn → String → String → PresenceEvent → RelayServer → RelayServer × List Effect
leave_and_tell t sid channel_id event srv =
    let x = leave t.now sid channel_id srv.manager in
    (
      set_manager x.0 srv,
      elim x.1 [ none ↦ [] | some p ↦ presence channel_id sid event p.client_type ∷ [] ],
    )

-- The handler of `disconnect`.
unfoldable pub on_disconnect : Turn → String → Connection → RelayServer → RelayServer × List Effect
on_disconnect t sid c srv =
    let freed = release_delivery sid (release_socket_counter sid c srv) in
    elim c.current_channel_id [
      | none ↦ (freed, [])
      | some channel_id ↦ leave_and_tell t sid channel_id PresenceEvent.disconnected_event freed
    ]

-- `disconnect(true)`: the handler runs at once, unless the socket has disconnected before.
unfoldable pub disconnect_socket : Turn → String → RelayServer → RelayServer × List Effect
disconnect_socket t sid srv = elim (Dict.get sid srv.connections) [
  | none ↦ (srv, drops sid ∷ [])
  | some c ↦
      let x = on_disconnect t sid c srv in if c.released then (srv, []) else (x.0, drops sid ∷ x.1)
]
