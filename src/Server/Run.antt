-- ===== src/Server/Run.antt =====
-- relayServer.ts: the events that the server handles, one turn each, and runs of them.
use myqrlwallet_backend.Prelude.{String, Bool, none, some, List, [], ◌∷◌, if◌then◌else◌, Dict.Dict}
use myqrlwallet_backend.Prelude.Dict
use myqrlwallet_backend.Value.{Value}
use myqrlwallet_backend.Relay.Lifecycle.{cleanup, destroy}
use myqrlwallet_backend.Server.Limits.{drop_rate_limits}
use myqrlwallet_backend.Server.Types.{
  ServerConfig, Turn, Armed, Connection, RelayServer, Effect, set_manager,
}
use myqrlwallet_backend.Server.Transport.{release_delivery}
use myqrlwallet_backend.Server.Sockets.{
  admit_engine_request, engine_opened, engine_closed, on_connection, disconnect_socket,
}
use myqrlwallet_backend.Server.Drain.{on_transport_drain, on_transport_ready}
use myqrlwallet_backend.Server.Joining.{on_join_channel, resume_join, fail_join}
use myqrlwallet_backend.Server.Messages.{on_message}
use myqrlwallet_backend.Server.Control.{on_leave_channel, on_close_channel, on_ping}

pub data SocketEvent : Type 0 where
  join_channel message leave_channel close_channel : Value → SocketEvent
  ping resumed rejected disconnected : SocketEvent

pub data ServerEvent : Type 0 where
  requested : String → Bool → ServerEvent
  session_opened session_closed : String → ServerEvent
  connected : String → String → ServerEvent
  socket : String → SocketEvent → ServerEvent
  drained became_ready : String → ServerEvent
  limits_cleaned channels_cleaned : ServerEvent

-- An event of a socket that is connected. A join that waits for a room goes on
-- when that is done or has thrown, after a disconnect too.
unfoldable pub handle_socket :
    ServerConfig
    → Turn
    → String
    → Connection
    → SocketEvent
    → RelayServer
    → RelayServer × List Effect
handle_socket cfg t sid c resumed srv = resume_join cfg t sid c srv
handle_socket cfg t sid c rejected srv = fail_join t sid c srv
handle_socket cfg t sid c (join_channel v) srv =
    let x = on_join_channel cfg t sid c v srv in if c.released then (srv, []) else x
handle_socket cfg t sid c (message v) srv =
    let x = on_message cfg t sid c v srv in if c.released then (srv, []) else x
handle_socket cfg t sid c (leave_channel v) srv =
    let x = on_leave_channel cfg t sid c v srv in if c.released then (srv, []) else x
handle_socket cfg t sid c (close_channel v) srv =
    let x = on_close_channel cfg t sid c v srv in if c.released then (srv, []) else x
handle_socket cfg t sid c ping srv =
    let x = on_ping t sid c srv in if c.released then (srv, []) else x
handle_socket cfg t sid c disconnected srv = disconnect_socket t sid srv

-- A socket id is given once.
unfoldable pub handle : ServerConfig → Turn × ServerEvent → RelayServer → RelayServer × List Effect
handle cfg (t, requested ip is_existing) srv =
    ((admit_engine_request cfg t ip is_existing srv).0, [])
handle cfg (t, session_opened ip) srv = (engine_opened ip srv, [])
handle cfg (t, session_closed ip) srv = (engine_closed ip srv, [])
handle cfg (t, connected sid ip) srv =
    let x = on_connection cfg t sid ip srv in if Dict.has sid srv.connections then (srv, []) else x
handle cfg (t, socket sid e) srv = elim (Dict.get sid srv.connections) [
  | none ↦ (srv, [])
  | some c ↦ handle_socket cfg t sid c e srv
]
handle cfg (t, drained sid) srv = (on_transport_drain sid srv, [])
handle cfg (t, became_ready sid) srv = on_transport_ready t sid srv
handle cfg (t, limits_cleaned) srv =
    (record srv { rate_limits = drop_rate_limits t.now srv.rate_limits }, [])
handle cfg (t, channels_cleaned) srv = (set_manager (cleanup t.now srv.manager) srv, [])

unfoldable pub serve : ServerConfig → List (Turn × ServerEvent) → RelayServer → RelayServer
serve cfg [] srv = srv
serve cfg (e ∷ es) srv = serve cfg es (handle cfg e srv).0

unfoldable pub release_all : List (String × Armed) → RelayServer → RelayServer
release_all [] srv = srv
release_all ((sid, a) ∷ rest) srv = release_all rest (release_delivery sid srv)

-- `destroy`
unfoldable pub destroy_server : RelayServer → RelayServer
destroy_server srv =
    let cleared = record srv {
      active_sockets_by_ip = [];
      engine_sessions_by_ip = [];
      rate_limits = [];
    } in
    let freed = release_all srv.direct_transport_listeners cleared in
    set_manager (destroy freed.manager) freed
