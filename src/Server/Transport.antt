-- ===== src/Server/Transport.antt =====
-- relayServer.ts: the listeners that hold a direct delivery until its transport has drained.
use myqrlwallet_backend.Prelude.{
  String, Bool, true, false, not, ◌&&◌, ◌||◌, if◌then◌else◌, Dict.Dict,
}
use myqrlwallet_backend.Prelude.Dict
use myqrlwallet_backend.Relay.Ledger.{release_direct_delivery}
use myqrlwallet_backend.Server.Types.{Turn, Armed, on_drain, RelayServer, set_manager}

abbrev pub set_listener : String → Armed → RelayServer → RelayServer
set_listener sid a srv = record srv {
  direct_transport_listeners = Dict.put sid a srv.direct_transport_listeners;
}

abbrev pub drop_listener : String → RelayServer → RelayServer
drop_listener sid srv = record srv {
  direct_transport_listeners = Dict.delete sid srv.direct_transport_listeners;
}

abbrev pub release_manager : String → RelayServer → RelayServer
release_manager sid srv = set_manager (release_direct_delivery sid srv.manager) srv

-- `releaseDirectDelivery` of the server.
unfoldable pub release_delivery : String → RelayServer → RelayServer
release_delivery sid srv = release_manager sid (drop_listener sid srv)

abbrev pub is_up : Turn → String → Bool
is_up t sid = t.is_connected sid && t.is_open sid

unfoldable pub arm_direct_delivery : Turn → String → RelayServer → RelayServer × Bool
arm_direct_delivery t sid srv =
    if not (is_up t sid)
    then (srv, false)
    else if not (t.is_writable sid) || Dict.has sid srv.direct_transport_listeners
    then (srv, false)
    else (set_listener sid on_drain srv, true)
