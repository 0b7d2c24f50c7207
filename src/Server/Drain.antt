-- ===== src/Server/Drain.antt =====
-- relayServer.ts: what happens when a transport has drained and is ready again.
use myqrlwallet_backend.Prelude.{String, not, none, some, List, [], ◌∷◌, if◌then◌else◌, Dict.Dict}
use myqrlwallet_backend.Prelude.Dict
use myqrlwallet_backend.Relay.Route.{advance_direct_delivery}
use myqrlwallet_backend.Server.Types.{
  Turn, on_drain, on_ready, RelayServer, Effect, emits, set_manager,
}
use myqrlwallet_backend.Server.Transport.{
  set_listener, drop_listener, release_manager, release_delivery, is_up, arm_direct_delivery,
}
use myqrlwallet_backend.Server.Sockets.{disconnect_socket}

-- The next buffered message is promoted and sent, or the delivery ends.
unfoldable pub promote_next : String → RelayServer → RelayServer × List Effect
promote_next sid srv =
    let x = advance_direct_delivery sid srv.manager in
    elim x.1 [
      | none ↦ (release_delivery sid (set_manager x.0 srv), [])
      | some payload ↦ (set_manager x.0 srv, emits sid payload ∷ [])
    ]

-- The transport is ready, and the listener is gone.
unfoldable pub ready_again : Turn → String → RelayServer → RelayServer × List Effect
ready_again t sid srv =
    if not (is_up t sid)
    then (release_manager sid srv, [])
    else if not (t.is_writable sid)
    then (set_listener sid on_ready srv, [])
    else (let armed = arm_direct_delivery t sid srv in
        if armed.1
        then promote_next sid armed.0
        else disconnect_socket t sid (release_manager sid armed.0))

-- `onDrain`, if the socket waits for it.
unfoldable pub on_transport_drain : String → RelayServer → RelayServer
on_transport_drain sid srv = elim (Dict.get sid srv.direct_transport_listeners) [
  | some on_drain ↦ set_listener sid on_ready (drop_listener sid srv)
  | _ ↦ srv
]

-- `onReady`, if the socket waits for it.
unfoldable pub on_transport_ready : Turn → String → RelayServer → RelayServer × List Effect
on_transport_ready t sid srv = elim (Dict.get sid srv.direct_transport_listeners) [
  | some on_ready ↦ ready_again t sid (drop_listener sid srv)
  | _ ↦ (srv, [])
]
