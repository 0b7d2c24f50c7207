-- ===== src/Server/Counters/Drains.antt =====
-- relayServer.ts: drained and ready transports keep the counters of sockets exact.
use myqrlwallet_backend.Prelude.{
  ℕ, inl, inr, String, not, Option, none, some, [], if_either, Option-cases, Dict.Dict,
}
use myqrlwallet_backend.Prelude.Dict
use myqrlwallet_backend.Relay.Route.{advance_direct_delivery}
use myqrlwallet_backend.Server.Types.{Turn, Armed, on_drain, on_ready, RelayServer}
use myqrlwallet_backend.Server.Transport.{
  set_listener, drop_listener, release_manager, release_delivery, arm_direct_delivery, is_up,
}
use myqrlwallet_backend.Server.Drain.{
  promote_next, ready_again, on_transport_ready, on_transport_drain,
}
use myqrlwallet_backend.Server.Counters.Sockets.{
  HasCounts, After, disconnect_socket-HasCounts, arm-HasCounts,
}

module _ (cap : ℕ) (t : Turn) where
  promote_next-After :
      (sid : String) (srv : RelayServer) → HasCounts cap srv → After cap t (promote_next sid srv)
  unfolding promote_next release_delivery
  promote_next-After sid srv h = elim (Option-cases (advance_direct_delivery sid srv.manager).1) [
    | inl q ↦ rw (q, promote_next) h
    | inr (payload, q) ↦ rw (q, promote_next) h
  ]

  ready_again-After :
      (sid : String) (srv : RelayServer) → HasCounts cap srv → After cap t (ready_again t sid srv)
  unfolding ready_again
  ready_again-After sid srv h =
      let armed = arm_direct_delivery t sid srv in
      let still = arm-HasCounts cap t sid srv h in
      if_either (After cap t) (not (is_up t sid)) _ _ (λ _. h)
        (λ _.
          if_either (After cap t) (not (t.is_writable sid)) _ _ (λ _. h)
            (λ _.
              if_either (After cap t) armed.1 _ _ (λ _. promote_next-After sid armed.0 still)
                (λ _. disconnect_socket-HasCounts cap t sid (release_manager sid armed.0) still)))

  pub on_transport_ready-After :
      (sid : String) (srv : RelayServer)
      → HasCounts cap srv
      → After cap t (on_transport_ready t sid srv)
  unfolding on_transport_ready
  on_transport_ready-After sid srv h = by_listener (Dict.get sid srv.direct_transport_listeners)
    where
      by_listener :
          (o : Option Armed)
          → After cap t
              (elim o [ some on_ready ↦ ready_again t sid (drop_listener sid srv) | _ ↦ (srv, []) ])
      by_listener none = h
      by_listener (some on_drain) = h
      by_listener (some on_ready) = ready_again-After sid (drop_listener sid srv) h

  pub on_transport_drain-HasCounts :
      (sid : String) (srv : RelayServer)
      → HasCounts cap srv
      → HasCounts cap (on_transport_drain sid srv)
  unfolding on_transport_drain
  on_transport_drain-HasCounts sid srv h = by_listener (Dict.get sid srv.direct_transport_listeners)
    where
      by_listener :
          (o : Option Armed)
          → HasCounts cap (elim o [
            | some on_drain ↦ set_listener sid on_ready (drop_listener sid srv)
            | _ ↦ srv
          ])
      by_listener none = h
      by_listener (some on_drain) = h
      by_listener (some on_ready) = h
