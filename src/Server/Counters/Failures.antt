-- ===== src/Server/Counters/Failures.antt =====
-- relayServer.ts: an error in `join_channel` leaves the counters of sockets alone.
use myqrlwallet_backend.Prelude.{ℕ, refl, String, [], if_either}
use myqrlwallet_backend.Relay.Lifecycle.{leave}
use myqrlwallet_backend.Server.Types.{
  ServerConfig, Turn, PendingJoin, JoinStage, no_join, entering, leaving, answering, recovering,
  Connection, RelayServer, set_manager,
}
use myqrlwallet_backend.Server.Joining.{answer, set_stage, fail_join, leave_again, failed_join}
use myqrlwallet_backend.Server.Counters.{set_connection-IsCounted}
use myqrlwallet_backend.Server.Counters.Sockets.{HasCounts, Seen, After}
use myqrlwallet_backend.Server.Counters.Joins.{answer-After}

module _ (cfg : ServerConfig) (cap : ℕ) (t : Turn) (sid : String) (c : Connection) where
  leave_again-After :
      (p : PendingJoin) (srv : RelayServer)
      → Seen sid c srv
      → HasCounts cap srv
      → After cap t (leave_again sid c p srv)
  unfolding leave_again
  leave_again-After p srv seen h =
      if_either (After cap t) p.joined_room _ _
        (λ _.
          set_connection-IsCounted cap srv.active_sockets_by_ip srv.connections sid c
            (set_stage (recovering failed_join) c) seen refl refl h)
        (λ _. answer-After cfg cap t sid c failed_join srv seen h)

  pub fail_join-After :
      (srv : RelayServer) → Seen sid c srv → HasCounts cap srv → After cap t (fail_join t sid c srv)
  unfolding fail_join
  fail_join-After srv seen h = by_stage c.stage
    where
      left : String → RelayServer
      left channel_id = set_manager (leave t.now sid channel_id srv.manager).0 srv

      by_stage :
          (stage : JoinStage)
          → After cap t (elim stage [
            | no_join ↦ (srv, [])
            | entering p ↦ answer sid c failed_join srv
            | leaving p res ↦ leave_again sid c p (left p.channel_id)
            | answering p r ↦ leave_again sid c p srv
            | recovering r ↦ answer sid c r srv
          ])
      by_stage no_join = h
      by_stage (entering p) = answer-After cfg cap t sid c failed_join srv seen h
      by_stage (leaving p res) = leave_again-After p (left p.channel_id) seen h
      by_stage (answering p r) = leave_again-After p srv seen h
      by_stage (recovering r) = answer-After cfg cap t sid c r srv seen h
