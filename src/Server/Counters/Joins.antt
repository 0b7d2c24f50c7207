-- ===== src/Server/Counters/Joins.antt =====
-- relayServer.ts: the handler of `join_channel` leaves the counters of sockets alone.
use myqrlwallet_backend.Prelude.{
  ℕ, ◌≡◌, refl, inl, inr, String, not, Option, some, [], ◌∷◌, str_eq, if_either, Option-cases,
}
use myqrlwallet_backend.Value.{Value, field_of}
use myqrlwallet_backend.Relay.Types.{
  ClientType, JoinSuccess, JoinResult, success, failure, ChannelManager,
}
use myqrlwallet_backend.Relay.Join.{join, tombstone_reply}
use myqrlwallet_backend.Server.Limits.{by_join}
use myqrlwallet_backend.Server.Types.{
  ServerConfig, Turn, PendingJoin, AckResponse, JoinStage, no_join, entering, leaving, answering,
  recovering, Connection, RelayServer, acks, set_manager, world_of,
}
use myqrlwallet_backend.Server.Sockets.{check_bucket, leave_and_tell}
use myqrlwallet_backend.Server.Joining.{
  answer, give_up, settle, seat_socket, ask_manager, enter_room, check_join, start_join, set_stage,
  on_join_channel, resume_join, channel_id_of, client_type_of, key_of, KeyField, key_field, bad_key,
  is_current, at_capacity,
}
use myqrlwallet_backend.Server.Counters.{set_connection-IsCounted}
use myqrlwallet_backend.Server.Counters.Sockets.{HasCounts, Seen, After}

module _ (cfg : ServerConfig) (cap : ℕ) (t : Turn) (sid : String) (c : Connection) where
  pub answer-After :
      (r : AckResponse) (srv : RelayServer)
      → Seen sid c srv
      → HasCounts cap srv
      → After cap t (answer sid c r srv)
  unfolding answer
  answer-After r srv seen h =
      set_connection-IsCounted cap srv.active_sockets_by_ip srv.connections sid c
        (set_stage no_join c) seen refl refl h

  give_up-After :
      (p : PendingJoin) (r : AckResponse) (srv : RelayServer)
      → Seen sid c srv
      → HasCounts cap srv
      → After cap t (give_up sid c p r srv)
  unfolding give_up
  give_up-After p r srv seen h =
      if_either (After cap t) p.joined_room _ _
        (λ _.
          set_connection-IsCounted cap srv.active_sockets_by_ip srv.connections sid c
            (set_stage (answering p r) c) seen refl refl h)
        (λ _. answer-After r srv seen h)

  settle-After :
      (p : PendingJoin) (res : JoinSuccess) (srv : RelayServer)
      → Seen sid c srv
      → HasCounts cap srv
      → After cap t (settle sid c p res srv)
  unfolding settle
  settle-After p res srv seen h =
      set_connection-IsCounted cap srv.active_sockets_by_ip srv.connections sid c
        (record c { current_channel_id = some p.channel_id; stage = no_join }) seen refl refl h

  seat_socket-After :
      (p : PendingJoin) (res : JoinSuccess) (srv : RelayServer)
      → Seen sid c srv
      → HasCounts cap srv
      → After cap t (seat_socket t sid c p res srv)
  unfolding seat_socket leave_and_tell
  seat_socket-After p res srv seen h = elim (Option-cases c.current_channel_id) [
    | inl q ↦ rw (q, seat_socket) (settle-After p res srv seen h)
    | inr (previous, q) ↦
        rw (q, seat_socket)
          (if_either (After cap t) (str_eq previous p.channel_id) _ _
            (λ _. settle-After p res srv seen h)
            (λ _.
              set_connection-IsCounted cap srv.active_sockets_by_ip srv.connections sid c
                (set_stage (leaving p res) c) seen refl refl h))
  ]

  ask_manager-After :
      (p : PendingJoin) (srv : RelayServer)
      → Seen sid c srv
      → HasCounts cap srv
      → After cap t (ask_manager cfg t sid c p srv)
  unfolding ask_manager
  ask_manager-After p srv seen h = by_result x.1 refl
    where
      x : ChannelManager × JoinResult
      x =
          join cfg.setup (world_of t srv) p.channel_id sid p.client_type p.public_key
            (some c.client_ip) srv.manager

      by_result : (r : JoinResult) → x.1 ≡ r → After cap t (ask_manager cfg t sid c p srv)
      by_result (failure e) q =
          rw (q, ask_manager)
            (give_up-After p (AckResponse.refused_join e) (set_manager x.0 srv) seen h)
      by_result (success res) q =
          rw (q, ask_manager)
            (if_either (After cap t) res.terminated _ _
              (λ _.
                give_up-After p (AckResponse.joined tombstone_reply) (set_manager x.0 srv) seen h)
              (λ _. seat_socket-After p res (set_manager x.0 srv) seen h))

  enter_room-After :
      (channel_id : String) (ct : ClientType) (k : Option String) (srv : RelayServer)
      → Seen sid c srv
      → HasCounts cap srv
      → After cap t (enter_room cfg t sid c channel_id ct k srv)
  unfolding enter_room
  enter_room-After channel_id ct k srv seen h =
      if_either (After cap t) (not (is_current channel_id c)) _ _
        (λ _.
          set_connection-IsCounted cap srv.active_sockets_by_ip srv.connections sid c _ seen refl
            refl h)
        (λ _. ask_manager-After _ srv seen h)

  check_join-After :
      (payload : Value) (srv : RelayServer)
      → Seen sid c srv
      → HasCounts cap srv
      → After cap t (check_join cfg t sid c payload srv)
  unfolding check_join
  check_join-After payload srv seen h =
      elim (Option-cases (channel_id_of (field_of "channelId" payload))) [
        | inl q ↦ rw (q, check_join) (answer-After _ srv seen h)
        | inr (channel_id, q) ↦
            rw (q, check_join)
              (if_either (After cap t) (at_capacity cfg channel_id srv) _ _
                (λ _. answer-After _ srv seen h)
                (λ _. elim (Option-cases (client_type_of (field_of "clientType" payload))) [
                  | inl n ↦ rw n (answer-After _ srv seen h)
                  | inr (ct, n) ↦
                      rw n (by_key channel_id ct (key_of (field_of "publicKey" payload)))
                ]))
      ]
    where
      by_key :
          (channel_id : String) (ct : ClientType) (k : KeyField)
          → After cap t (elim k [
            | bad_key ↦
                answer sid c (AckResponse.refused_text "publicKey must be a base64 string") srv
            | key_field k' ↦ enter_room cfg t sid c channel_id ct k' srv
          ])
      by_key channel_id ct KeyField.bad_key = answer-After _ srv seen h
      by_key channel_id ct (KeyField.key_field k) = enter_room-After channel_id ct k srv seen h

  start_join-After :
      (payload : Value) (srv : RelayServer)
      → Seen sid c srv
      → HasCounts cap srv
      → After cap t (start_join cfg t sid c payload srv)
  unfolding start_join check_bucket
  start_join-After payload srv seen h =
      let x = check_bucket t c.client_ip by_join srv in
      if_either (After cap t) x.1 _ _ (λ _. check_join-After payload x.0 seen h)
        (λ _. answer-After _ x.0 seen h)

  pub on_join_channel-After :
      (payload : Value) (srv : RelayServer)
      → Seen sid c srv
      → HasCounts cap srv
      → After cap t (on_join_channel cfg t sid c payload srv)
  unfolding on_join_channel
  on_join_channel-After payload srv seen h = by_stage c.stage
    where
      by_stage :
          (stage : JoinStage)
          → After cap t (elim stage [
            | no_join ↦ start_join cfg t sid c payload srv
            | _ ↦ (
              srv,
              acks sid (AckResponse.refused_text "Another channel join is in progress") ∷ [],
            )
          ])
      by_stage no_join = start_join-After payload srv seen h
      by_stage (entering p) = h
      by_stage (leaving p res) = h
      by_stage (answering p r) = h
      by_stage (recovering r) = h

  pub resume_join-After :
      (srv : RelayServer)
      → Seen sid c srv
      → HasCounts cap srv
      → After cap t (resume_join cfg t sid c srv)
  unfolding resume_join
  resume_join-After srv seen h = by_stage c.stage
    where
      by_stage :
          (stage : JoinStage)
          → After cap t (elim stage [
            | no_join ↦ (srv, [])
            | entering p ↦ ask_manager cfg t sid c p srv
            | leaving p res ↦ settle sid c p res srv
            | answering p r ↦ answer sid c r srv
            | recovering r ↦ answer sid c r srv
          ])
      by_stage no_join = h
      by_stage (entering p) = ask_manager-After p srv seen h
      by_stage (leaving p res) = settle-After p res srv seen h
      by_stage (answering p r) = answer-After r srv seen h
      by_stage (recovering r) = answer-After r srv seen h
