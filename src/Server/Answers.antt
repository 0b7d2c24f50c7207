-- ===== src/Server/Answers.antt =====
-- relayServer.ts: the handler of `join_channel` comes to an end and answers once.
use myqrlwallet_backend.Prelude.{
  ℕ, suc, ◌<◌, ◌≡◌, ◌⊎◌, refl, sym, ap, subst, ◌∙◌, inl, inr, String, Option, none, some, List, [],
  ◌∷◌, ◌++◌, str_eq, if◌then◌else◌, if_either, arith, eq_iff, Option-cases,
}
use myqrlwallet_backend.Prelude.Dict
use myqrlwallet_backend.Relay.Types.{
  ChannelManager, JoinSuccess, JoinResult, Participant, success, failure,
}
use myqrlwallet_backend.Relay.Join.{join, tombstone_reply}
use myqrlwallet_backend.Relay.Lifecycle.{leave}
use myqrlwallet_backend.Server.Types.{
  ServerConfig, Turn, PendingJoin, PresenceEvent, AckResponse, JoinStage, no_join, entering,
  leaving, answering, recovering, Connection, RelayServer, Effect, acks, presence, exits,
  set_manager, set_connection, world_of,
}
use myqrlwallet_backend.Server.Sockets.{leave_and_tell}
use myqrlwallet_backend.Server.Joining.{
  answer, set_stage, give_up, settle, seat_socket, ask_manager, resume_join, fail_join, leave_again,
  failed_join,
}

-- How many rooms a handler may still wait for.
abbrev pub waits : JoinStage → ℕ
waits no_join = 0
waits (recovering r) = 1
waits (answering p r) = 2
waits (leaving p res) = 2
waits (entering p) = 3

abbrev pub stage_in : Option Connection → JoinStage
stage_in none = no_join
stage_in (some c) = c.stage

abbrev pub stage_of : String → RelayServer → JoinStage
stage_of sid srv = stage_in (Dict.get sid srv.connections)

-- The answers among the effects.
abbrev pub answers : List Effect → ℕ
answers [] = 0
answers (acks sid r ∷ es) = suc (answers es)
answers (_ ∷ es) = answers es

-- The handler has ended with one answer, or waits for fewer rooms and has not answered.
abbrev pub Ends : JoinStage → ℕ → List Effect → Type 0
Ends stage n es =
    ((stage ≡ no_join) × (answers es ≡ 1))
    ⊎ ((0 < waits stage) × (waits stage < n) × (answers es ≡ 0))

abbrev pub Proceeds : String → ℕ → RelayServer × List Effect → Type 0
Proceeds sid n x = Ends (stage_of sid x.0) n x.1

module _ (cfg : ServerConfig) (t : Turn) (sid : String) (c : Connection) where
  stage_of-set_connection :
      (d : Connection) (srv : RelayServer) → stage_of sid (set_connection sid d srv) ≡ d.stage
  stage_of-set_connection d srv = ap stage_in (
      Dict.get-put sid sid d srv.connections
      ∙ ap (λ b. if b then some d else Dict.get sid srv.connections) ((eq_iff sid sid).1 refl))

  -- What a turn does that leaves the socket in a stage.
  proceeds :
      (n : ℕ) (d : Connection) (srv : RelayServer) (es : List Effect)
      → Ends d.stage n es
      → Proceeds sid n (set_connection sid d srv, es)
  proceeds n d srv es h = subst (λ stage. Ends stage n es) (sym (stage_of-set_connection d srv)) h

  answer-Proceeds :
      (n : ℕ) (r : AckResponse) (srv : RelayServer) → Proceeds sid n (answer sid c r srv)
  unfolding answer
  answer-Proceeds n r srv =
      proceeds n (set_stage no_join c) srv (acks sid r ∷ []) (inl (refl, refl))

  give_up-Proceeds :
      (p : PendingJoin) (r : AckResponse) (srv : RelayServer)
      → Proceeds sid 3 (give_up sid c p r srv)
  unfolding give_up
  give_up-Proceeds p r srv =
      if_either (Proceeds sid 3) p.joined_room _ _
        (λ _.
          proceeds 3 (set_stage (answering p r) c) srv (exits sid p.channel_id ∷ [])
            (inr (omega arith, omega arith, refl)))
        (λ _. answer-Proceeds 3 r srv)

  settle-Proceeds :
      (n : ℕ) (p : PendingJoin) (res : JoinSuccess) (srv : RelayServer)
      → Proceeds sid n (settle sid c p res srv)
  unfolding settle
  settle-Proceeds n p res srv =
      proceeds n (record c { current_channel_id = some p.channel_id; stage = no_join }) srv
        (presence p.channel_id sid PresenceEvent.joined_event p.client_type
          ∷ acks sid (AckResponse.joined res)
          ∷ [])
        (inl (refl, refl))

  -- What is told of a participant that leaves is no answer.
  answers-told :
      (channel_id room : String) (e : PresenceEvent) (o : Option Participant)
      → answers (
          (elim o [ none ↦ [] | some q ↦ presence channel_id sid e q.client_type ∷ [] ])
          ++ exits sid room ∷ [])
        ≡ 0
  answers-told channel_id room e none = refl
  answers-told channel_id room e (some q) = refl

  seat_socket-Proceeds :
      (p : PendingJoin) (res : JoinSuccess) (srv : RelayServer)
      → Proceeds sid 3 (seat_socket t sid c p res srv)
  unfolding seat_socket leave_and_tell
  seat_socket-Proceeds p res srv = elim (Option-cases c.current_channel_id) [
    | inl q ↦ rw (q, seat_socket) (settle-Proceeds 3 p res srv)
    | inr (previous, q) ↦
        rw (q, seat_socket)
          (if_either (Proceeds sid 3) (str_eq previous p.channel_id) _ _
            (λ _. settle-Proceeds 3 p res srv)
            (λ _.
              let x = leave_and_tell t sid previous PresenceEvent.left_event srv in
              proceeds 3 (set_stage (leaving p res) c) x.0 (x.1 ++ exits sid previous ∷ []) (
                inr (
                  omega arith,
                  omega arith,
                  answers-told previous previous PresenceEvent.left_event
                      (leave t.now sid previous srv.manager).1,
                ))))
  ]

  ask_manager-Proceeds :
      (p : PendingJoin) (srv : RelayServer) → Proceeds sid 3 (ask_manager cfg t sid c p srv)
  unfolding ask_manager
  ask_manager-Proceeds p srv = by_result x.1 refl
    where
      x : ChannelManager × JoinResult
      x =
          join cfg.setup (world_of t srv) p.channel_id sid p.client_type p.public_key
            (some c.client_ip) srv.manager

      by_result : (r : JoinResult) → x.1 ≡ r → Proceeds sid 3 (ask_manager cfg t sid c p srv)
      by_result (failure e) q =
          rw (q, ask_manager)
            (give_up-Proceeds p (AckResponse.refused_join e) (set_manager x.0 srv))
      by_result (success res) q =
          rw (q, ask_manager)
            (if_either (Proceeds sid 3) res.terminated _ _
              (λ _. give_up-Proceeds p (AckResponse.joined tombstone_reply) (set_manager x.0 srv))
              (λ _. seat_socket-Proceeds p res (set_manager x.0 srv)))

  leave_again-Proceeds :
      (p : PendingJoin) (srv : RelayServer) → Proceeds sid 2 (leave_again sid c p srv)
  unfolding leave_again
  leave_again-Proceeds p srv =
      if_either (Proceeds sid 2) p.joined_room _ _
        (λ _.
          proceeds 2 (set_stage (recovering failed_join) c) srv (exits sid p.channel_id ∷ [])
            (inr (omega arith, omega arith, refl)))
        (λ _. answer-Proceeds 2 failed_join srv)

  -- When the room that a join waits for is entered or left, and also when that throws, the join ends
  -- with exactly one answer and its flag cleared, or it has not answered and waits for a room with
  -- fewer to come: so it ends after three rooms at most.
  pub join-Proceeds :
      (srv : RelayServer)
      → 0 < waits c.stage
      → Proceeds sid (waits c.stage) (resume_join cfg t sid c srv)
        × Proceeds sid (waits c.stage) (fail_join t sid c srv)
  unfolding resume_join fail_join
  join-Proceeds srv h = by_stage c.stage h
    where
      by_stage :
          (stage : JoinStage)
          → 0 < waits stage
          → Proceeds sid (waits stage) (elim stage [
            | no_join ↦ (srv, [])
            | entering p ↦ ask_manager cfg t sid c p srv
            | leaving p res ↦ settle sid c p res srv
            | answering p r ↦ answer sid c r srv
            | recovering r ↦ answer sid c r srv
          ])
            × Proceeds sid (waits stage) (elim stage [
              | no_join ↦ (srv, [])
              | entering p ↦ answer sid c failed_join srv
              | leaving p res ↦
                  leave_again sid c p (set_manager (leave t.now sid p.channel_id srv.manager).0 srv)
              | answering p r ↦ leave_again sid c p srv
              | recovering r ↦ answer sid c r srv
            ])
      by_stage no_join k = omega (arith, k)
      by_stage (entering p) k = (ask_manager-Proceeds p srv, answer-Proceeds 3 failed_join srv)
      by_stage (leaving p res) k = (settle-Proceeds 2 p res srv, leave_again-Proceeds p _)
      by_stage (answering p r) k = (answer-Proceeds 2 r srv, leave_again-Proceeds p srv)
      by_stage (recovering r) k = (answer-Proceeds 1 r srv, answer-Proceeds 1 r srv)
