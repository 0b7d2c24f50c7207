-- ===== src/Relay/Messages/Replay.antt =====
-- Replay protection of routeMessage.
use myqrlwallet_backend.Prelude.{
  ℕ, ◌≤◌, ◌≡◌, ap, ◌∙◌, String, true, false, none, some, List, All, arith, eq_refl, Dict.Dict,
}
use myqrlwallet_backend.Prelude.Dict
use myqrlwallet_backend.Relay.Types.{
  same_type, Participant, BufferedMessage, RelayPayload, ChannelManager, Setup, World,
  replay_rejected, RouteResult, modify,
}
use myqrlwallet_backend.Relay.Route.{refuse, is_replay, touch, route_accepted, route_message}
use myqrlwallet_backend.Relay.Run.{Call, run}
use myqrlwallet_backend.Relay.Messages.{noted, Routed}
use myqrlwallet_backend.Relay.Messages.Cases.{
  Sound, Outcome, missing, ended, stranger, mistyped, replayed, unserializable, over, direct,
  buffered,
}
use myqrlwallet_backend.Relay.Messages.Outcomes.{route_message-Outcome}
use myqrlwallet_backend.Relay.Messages.Held.{Holds, IsTraffic, run-Holds}

-- A message of a seated member whose number is not above the one on record is rejected.
old_seq_rejected :
    (s : Setup) (w : World) (channel_id sender : String) (payload : RelayPayload) (ip : String)
    (m : ChannelManager) (r k n : ℕ) (p : Participant)
    → Dict.get channel_id m.channels ≡ some r
    → (m.heap r).terminated ≡ false
    → Dict.get sender (m.heap r).participants ≡ some p
    → same_type payload.client_type p.client_type ≡ true
    → Dict.get sender (m.heap r).seq_numbers ≡ some n
    → payload.seq ≡ some k
    → k ≤ n
    → route_message s w channel_id sender payload ip m
      ≡ (modify r (touch w.now) m, refuse none replay_rejected)
unfolding route_message route_accepted is_replay
old_seq_rejected s w channel_id sender payload ip m r k n p e live f same last q h = ground arith

-- An accepted message with a number leaves that number on record.
accepted-Holds :
    (s : Setup) (w : World) (channel_id sender : String) (payload : RelayPayload) (ip : String)
    (n : ℕ) (m x : ChannelManager) (res : RouteResult)
    → Outcome s w channel_id sender payload ip m x res
    → res.error ≡ none
    → payload.seq ≡ some n
    → Holds channel_id sender payload.client_type n x
accepted-Holds s w id sender payload ip n m x res o ok q = by_outcome o
  where
    accepted :
        (r size : ℕ) (p : Participant) (buffer : List BufferedMessage)
        → Sound s id sender payload m r p size
        → Routed w.now r sender payload.seq buffer m x
        → Holds id sender payload.client_type n x
    accepted r size p buffer sound f = record {
      at = r;
      last = n;
      member = p;
      found = ap (Dict.get id) f.channels ∙ sound.seated.found;
      live = f.terminated ∙ sound.seated.live;
      joined = ap (Dict.get sender) f.participants ∙ sound.seated.member;
      typed = sound.seated.typed;
      recorded =
          ap (Dict.get sender) (f.seq_numbers ∙ ap (λ k. noted sender k (m.heap r).seq_numbers) q)
          ∙ Dict.get-put sender sender n (m.heap r).seq_numbers
          ∙ ground (arith, eq_refl sender);
      reached = omega arith;
    }

    by_outcome : Outcome s w id sender payload ip m x res → Holds id sender payload.client_type n x
    by_outcome (missing _ e _) = ground (arith, e, ok)
    by_outcome (ended _ _ _ e _) = ground (arith, e, ok)
    by_outcome (stranger _ _ _ _ e _) = ground (arith, e, ok)
    by_outcome (mistyped _ _ _ _ _ _ e _) = ground (arith, e, ok)
    by_outcome (replayed _ _ _ _ _ _ _ _ e _) = ground (arith, e, ok)
    by_outcome (unserializable _ _ _ _ _ e _) = ground (arith, e, ok)
    by_outcome (over _ _ _ _ _ _ _ e _) = ground (arith, e, ok)
    by_outcome (direct r p size _ sound _ _ _ f _) = accepted r size p _ sound f
    by_outcome (buffered r p size sound _ _ _ f _) = accepted r size p _ sound f

-- Once a numbered message of a socket is accepted, any run of further calls may follow that are
-- messages of any socket on any channel, releases and advances of deliveries, and departures of other
-- sockets. After it, a message of that socket and type on that channel whose number is no larger is
-- rejected as a replay, whatever its content, address and time, and changes the channel's time of
-- activity only. Joins, closes, cleanups and the departure of the socket itself are excluded.
pub accepted_seq_not_replayed :
    (s : Setup) (w later : World) (channel_id sender : String) (payload again : RelayPayload)
    (ip jp : String) (m : ChannelManager) (cs : List (World × Call)) (n k : ℕ)
    → (route_message s w channel_id sender payload ip m).1.error ≡ none
    → payload.seq ≡ some n
    → All (IsTraffic sender) cs
    → again.seq ≡ some k
    → k ≤ n
    → again.client_type ≡ payload.client_type
    → let m' = run s cs (route_message s w channel_id sender payload ip m).0 in
      (r : ℕ) × (Dict.get channel_id m'.channels ≡ some r)
      × (route_message s later channel_id sender again jp m'
          ≡ (modify r (touch later.now) m', refuse none replay_rejected))
accepted_seq_not_replayed s w later channel_id sender payload again ip jp m cs n k ok q traffic q' h
      same =
    let x = route_message s w channel_id sender payload ip m in
    let m' = run s cs x.0 in
    let held = run-Holds channel_id sender payload.client_type n s cs x.0 traffic (
      accepted-Holds s w channel_id sender payload ip n m x.0 x.1
        (route_message-Outcome s w channel_id sender payload ip m) ok q) in
    (
      held.at,
      held.found,
      old_seq_rejected s later channel_id sender again jp m' held.at k held.last held.member
          held.found held.live held.joined
          (ap (λ ct. same_type ct held.member.client_type) same ∙ held.typed) held.recorded q'
          (omega (arith, h, held.reached)),
    )
