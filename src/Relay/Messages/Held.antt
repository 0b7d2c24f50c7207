-- ===== src/Relay/Messages/Held.antt =====
-- While a sender keeps its seat, its sequence numbers only grow.
use native.Mathlib.Decide.{ℕ_discrete}
use myqrlwallet_backend.Prelude.{
  ℕ, ◌≤◌, ◌<◌, ◌≡◌, ◌≢◌, refl, sym, ap, str_eq, ◌∙◌, subst, inl, inr, String, true, false, Option,
  none, some, List, [], ◌∷◌, All, arith, eq_iff, Dict.Dict, Option-cases, Bool-cases,
}
use myqrlwallet_backend.Prelude.Dict
use myqrlwallet_backend.Relay.Types.{
  ClientType, same_type, Channel, Participant, BufferedMessage, RelayPayload, ChannelManager, Setup,
  World, RouteResult,
}
use myqrlwallet_backend.Relay.Ledger.{release_direct_delivery}
use myqrlwallet_backend.Relay.Lifecycle.{leave}
use myqrlwallet_backend.Relay.Route.{advance_direct_delivery, route_message}
use myqrlwallet_backend.Relay.Run.{
  Call, joins, closes, leaves, routes, releases, advances, cleans, step, run,
}
use myqrlwallet_backend.Relay.Messages.{Routed, IsFresh, noted}
use myqrlwallet_backend.Relay.Messages.Kept.{Kept, touch-Kept, release-Kept, advance_in-Kept}
use myqrlwallet_backend.Relay.Messages.Cases.{
  Outcome, missing, ended, stranger, mistyped, replayed, unserializable, over, direct, buffered,
}
use myqrlwallet_backend.Relay.Messages.Outcomes.{route_message-Outcome}

-- A sender's seat in a live channel, and a number on record that is not below the given one.
pub record Holds (channel_id sender : String) (ct : ClientType) (n : ℕ) (m : ChannelManager)
    : Type 0 where
  pub at : ℕ
  pub last : ℕ
  pub member : Participant
  pub found : Dict.get channel_id m.channels ≡ some at
  pub live : (m.heap at).terminated ≡ false
  pub joined : Dict.get sender (m.heap at).participants ≡ some member
  pub typed : same_type ct member.client_type ≡ true
  pub recorded : Dict.get sender (m.heap at).seq_numbers ≡ some last
  pub reached : n ≤ last

-- Messages of any socket on any channel, deliveries that are released or advanced, and departures of
-- other sockets than the sender.
abbrev pub IsTraffic : String → World × Call → Type 0
IsTraffic sender (w, routes _ _ _ _) = Unit
IsTraffic sender (w, releases _) = Unit
IsTraffic sender (w, advances _) = Unit
IsTraffic sender (w, leaves sid _) = sid ≢ sender
IsTraffic sender (w, _) = ⊥

module _ (channel_id sender : String) (ct : ClientType) (n : ℕ) where
  abbrev HoldsIn : ChannelManager → Type 0
  HoldsIn m = Holds channel_id sender ct n m

  Holds-Kept : (m x : ChannelManager) → Kept m x → HoldsIn m → HoldsIn x
  Holds-Kept m x k h = record {
    at = h.at;
    last = h.last;
    member = h.member;
    found = ap (Dict.get channel_id) k.channels ∙ h.found;
    live = k.live h.at ∙ h.live;
    joined = ap (Dict.get sender) (k.seats h.at) ∙ h.joined;
    typed = h.typed;
    recorded = ap (Dict.get sender) (k.numbers h.at) ∙ h.recorded;
    reached = h.reached;
  }

  advance-Holds :
      (sid : String) (m : ChannelManager) → HoldsIn m → HoldsIn (advance_direct_delivery sid m).0
  unfolding advance_direct_delivery
  advance-Holds sid m h = elim (Option-cases (Dict.get sid m.direct_deliveries)) [
    | inl q ↦ rw (q, advance_direct_delivery) h
    | inr (res, q) ↦
        rw (q, advance_direct_delivery)
          (Holds-Kept (release_direct_delivery sid m) _
            (advance_in-Kept sid res.channel (Dict.get sid (m.heap res.channel).participants)
              (release_direct_delivery sid m))
            (Holds-Kept m _ (release-Kept sid m) h))
  ]

  -- A number that is put on record takes the place of a smaller one.
  recorded_number :
      (other : String) (seq : Option ℕ) (last : ℕ) (numbers : Dict ℕ)
      → Dict.get sender numbers ≡ some last
      → IsFresh seq (Dict.get other numbers)
      → n ≤ last
      → (after : Dict ℕ) → after ≡ noted other seq numbers
      → (next : ℕ) × (Dict.get sender after ≡ some next) × (n ≤ next)
  recorded_number other none last numbers q fresh h after e = (last, ap (Dict.get sender) e ∙ q, h)
  recorded_number other (some k) last numbers q fresh h after e =
      let placed = ap (Dict.get sender) e ∙ Dict.get-put other sender k numbers in
      elim (Bool-cases (str_eq other sender)) [
        | inl same ↦
            let is_same : other ≡ sender = ground (arith, eq_iff other sender, same) in
            let below : last < k = fresh k last refl (ap (λ x. Dict.get x numbers) is_same ∙ q) in
            (k, ground (arith, placed, same), omega (arith, h, below))
        | inr differs ↦ (last, ground (arith, placed, differs, q), h)
      ]

  Routed-Holds :
      (now r : ℕ) (other : String) (seq : Option ℕ) (buffer : List BufferedMessage)
      (m x : ChannelManager)
      → Routed now r other seq buffer m x
      → IsFresh seq (Dict.get other (m.heap r).seq_numbers)
      → HoldsIn m
      → HoldsIn x
  Routed-Holds now r other seq buffer m x f fresh h = elim (ℕ_discrete h.at r) [
    | yes e ↦
        let (next, q, reached) =
          recorded_number other seq h.last (m.heap r).seq_numbers
            (subst (λ k. Dict.get sender (m.heap k).seq_numbers ≡ some h.last) e h.recorded) fresh
            h.reached (x.heap r).seq_numbers (f.seq_numbers) in
        record {
          at = r;
          last = next;
          member = h.member;
          found = ap (Dict.get channel_id) f.channels ∙ h.found ∙ ap some e;
          live = f.terminated ∙ subst (λ k. (m.heap k).terminated ≡ false) e h.live;
          joined =
              ap (Dict.get sender) f.participants
              ∙ subst (λ k. Dict.get sender (m.heap k).participants ≡ some h.member) e h.joined;
          typed = h.typed;
          recorded = q;
          reached = reached;
        }
    | no ne ↦
        let same = f.others h.at ne in
        record {
          at = h.at;
          last = h.last;
          member = h.member;
          found = ap (Dict.get channel_id) f.channels ∙ h.found;
          live = ap (λ (c : Channel). c.terminated) same ∙ h.live;
          joined = ap (λ (c : Channel). Dict.get sender c.participants) same ∙ h.joined;
          typed = h.typed;
          recorded = ap (λ (c : Channel). Dict.get sender c.seq_numbers) same ∙ h.recorded;
          reached = h.reached;
        }
  ]

  Outcome-Holds :
      (s : Setup) (w : World) (id other : String) (payload : RelayPayload) (ip : String)
      (m x : ChannelManager) (res : RouteResult)
      → Outcome s w id other payload ip m x res
      → HoldsIn m
      → HoldsIn x
  Outcome-Holds s w id other payload ip m x res (missing _ _ e) h = subst HoldsIn (sym e) h
  Outcome-Holds s w id other payload ip m x res (ended _ _ _ _ e) h = subst HoldsIn (sym e) h
  Outcome-Holds s w id other payload ip m x res (stranger _ _ _ _ _ e) h = subst HoldsIn (sym e) h
  Outcome-Holds s w id other payload ip m x res (mistyped _ _ _ _ _ _ _ e) h =
      subst HoldsIn (sym e) h
  Outcome-Holds s w id other payload ip m x res (replayed r _ _ _ _ _ _ _ _ e) h =
      subst HoldsIn (sym e) (Holds-Kept m _ (touch-Kept r w.now m) h)
  Outcome-Holds s w id other payload ip m x res (unserializable r _ _ _ _ _ e) h =
      subst HoldsIn (sym e) (Holds-Kept m _ (touch-Kept r w.now m) h)
  Outcome-Holds s w id other payload ip m x res (over r _ _ _ _ _ _ _ e) h =
      subst HoldsIn (sym e) (Holds-Kept m _ (touch-Kept r w.now m) h)
  Outcome-Holds s w id other payload ip m x res (direct r _ _ _ sound _ _ _ f _) h =
      Routed-Holds w.now r other payload.seq (m.heap r).message_buffer m x f sound.fresh h
  Outcome-Holds s w id other payload ip m x res (buffered r _ _ sound _ _ _ f _) h =
      Routed-Holds w.now r other payload.seq _ m x f sound.fresh h

  leave-Holds :
      (now : ℕ) (sid id : String) (m : ChannelManager)
      → sid ≢ sender
      → HoldsIn m
      → HoldsIn (leave now sid id m).0
  unfolding leave
  leave-Holds now sid id m ne h = elim (Option-cases (Dict.get id m.channels)) [
    | inl q ↦ rw (q, leave) h
    | inr (r, q) ↦ elim (Option-cases (Dict.get sid (m.heap r).participants)) [
      | inl p ↦ rw (q, p, leave) h
      | inr (p, e) ↦
          rw (q, e, leave)
            (record {
              at = h.at;
              last = h.last;
              member = h.member;
              found = h.found;
              live = ground (arith, h.live);
              joined =
                  ground
                    (arith, h.joined, Dict.get-delete_ne sid sender (m.heap h.at).participants ne);
              typed = h.typed;
              recorded =
                  ground
                    (arith, h.recorded, Dict.get-delete_ne sid sender (m.heap h.at).seq_numbers ne);
              reached = h.reached;
            })
    ]
  ]

  step-Holds :
      (s : Setup) (c : World × Call) (m : ChannelManager)
      → IsTraffic sender c
      → HoldsIn m
      → HoldsIn (step s c m)
  unfolding step
  step-Holds s (w, routes id other payload ip) m t h =
      let x = route_message s w id other payload ip m in
      Outcome-Holds s w id other payload ip m x.0 x.1
        (route_message-Outcome s w id other payload ip m) h
  step-Holds s (w, releases sid) m t h = Holds-Kept m _ (release-Kept sid m) h
  step-Holds s (w, advances sid) m t h = advance-Holds sid m h
  step-Holds s (w, joins _ _ _ _ _) m t h = absurd t
  step-Holds s (w, closes _) m t h = absurd t
  step-Holds s (w, leaves sid id) m t h = leave-Holds w.now sid id m t h
  step-Holds s (w, cleans) m t h = absurd t

  pub run-Holds :
      (s : Setup) (cs : List (World × Call)) (m : ChannelManager)
      → All (IsTraffic sender) cs
      → HoldsIn m
      → HoldsIn (run s cs m)
  unfolding run
  run-Holds s [] m t h = h
  run-Holds s (c ∷ cs) m t h = run-Holds s cs (step s c m) t.1 (step-Holds s c m t.0 h)
