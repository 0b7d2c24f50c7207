-- ===== src/Relay/Admission.antt =====
-- What `join` promises: buffered messages, key binding, active sockets, and failed joins.
pub mod Joined
use myqrlwallet_backend.Prelude.{
  ℕ, ◌+◌, ◌-◌, ◌≡◌, ◌≢◌, ◌⊎◌, refl, sym, ap, ◌∙◌, subst, inl, inr, String, Bool, true, false, not,
  Option, none, some, List, [], ◌∷◌, ◌==◌, str_eq, if◌then◌else◌, update, keep_if, is_some, arith,
  eq_iff, Dict.Dict, Option-cases, Bool-cases,
}
use myqrlwallet_backend.Prelude.Dict
use myqrlwallet_backend.Relay.Types.{
  ClientType, dapp, wallet, same_type, Channel, Participant, BufferedMessage, RelayPayload,
  DirectDeliveryReservation, ChannelManager, Setup, World, JoinError, key_required, type_changed,
  channel_full, key_mismatch, too_many_channels, already_connected, JoinSuccess, JoinResult,
  success, failure, modify,
}
use myqrlwallet_backend.Relay.Ledger.{release_messages, finish_reservation, release_direct_delivery}
use myqrlwallet_backend.Relay.Join.{
  remove_participant, evict_stale, admit_participant, changes_type, find_rival, set_buffer, is_for,
  payloads, roster, set_public_key, complete_join, bind_key, is_full, seat, replace_stale,
  lacks_key, join_channel, create_channel, new_channel, over_channel_quota, join_with_key, join,
  KeyResult, key, refused, canonical_public_key, tombstone_reply,
}
use myqrlwallet_backend.Relay.Channels.{release_messages-heap}
use myqrlwallet_backend.Relay.Channels.Joining.{heap_here, rival-ne, evict_stale-heap}

-- What a join keeps of the manager whether it fails or not.
pub record SameChannels (m n : ChannelManager) : Type 0 where
  pub channels : n.channels ≡ m.channels
  pub next_ref : n.next_ref ≡ m.next_ref
  pub terminated_order : n.terminated_order ≡ m.terminated_order

same_self : (m : ChannelManager) → SameChannels m m
same_self m = record { channels = refl; next_ref = refl; terminated_order = refl }

evict_stale-SameChannels :
    (r : ℕ) (sid : String) (m : ChannelManager) → SameChannels m (evict_stale r sid m)
unfolding evict_stale release_direct_delivery finish_reservation
evict_stale-SameChannels r sid m = record {
  channels = ground arith;
  next_ref = ground arith;
  terminated_order = ground arith;
}

complete_join-ne-failure :
    (w : World) (r : ℕ) (sid : String) (ct : ClientType) (m : ChannelManager) (e : JoinError)
    → (complete_join w r sid ct m).1 ≢ failure e
unfolding complete_join
complete_join-ne-failure w r sid ct m e q = cc

seat-failure :
    (w : World) (r : ℕ) (sid : String) (ct : ClientType) (k : Option String) (m : ChannelManager)
    (e : JoinError)
    → (seat w r sid ct k m).1 ≡ failure e
    → (seat w r sid ct k m).0 ≡ m
unfolding seat
seat-failure w r sid ct k m e q = elim (Bool-cases (is_full sid (m.heap r))) [
  | inl full ↦ ground (arith, full)
  | inr room ↦ elim (Option-cases (bind_key k r m)) [
    | inl other ↦ ground (arith, room, other)
    | inr (bound, fits) ↦
        absurd (complete_join-ne-failure w r sid ct bound e (ground (arith, room, fits)))
  ]
]

-- A refused join on a live channel.
join_channel-failure :
    (w : World) (r : ℕ) (sid : String) (ct : ClientType) (k : Option String) (m : ChannelManager)
    (e : JoinError)
    → (join_channel w r sid ct k m).1 ≡ failure e
    → SameChannels m (join_channel w r sid ct k m).0
unfolding join_channel replace_stale
join_channel-failure w r sid ct k m e q =
    elim (Option-cases (find_rival sid ct (m.heap r).participants)) [
      | inl f ↦
          let kept = seat-failure w r sid ct k m e in
          record {
            channels = ground (arith, f, kept);
            next_ref = ground (arith, f, kept);
            terminated_order = ground (arith, f, kept);
          }
      | inr (rival, f) ↦
          let m' = evict_stale r rival m in
          let kept = seat-failure w r sid ct k m' e in
          let same = evict_stale-SameChannels r rival m in
          record {
            channels = ground (arith, f, kept, same.channels);
            next_ref = ground (arith, f, kept, same.next_ref);
            terminated_order = ground (arith, f, kept, same.terminated_order);
          }
    ]

-- The first join of a new channel succeeds.
new_channel-joined :
    (w : World) (channel_id sid : String) (ct : ClientType) (k ip : Option String)
    (m : ChannelManager) (e : JoinError)
    → (join_channel w m.next_ref sid ct k (create_channel channel_id w.now ip m)).1 ≢ failure e
unfolding join_channel replace_stale find_rival seat is_full bind_key create_channel Dict.get
new_channel-joined w channel_id sid ct none ip m e q =
    let made = create_channel channel_id w.now ip m in
    ground (arith, complete_join-ne-failure w m.next_ref sid ct made e)
new_channel-joined w channel_id sid ct (some k) ip m e q =
    let made = create_channel channel_id w.now ip m in
    ground (
      arith,
      complete_join-ne-failure w m.next_ref sid ct
          (modify m.next_ref (set_public_key (some k)) made) e,
    )

join_with_key-failure :
    (s : Setup) (w : World) (channel_id sid : String) (ct : ClientType) (k ip : Option String)
    (m : ChannelManager) (e : JoinError)
    → (join_with_key s w channel_id sid ct k ip m).1 ≡ failure e
    → SameChannels m (join_with_key s w channel_id sid ct k ip m).0
unfolding join_with_key
join_with_key-failure s w channel_id sid ct k ip m e q =
    elim (Option-cases (Dict.get channel_id m.channels)) [
      | inl f ↦ elim (Bool-cases (over_channel_quota s ip m)) [
        | inl over ↦ rw (f, over, join_with_key) (same_self m)
        | inr under ↦
            absurd (new_channel-joined w channel_id sid ct k ip m e (ground (arith, f, under)))
      ]
      | inr (r, f) ↦ elim (Bool-cases (m.heap r).terminated) [
        | inl dead ↦ rw (f, dead, join_with_key) (same_self m)
        | inr live ↦
            rw (f, live, join_with_key)
              (join_channel-failure w r sid ct k m e (ground (arith, f, live)))
      ]
    ]

-- A join that fails, for whatever reason, makes no channel and removes none: the map of channels,
-- the references given out and the queue of tombstones stay as they are.
pub join_failure :
    (s : Setup) (w : World) (channel_id sid : String) (ct : ClientType) (text ip : Option String)
    (m : ChannelManager) (e : JoinError)
    → (join s w channel_id sid ct text ip m).1 ≡ failure e
    → SameChannels m (join s w channel_id sid ct text ip m).0
unfolding join
join_failure s w channel_id sid ct text ip m e q = by_key (canonical_public_key s ct text) refl
  where
    by_key :
        (k : KeyResult)
        → canonical_public_key s ct text ≡ k
        → SameChannels m (join s w channel_id sid ct text ip m).0
    by_key (refused x) p = rw (p, join) (same_self m)
    by_key (key k) p =
        rw (p, join) (join_with_key-failure s w channel_id sid ct k ip m e (rw (p, join) at q))
