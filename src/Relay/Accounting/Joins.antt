-- ===== src/Relay/Accounting/Joins.antt =====
-- ChannelManager.join keeps the ledger.
use myqrlwallet_backend.Prelude.{
  ℕ, suc, ◌<◌, ◌≡◌, refl, inl, inr, String, Option, none, some, List, [], ◌∷◌, sum_by, sum_to,
  sum_to_outside, keep_if, arith, All, Dict.Dict, Option-cases,
}
use myqrlwallet_backend.Prelude.Dict
use myqrlwallet_backend.Relay.Types.{
  ClientType, BufferedMessage, DirectDeliveryReservation, ChannelManager, Setup, World, modify,
}
use myqrlwallet_backend.Relay.Ledger.{release_direct_delivery, finish_reservation}
use myqrlwallet_backend.Relay.Ledger.Laws.{bytes, bytes_from}
use myqrlwallet_backend.Relay.Join.{
  is_for, remove_participant, evict_stale, admit_participant, complete_join, bind_key,
  set_public_key, seat, find_rival, replace_stale, join_channel, create_channel, join_with_key,
  join, KeyResult, key, refused, canonical_public_key,
}
use myqrlwallet_backend.Relay.Accounting.{
  IsBelow, IsLive, reserved_in, IsAccounted, modify-IsAccounted,
}
use myqrlwallet_backend.Relay.Accounting.Reservations.{release_direct-IsAccounted}
use myqrlwallet_backend.Relay.Accounting.Buffers.{
  release_messages_then_set, keep_if-Splits, set_buffer-SetsBuffer,
}

pub release_direct-next_ref :
    (s : String) (m : ChannelManager) → (release_direct_delivery s m).next_ref ≡ m.next_ref
unfolding release_direct_delivery finish_reservation
release_direct-next_ref s m = ground arith

pub get-lt-next_ref :
    (channel_id : String) (m : ChannelManager) {r : ℕ}
    → IsAccounted m
    → Dict.get channel_id m.channels ≡ some r
    → r < m.next_ref
get-lt-next_ref channel_id m a e = Dict.All-get (λ k. k < m.next_ref) channel_id m.channels a.refs e

evict_stale-IsAccounted :
    (r : ℕ) (sid : String) (m : ChannelManager)
    → r < m.next_ref
    → IsAccounted m
    → IsAccounted (evict_stale r sid m)
unfolding evict_stale
evict_stale-IsAccounted r sid m h a =
    release_direct-IsAccounted sid (modify r (remove_participant sid) m)
      (modify-IsAccounted r (remove_participant sid) m (λ c. (refl, refl, refl)) h a)

evict_stale-next_ref :
    (r : ℕ) (sid : String) (m : ChannelManager) → (evict_stale r sid m).next_ref ≡ m.next_ref
unfolding evict_stale
evict_stale-next_ref r sid m = release_direct-next_ref sid (modify r (remove_participant sid) m)

complete_join-IsAccounted :
    (w : World) (r : ℕ) (socket_id : String) (ct : ClientType) (m : ChannelManager)
    → r < m.next_ref
    → IsAccounted m
    → IsAccounted (complete_join w r socket_id ct m).0
unfolding complete_join
complete_join-IsAccounted w r socket_id ct m h a =
    let joined = modify r (admit_participant w.now socket_id ct) m in
    let buffer = (joined.heap r).message_buffer in
    release_messages_then_set r _ _ joined h (set_buffer-SetsBuffer _)
      (modify-IsAccounted r (admit_participant w.now socket_id ct) m (λ c. (refl, refl, refl)) h a)
      (keep_if (is_for ct) buffer) (keep_if-Splits (is_for ct) buffer)

seat-IsAccounted :
    (w : World) (r : ℕ) (socket_id : String) (ct : ClientType) (k : Option String)
    (m : ChannelManager)
    → r < m.next_ref
    → IsAccounted m
    → IsAccounted (seat w r socket_id ct k m).0
unfolding seat bind_key
seat-IsAccounted w r socket_id ct none m h a =
    ground (arith, complete_join-IsAccounted w r socket_id ct m h a)
seat-IsAccounted w r socket_id ct (some k) m h a =
    let bound = modify r (set_public_key (some k)) m in
    ground (
      arith,
      complete_join-IsAccounted w r socket_id ct m h a,
      complete_join-IsAccounted w r socket_id ct bound h
          (modify-IsAccounted r (set_public_key (some k)) m (λ c. (refl, refl, refl)) h a),
    )

join_channel-IsAccounted :
    (w : World) (r : ℕ) (socket_id : String) (ct : ClientType) (k : Option String)
    (m : ChannelManager)
    → r < m.next_ref
    → IsAccounted m
    → IsAccounted (join_channel w r socket_id ct k m).0
unfolding join_channel replace_stale
join_channel-IsAccounted w r socket_id ct k m h a =
    elim (Option-cases (find_rival socket_id ct (m.heap r).participants)) [
      | inl e ↦ ground (arith, e, seat-IsAccounted w r socket_id ct k m h a)
      | inr (sid, e) ↦ ground (
        arith,
        e,
        seat-IsAccounted w r socket_id ct k (evict_stale r sid m)
            (rw (evict_stale-next_ref r sid m) h) (evict_stale-IsAccounted r sid m h a),
      )
    ]

reserved_in_above :
    (bound : ℕ) (ds : Dict DirectDeliveryReservation)
    → All (IsLive bound) ds
    → sum_by (reserved_in bound) ds ≡ 0
unfolding sum_by
reserved_in_above bound [] h = refl
reserved_in_above bound (d ∷ ds) h = ground (arith, reserved_in_above bound ds h.1)

All-IsLive-suc :
    (bound : ℕ) (ds : Dict DirectDeliveryReservation)
    → All (IsLive bound) ds
    → All (IsLive (suc bound)) ds
All-IsLive-suc bound [] h = tt
All-IsLive-suc bound (d ∷ ds) h = (omega arith, All-IsLive-suc bound ds h.1)

All-IsBelow-suc : (bound : ℕ) (cs : Dict ℕ) → All (IsBelow bound) cs → All (IsBelow (suc bound)) cs
All-IsBelow-suc bound [] h = tt
All-IsBelow-suc bound (d ∷ ds) h = (omega arith, All-IsBelow-suc bound ds h.1)

-- A new channel stands at a reference that nothing has named before.
create_channel-IsAccounted :
    (channel_id : String) (now : ℕ) (ip : Option String) (m : ChannelManager)
    → IsAccounted m
    → IsAccounted (create_channel channel_id now ip m)
unfolding create_channel sum_by sum_to
create_channel-IsAccounted channel_id now ip m a =
    let old = m.next_ref in
    let fresh = create_channel channel_id now ip m in
    let same = λ (f : List BufferedMessage → ℕ).
      sum_to_outside old old (λ k. f (m.heap k).message_buffer)
        (λ k. f (fresh.heap k).message_buffer) (λ k ne. ground arith) (omega arith) in
    record {
      buffered = λ k. ground (arith, a.buffered k);
      direct = λ k. ground (arith, a.direct k, reserved_in_above old m.direct_deliveries a.live);
      total = ground (arith, a.total, same bytes);
      total_direct = a.total_direct;
      by_ip = λ jp. ground (arith, a.by_ip jp, same (bytes_from jp));
      live = All-IsLive-suc old m.direct_deliveries a.live;
      refs =
          Dict.All-put (IsBelow (suc old)) channel_id old m.channels (omega arith)
            (All-IsBelow-suc old m.channels a.refs);
      one_each = a.one_each;
      by_ip_distinct = a.by_ip_distinct;
    }

created_bound :
    (channel_id : String) (now : ℕ) (ip : Option String) (m : ChannelManager)
    → m.next_ref < (create_channel channel_id now ip m).next_ref
unfolding create_channel
created_bound channel_id now ip m = omega arith

join_with_key-IsAccounted :
    (s : Setup) (w : World) (channel_id socket_id : String) (ct : ClientType) (k ip : Option String)
    (m : ChannelManager)
    → IsAccounted m
    → IsAccounted (join_with_key s w channel_id socket_id ct k ip m).0
unfolding join_with_key
join_with_key-IsAccounted s w channel_id socket_id ct k ip m a =
    elim (Option-cases (Dict.get channel_id m.channels)) [
      | inl e ↦ ground (
        arith,
        e,
        join_channel-IsAccounted w m.next_ref socket_id ct k (create_channel channel_id w.now ip m)
            (created_bound channel_id w.now ip m)
            (create_channel-IsAccounted channel_id w.now ip m a),
      )
      | inr (r, e) ↦ ground (
        arith,
        e,
        join_channel-IsAccounted w r socket_id ct k m (get-lt-next_ref channel_id m a e) a,
      )
    ]

pub join-IsAccounted :
    (s : Setup) (w : World) (channel_id socket_id : String) (ct : ClientType)
    (text ip : Option String) (m : ChannelManager)
    → IsAccounted m
    → IsAccounted (join s w channel_id socket_id ct text ip m).0
unfolding join
join-IsAccounted s w channel_id socket_id ct text ip m a =
    by_key (canonical_public_key s ct text) refl
  where
    by_key :
        (k : KeyResult)
        → canonical_public_key s ct text ≡ k
        → IsAccounted (join s w channel_id socket_id ct text ip m).0
    by_key (refused e) q = rw (q, join) a
    by_key (key k) q = rw (q, join) (join_with_key-IsAccounted s w channel_id socket_id ct k ip m a)
