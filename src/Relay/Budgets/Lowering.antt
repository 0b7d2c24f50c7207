-- ===== src/Relay/Budgets/Lowering.antt =====
-- The calls that never raise a byte counter: all but routeMessage and advanceDirectDelivery.
use myqrlwallet_backend.Prelude.{
  ℕ, ◌≤◌, ◌≡◌, refl, inl, inr, String, not, Option, none, some, List, keep_if, arith, Dict.Dict,
  Option-cases,
}
use myqrlwallet_backend.Prelude.Dict
use myqrlwallet_backend.Relay.Types.{
  ClientType, Channel, BufferedMessage, DirectDeliveryReservation, ChannelManager, Setup, World,
  modify,
}
use myqrlwallet_backend.Relay.Ledger.{
  ip_bytes, release_direct_delivery, finish_reservation, release_messages, release_buffered_bytes,
}
use myqrlwallet_backend.Relay.Ledger.Laws.{
  Releases, release_messages-Releases, release_buffered_bytes-Releases, ip_bytes-release,
  release_ip-IsDistinct,
}
use myqrlwallet_backend.Relay.Join.{
  set_buffer, is_for, remove_participant, evict_stale, admit_participant, complete_join, bind_key,
  set_public_key, seat, find_rival, replace_stale, join_channel, create_channel, join_with_key,
  join, KeyResult, key, refused, canonical_public_key,
}
use myqrlwallet_backend.Relay.Budgets.{Lowered, Lowers, Lowers-trans, Lowers-refl}

abbrev pub KeepsCounts : (Channel → Channel) → Type 0
KeepsCounts f =
    (c : Channel)
    → ((f c).buffered_bytes ≡ c.buffered_bytes)
      × ((f c).direct_inflight_bytes ≡ c.direct_inflight_bytes)

pub modify-Lowers :
    (r : ℕ) (f : Channel → Channel) (m : ChannelManager) → KeepsCounts f → Lowers m (modify r f m)
modify-Lowers r f m keeps d = record {
  channel = λ k. ground (arith, keeps (m.heap r));
  ip = λ jp. omega arith;
  global = omega arith;
  distinct = d;
}

pub Releases-Lowered :
    (r n : ℕ) (from : String → ℕ) (m m' : ChannelManager) → Releases r n from m m' → Lowered m m'
Releases-Lowered r n from m m' rel = record {
  channel = λ k. ground (arith, rel.here, rel.others k);
  ip = λ jp. omega (arith, rel.by_ip jp);
  global = omega (arith, rel.total, rel.elsewhere.total_direct);
  distinct = rel.distinct;
}

pub release_messages-Lowers :
    (r : ℕ) (msgs : List BufferedMessage) (m : ChannelManager)
    → Lowers m (release_messages r msgs m)
release_messages-Lowers r msgs m d =
    Releases-Lowered r _ _ m _ (release_messages-Releases r msgs m d)

pub release_buffered_bytes-Lowers :
    (r : ℕ) (msg : BufferedMessage) (m : ChannelManager) → Lowers m (release_buffered_bytes r msg m)
release_buffered_bytes-Lowers r msg m d =
    Releases-Lowered r _ _ m _ (release_buffered_bytes-Releases r msg m d)

finish-ip-le :
    (s : String) (res : DirectDeliveryReservation) (m : ChannelManager) (jp : String)
    → Dict.IsDistinct m.buffered_bytes_by_ip
    → ip_bytes jp (finish_reservation s res m) ≤ ip_bytes jp m
unfolding finish_reservation
finish-ip-le s res m jp d = omega (arith, ip_bytes-release res.source_ip jp res.size_bytes m d)

finish-Lowers :
    (s : String) (res : DirectDeliveryReservation) (m : ChannelManager)
    → Lowers m (finish_reservation s res m)
unfolding finish_reservation
finish-Lowers s res m d = record {
  channel = λ k. ground arith;
  ip = λ jp. finish-ip-le s res m jp d;
  global = omega arith;
  distinct = release_ip-IsDistinct res.source_ip res.size_bytes m d;
}

pub release_direct-Lowers :
    (s : String) (m : ChannelManager) → Lowers m (release_direct_delivery s m)
unfolding release_direct_delivery
release_direct-Lowers s m = elim (Option-cases (Dict.get s m.direct_deliveries)) [
  | inl e ↦ rw (e, release_direct_delivery) (Lowers-refl m)
  | inr (res, e) ↦ rw (e, release_direct_delivery) (finish-Lowers s res m)
]

evict_stale-Lowers : (r : ℕ) (sid : String) (m : ChannelManager) → Lowers m (evict_stale r sid m)
unfolding evict_stale
evict_stale-Lowers r sid m =
    Lowers-trans m _ _ (modify-Lowers r (remove_participant sid) m (λ c. (refl, refl)))
      (release_direct-Lowers sid (modify r (remove_participant sid) m))

-- Messages are released and the channel is changed otherwise.
pub release_and_modify-Lowers :
    (r : ℕ) (msgs : List BufferedMessage) (f : Channel → Channel) (m : ChannelManager)
    → KeepsCounts f
    → Lowers m (modify r f (release_messages r msgs m))
release_and_modify-Lowers r msgs f m keeps =
    Lowers-trans m _ _ (release_messages-Lowers r msgs m)
      (modify-Lowers r f (release_messages r msgs m) keeps)

complete_join-Lowers :
    (w : World) (r : ℕ) (socket_id : String) (ct : ClientType) (m : ChannelManager)
    → Lowers m (complete_join w r socket_id ct m).0
unfolding complete_join
complete_join-Lowers w r socket_id ct m =
    let joined = modify r (admit_participant w.now socket_id ct) m in
    let buffer = (joined.heap r).message_buffer in
    let rest = keep_if (λ msg. not (is_for ct msg)) buffer in
    Lowers-trans m joined _
      (modify-Lowers r (admit_participant w.now socket_id ct) m (λ c. (refl, refl)))
      (release_and_modify-Lowers r (keep_if (is_for ct) buffer) (set_buffer rest) joined
        (λ c. (refl, refl)))

seat-Lowers :
    (w : World) (r : ℕ) (socket_id : String) (ct : ClientType) (k : Option String)
    (m : ChannelManager)
    → Lowers m (seat w r socket_id ct k m).0
unfolding seat bind_key
seat-Lowers w r socket_id ct none m =
    ground (arith, complete_join-Lowers w r socket_id ct m, Lowers-refl m)
seat-Lowers w r socket_id ct (some k) m =
    let bound = modify r (set_public_key (some k)) m in
    ground (
      arith,
      Lowers-refl m,
      complete_join-Lowers w r socket_id ct m,
      Lowers-trans m bound (complete_join w r socket_id ct bound).0
          (modify-Lowers r (set_public_key (some k)) m (λ c. (refl, refl)))
          (complete_join-Lowers w r socket_id ct bound),
    )

join_channel-Lowers :
    (w : World) (r : ℕ) (socket_id : String) (ct : ClientType) (k : Option String)
    (m : ChannelManager)
    → Lowers m (join_channel w r socket_id ct k m).0
unfolding join_channel replace_stale
join_channel-Lowers w r socket_id ct k m =
    elim (Option-cases (find_rival socket_id ct (m.heap r).participants)) [
      | inl e ↦ ground (arith, e, Lowers-refl m, seat-Lowers w r socket_id ct k m)
      | inr (sid, e) ↦ ground (
        arith,
        e,
        Lowers-refl m,
        Lowers-trans m (evict_stale r sid m) (seat w r socket_id ct k (evict_stale r sid m)).0
            (evict_stale-Lowers r sid m) (seat-Lowers w r socket_id ct k (evict_stale r sid m)),
      )
    ]

create_channel-Lowers :
    (channel_id : String) (now : ℕ) (ip : Option String) (m : ChannelManager)
    → Lowers m (create_channel channel_id now ip m)
unfolding create_channel
create_channel-Lowers channel_id now ip m d = record {
  channel = λ k. ground arith;
  ip = λ jp. omega arith;
  global = omega arith;
  distinct = d;
}

join_with_key-Lowers :
    (s : Setup) (w : World) (channel_id socket_id : String) (ct : ClientType) (k ip : Option String)
    (m : ChannelManager)
    → Lowers m (join_with_key s w channel_id socket_id ct k ip m).0
unfolding join_with_key
join_with_key-Lowers s w channel_id socket_id ct k ip m =
    let made = create_channel channel_id w.now ip m in
    elim (Option-cases (Dict.get channel_id m.channels)) [
      | inl e ↦ ground (
        arith,
        e,
        Lowers-refl m,
        Lowers-trans m made (join_channel w m.next_ref socket_id ct k made).0
            (create_channel-Lowers channel_id w.now ip m)
            (join_channel-Lowers w m.next_ref socket_id ct k made),
      )
      | inr (r, e) ↦ ground (arith, e, Lowers-refl m, join_channel-Lowers w r socket_id ct k m)
    ]

pub join-Lowers :
    (s : Setup) (w : World) (channel_id socket_id : String) (ct : ClientType)
    (text ip : Option String) (m : ChannelManager)
    → Lowers m (join s w channel_id socket_id ct text ip m).0
unfolding join
join-Lowers s w channel_id socket_id ct text ip m = by_key (canonical_public_key s ct text) refl
  where
    by_key :
        (k : KeyResult)
        → canonical_public_key s ct text ≡ k
        → Lowers m (join s w channel_id socket_id ct text ip m).0
    by_key (refused e) q = rw (q, join) (Lowers-refl m)
    by_key (key k) q = rw (q, join) (join_with_key-Lowers s w channel_id socket_id ct k ip m)
