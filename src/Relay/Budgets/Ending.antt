-- ===== src/Relay/Budgets/Ending.antt =====
-- The calls that end channels never raise a byte counter.
use myqrlwallet_backend.Prelude.{
  ℕ, refl, inl, inr, String, not, List, [], ◌∷◌, ◌++◌, ltb, keep_if, length, arith, Dict.Dict,
  Option-cases, Bool-cases,
}
use myqrlwallet_backend.Prelude.Dict
use myqrlwallet_backend.Relay.Types.{ChannelManager, modify, max_tombstones}
use myqrlwallet_backend.Relay.Join.{set_buffer}
use myqrlwallet_backend.Relay.Lifecycle.{
  terminate, drop_heavy_state, is_tombstone, delete_channel, evict_tombstones, bury, close, depart,
  leave, is_fresh, expire_messages, cleanup_channel, cleanup_channels, cleanup,
}
use myqrlwallet_backend.Relay.Budgets.{Lowers, Lowers-trans, Lowers-refl}
use myqrlwallet_backend.Relay.Budgets.Lowering.{modify-Lowers, release_and_modify-Lowers}

bury-Lowers : (now r : ℕ) (m : ChannelManager) → Lowers m (bury now r m)
unfolding bury
bury-Lowers now r m =
    let marked = modify r (terminate now) m in
    Lowers-trans m marked _ (modify-Lowers r (terminate now) m (λ c. (refl, refl))) (
      release_and_modify-Lowers r (marked.heap r).message_buffer drop_heavy_state marked
        (λ c. (refl, refl)))

delete_channel-Lowers :
    (channel_id : String) (m : ChannelManager) → Lowers m (delete_channel channel_id m)
delete_channel-Lowers channel_id m d = record {
  channel = λ r. omega arith;
  ip = λ jp. omega arith;
  global = omega arith;
  distinct = d;
}

order-Lowers :
    (order : List String) (m : ChannelManager) → Lowers m (record m { terminated_order = order })
order-Lowers order m d = record {
  channel = λ r. omega arith;
  ip = λ jp. omega arith;
  global = omega arith;
  distinct = d;
}

evict_tombstones-Lowers :
    (order : List String) (m : ChannelManager) → Lowers m (evict_tombstones order m)
unfolding evict_tombstones
evict_tombstones-Lowers [] m = order-Lowers [] m
evict_tombstones-Lowers (oldest ∷ order) m =
    elim (Bool-cases (ltb max_tombstones (length (oldest ∷ order)))) [
      | inl over ↦ rw over (elim (Bool-cases (is_tombstone oldest m)) [
        | inl dead ↦ rw dead (
            Lowers-trans m (delete_channel oldest m)
              (evict_tombstones order (delete_channel oldest m)) (delete_channel-Lowers oldest m)
              (evict_tombstones-Lowers order (delete_channel oldest m)))
        | inr other ↦ rw other (evict_tombstones-Lowers order m)
      ])
      | inr within ↦ rw within (order-Lowers (oldest ∷ order) m)
    ]

pub close-Lowers :
    (now : ℕ) (channel_id : String) (m : ChannelManager) → Lowers m (close now channel_id m).0
unfolding close
close-Lowers now channel_id m = elim (Option-cases (Dict.get channel_id m.channels)) [
  | inl e ↦ rw (e, close) (Lowers-refl m)
  | inr (r, e) ↦
      let order = m.terminated_order ++ channel_id ∷ [] in
      ground (
        arith,
        e,
        Lowers-refl m,
        Lowers-trans m (bury now r m) (evict_tombstones order (bury now r m)) (bury-Lowers now r m)
            (evict_tombstones-Lowers order (bury now r m)),
      )
]

pub leave-Lowers :
    (now : ℕ) (socket_id channel_id : String) (m : ChannelManager)
    → Lowers m (leave now socket_id channel_id m).0
unfolding leave
leave-Lowers now socket_id channel_id m = elim (Option-cases (Dict.get channel_id m.channels)) [
  | inl e ↦ rw (e, leave) (Lowers-refl m)
  | inr (r, e) ↦
      ground (arith, e, Lowers-refl m, modify-Lowers r (depart now socket_id) m (λ c. (refl, refl)))
]

expire_messages-Lowers : (now r : ℕ) (m : ChannelManager) → Lowers m (expire_messages now r m)
unfolding expire_messages
expire_messages-Lowers now r m =
    let buffer = (m.heap r).message_buffer in
    release_and_modify-Lowers r (keep_if (λ msg. not (is_fresh now msg)) buffer)
      (set_buffer (keep_if (is_fresh now) buffer)) m (λ c. (refl, refl))

cleanup_channel-Lowers :
    (now : ℕ) (channel_id : String) (r : ℕ) (m : ChannelManager)
    → Lowers m (cleanup_channel now channel_id r m)
unfolding cleanup_channel
cleanup_channel-Lowers now channel_id r m =
    let expired = expire_messages now r m in
    ground (
      arith,
      expire_messages-Lowers now r m,
      Lowers-trans m expired (delete_channel channel_id expired) (expire_messages-Lowers now r m)
          (delete_channel-Lowers channel_id expired),
    )

cleanup_channels-Lowers :
    (now : ℕ) (es : Dict ℕ) (m : ChannelManager) → Lowers m (cleanup_channels now es m)
unfolding cleanup_channels
cleanup_channels-Lowers now [] m = Lowers-refl m
cleanup_channels-Lowers now ((channel_id, r) ∷ es) m =
    Lowers-trans m (cleanup_channel now channel_id r m) _
      (cleanup_channel-Lowers now channel_id r m)
      (cleanup_channels-Lowers now es (cleanup_channel now channel_id r m))

pub cleanup-Lowers : (now : ℕ) (m : ChannelManager) → Lowers m (cleanup now m)
unfolding cleanup
cleanup-Lowers now m =
    let m' = cleanup_channels now m.channels m in
    Lowers-trans m m' _ (cleanup_channels-Lowers now m.channels m)
      (order-Lowers (keep_if (λ id. Dict.has id m'.channels) m'.terminated_order) m')
