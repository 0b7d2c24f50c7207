-- ===== src/Relay/Channels/Closing.antt =====
-- close, leave and cleanup keep a property of channels that the rule admits.
use myqrlwallet_backend.Prelude.{
  ℕ, ◌-◌, ◌≡◌, inl, inr, String, not, List, [], ◌∷◌, ◌++◌, ltb, ◌==◌, if◌then◌else◌, keep_if,
  length, arith, Dict.Dict, Option-cases, Bool-cases,
}
use myqrlwallet_backend.Prelude.Dict
use myqrlwallet_backend.Relay.Types.{Channel, ChannelManager, max_tombstones, modify}
use myqrlwallet_backend.Relay.Ledger.{sub_buffered}
use myqrlwallet_backend.Relay.Join.{remove_participant, set_buffer}
use myqrlwallet_backend.Relay.Lifecycle.{
  terminate, drop_heavy_state, is_tombstone, delete_channel, evict_tombstones, bury, close, depart,
  leave, is_fresh, expire_messages, cleanup_channel, cleanup_channels,
}
use myqrlwallet_backend.Relay.Ledger.Laws.{bytes}
use myqrlwallet_backend.Relay.Channels.{
  release_messages-heap, Rule, Everywhere, modify-Everywhere, release_modify-Everywhere,
}

bury-heap :
    (now r : ℕ) (m : ChannelManager)
    → (n : ℕ) × ((k : ℕ)
        → (bury now r m).heap k ≡ (
            if k == r
            then drop_heavy_state (sub_buffered n (terminate now (m.heap r)))
            else m.heap k))
unfolding bury
bury-heap now r m =
    let marked = modify r (terminate now) m in
    let buffer = (marked.heap r).message_buffer in
    (
      bytes buffer,
      λ k.
          ground (
            arith,
            release_messages-heap r buffer marked k,
            release_messages-heap r buffer marked r,
          ),
    )

module _ (P : Channel → Type 0) (rule : Rule P) where
  bury-Everywhere : (now r : ℕ) (m : ChannelManager) → Everywhere P m → Everywhere P (bury now r m)
  bury-Everywhere now r m all k =
      let (n, heap) = bury-heap now r m in
      let c = drop_heavy_state (terminate now (m.heap r)) in
      elim (Bool-cases (k == r)) [
        | inl e ↦
            rw (heap k, e)
              (rule.counts ((m.heap r).buffered_bytes - n) (m.heap r).direct_inflight_bytes c
                (rule.bury now (m.heap r) (all r)))
        | inr e ↦ rw (heap k, e) (all k)
      ]

  evict_tombstones-Everywhere :
      (order : List String) (m : ChannelManager)
      → Everywhere P m
      → Everywhere P (evict_tombstones order m)
  unfolding evict_tombstones
  evict_tombstones-Everywhere [] m all = all
  evict_tombstones-Everywhere (oldest ∷ order) m all =
      elim (Bool-cases (ltb max_tombstones (length (oldest ∷ order)))) [
        | inl over ↦ rw over (elim (Bool-cases (is_tombstone oldest m)) [
          | inl dead ↦ rw dead (evict_tombstones-Everywhere order (delete_channel oldest m) all)
          | inr other ↦ rw other (evict_tombstones-Everywhere order m all)
        ])
        | inr within ↦ rw within all
      ]

  pub close-Everywhere :
      (now : ℕ) (channel_id : String) (m : ChannelManager)
      → Everywhere P m
      → Everywhere P (close now channel_id m).0
  unfolding close
  close-Everywhere now channel_id m all = elim (Option-cases (Dict.get channel_id m.channels)) [
    | inl e ↦ rw (e, close) all
    | inr (r, e) ↦ ground (
      arith,
      e,
      all,
      evict_tombstones-Everywhere (m.terminated_order ++ channel_id ∷ []) (bury now r m)
          (bury-Everywhere now r m all),
    )
  ]

  pub leave-Everywhere :
      (now : ℕ) (socket_id channel_id : String) (m : ChannelManager)
      → Everywhere P m
      → Everywhere P (leave now socket_id channel_id m).0
  unfolding leave
  leave-Everywhere now socket_id channel_id m all =
      elim (Option-cases (Dict.get channel_id m.channels)) [
        | inl e ↦ rw (e, leave) all
        | inr (r, e) ↦ ground (
          arith,
          e,
          all,
          modify-Everywhere P rule r (depart now socket_id) m
              (rule.activity now (remove_participant socket_id (m.heap r))
                (rule.remove socket_id (m.heap r) (all r)))
              all,
        )
      ]

  expire_messages-Everywhere :
      (now r : ℕ) (m : ChannelManager) → Everywhere P m → Everywhere P (expire_messages now r m)
  unfolding expire_messages
  expire_messages-Everywhere now r m all =
      let buffer = (m.heap r).message_buffer in
      release_modify-Everywhere P rule r (keep_if (λ msg. not (is_fresh now msg)) buffer)
        (set_buffer (keep_if (is_fresh now) buffer)) m
        (λ n.
          rule.counts ((m.heap r).buffered_bytes - n) (m.heap r).direct_inflight_bytes
            (set_buffer (keep_if (is_fresh now) buffer) (m.heap r))
            (rule.filter (is_fresh now) (m.heap r) (all r)))
        all

  pub cleanup_channels-Everywhere :
      (now : ℕ) (es : Dict ℕ) (m : ChannelManager)
      → Everywhere P m
      → Everywhere P (cleanup_channels now es m)
  unfolding cleanup_channels cleanup_channel
  cleanup_channels-Everywhere now [] m all = all
  cleanup_channels-Everywhere now ((channel_id, r) ∷ es) m all =
      cleanup_channels-Everywhere now es (cleanup_channel now channel_id r m)
        (ground (arith, expire_messages-Everywhere now r m all))
