-- ===== src/Relay/Accounting/Closes.antt =====
-- close, leave and cleanup keep the ledger.
use myqrlwallet_backend.Prelude.{
  ℕ, ◌<◌, ◌≡◌, refl, inl, inr, String, not, List, [], ◌∷◌, ◌++◌, ltb, sum_by, sum_to, keep_if,
  length, arith, All, Dict.Dict, Option-cases, Bool-cases,
}
use myqrlwallet_backend.Prelude.Dict
use myqrlwallet_backend.Relay.Types.{BufferedMessage, ChannelManager, modify, max_tombstones}
use myqrlwallet_backend.Relay.Ledger.Laws.{bytes, bytes_from, release_messages-Releases}
use myqrlwallet_backend.Relay.Lifecycle.{
  new_manager, terminate, drop_heavy_state, is_tombstone, delete_channel, evict_tombstones, bury,
  close, depart, leave, is_fresh, expire_messages, cleanup_channel, cleanup_channels, cleanup,
}
use myqrlwallet_backend.Relay.Accounting.{IsBelow, IsAccounted, modify-IsAccounted}
use myqrlwallet_backend.Relay.Accounting.Buffers.{
  Splits, SetsBuffer, release_messages_then_set, keep_if-Splits_rest, set_buffer-SetsBuffer,
}
use myqrlwallet_backend.Relay.Accounting.Joins.{get-lt-next_ref}

-- All of a buffer is taken.
all-Splits :
    (buffer : List BufferedMessage) → Splits (bytes buffer) (λ ip. bytes_from ip buffer) buffer []
unfolding sum_by
all-Splits buffer = record { all = omega arith; each = λ ip. omega arith }

drop_heavy-SetsBuffer : SetsBuffer drop_heavy_state []
drop_heavy-SetsBuffer = record { set = λ c. refl; bytes_kept = λ c. refl; direct_kept = λ c. refl }

pub bury-IsAccounted :
    (now r : ℕ) (m : ChannelManager) → r < m.next_ref → IsAccounted m → IsAccounted (bury now r m)
unfolding bury
bury-IsAccounted now r m h a =
    let marked = modify r (terminate now) m in
    release_messages_then_set r [] drop_heavy_state marked h drop_heavy-SetsBuffer
      (modify-IsAccounted r (terminate now) m (λ c. (refl, refl, refl)) h a)
      (marked.heap r).message_buffer (all-Splits (marked.heap r).message_buffer)

pub delete_channel-IsAccounted :
    (channel_id : String) (m : ChannelManager)
    → IsAccounted m
    → IsAccounted (delete_channel channel_id m)
delete_channel-IsAccounted channel_id m a = record {
  buffered = a.buffered;
  direct = a.direct;
  total = a.total;
  total_direct = a.total_direct;
  by_ip = a.by_ip;
  live = a.live;
  refs = Dict.All-delete (IsBelow m.next_ref) channel_id m.channels a.refs;
  one_each = a.one_each;
  by_ip_distinct = a.by_ip_distinct;
}

-- The queue of tombstones carries no bytes.
order-IsAccounted :
    (order : List String) (m : ChannelManager)
    → IsAccounted m
    → IsAccounted (record m { terminated_order = order })
order-IsAccounted order m a = record {
  buffered = a.buffered;
  direct = a.direct;
  total = a.total;
  total_direct = a.total_direct;
  by_ip = a.by_ip;
  live = a.live;
  refs = a.refs;
  one_each = a.one_each;
  by_ip_distinct = a.by_ip_distinct;
}

evict_tombstones-IsAccounted :
    (order : List String) (m : ChannelManager)
    → IsAccounted m
    → IsAccounted (evict_tombstones order m)
unfolding evict_tombstones
evict_tombstones-IsAccounted [] m a = order-IsAccounted [] m a
evict_tombstones-IsAccounted (oldest ∷ order) m a =
    elim (Bool-cases (ltb max_tombstones (length (oldest ∷ order)))) [
      | inl over ↦ rw over (elim (Bool-cases (is_tombstone oldest m)) [
        | inl dead ↦ rw dead (
            evict_tombstones-IsAccounted order (delete_channel oldest m)
              (delete_channel-IsAccounted oldest m a))
        | inr other ↦ rw other (evict_tombstones-IsAccounted order m a)
      ])
      | inr within ↦ rw within (order-IsAccounted (oldest ∷ order) m a)
    ]

pub close-IsAccounted :
    (now : ℕ) (channel_id : String) (m : ChannelManager)
    → IsAccounted m
    → IsAccounted (close now channel_id m).0
unfolding close
close-IsAccounted now channel_id m a = elim (Option-cases (Dict.get channel_id m.channels)) [
  | inl e ↦ rw (e, close) a
  | inr (r, e) ↦ ground (
    arith,
    e,
    evict_tombstones-IsAccounted (m.terminated_order ++ channel_id ∷ []) (bury now r m)
        (bury-IsAccounted now r m (get-lt-next_ref channel_id m a e) a),
  )
]

pub leave-IsAccounted :
    (now : ℕ) (socket_id channel_id : String) (m : ChannelManager)
    → IsAccounted m
    → IsAccounted (leave now socket_id channel_id m).0
unfolding leave
leave-IsAccounted now socket_id channel_id m a =
    elim (Option-cases (Dict.get channel_id m.channels)) [
      | inl e ↦ rw (e, leave) a
      | inr (r, e) ↦ ground (
        arith,
        e,
        modify-IsAccounted r (depart now socket_id) m (λ c. (refl, refl, refl))
            (get-lt-next_ref channel_id m a e) a,
      )
    ]

expire_messages-IsAccounted :
    (now r : ℕ) (m : ChannelManager)
    → r < m.next_ref
    → IsAccounted m
    → IsAccounted (expire_messages now r m)
unfolding expire_messages
expire_messages-IsAccounted now r m h a =
    let buffer = (m.heap r).message_buffer in
    let stale = keep_if (λ msg. not (is_fresh now msg)) buffer in
    release_messages_then_set r _ _ m h (set_buffer-SetsBuffer _) a stale
      (keep_if-Splits_rest (is_fresh now) buffer)

pub expire_messages-next_ref :
    (now r : ℕ) (m : ChannelManager)
    → IsAccounted m
    → (expire_messages now r m).next_ref ≡ m.next_ref
unfolding expire_messages
expire_messages-next_ref now r m a =
    (release_messages-Releases r _ m a.by_ip_distinct).elsewhere.next_ref

cleanup_channel-IsAccounted :
    (now : ℕ) (channel_id : String) (r : ℕ) (m : ChannelManager)
    → r < m.next_ref
    → IsAccounted m
    → IsAccounted (cleanup_channel now channel_id r m)
unfolding cleanup_channel
cleanup_channel-IsAccounted now channel_id r m h a =
    let expired = expire_messages-IsAccounted now r m h a in
    ground (arith, expired, delete_channel-IsAccounted channel_id (expire_messages now r m) expired)

cleanup_channel-next_ref :
    (now : ℕ) (channel_id : String) (r : ℕ) (m : ChannelManager)
    → IsAccounted m
    → (cleanup_channel now channel_id r m).next_ref ≡ m.next_ref
unfolding cleanup_channel
cleanup_channel-next_ref now channel_id r m a = ground (arith, expire_messages-next_ref now r m a)

cleanup_channels-IsAccounted :
    (now : ℕ) (es : Dict ℕ) (m : ChannelManager)
    → All (IsBelow m.next_ref) es
    → IsAccounted m
    → IsAccounted (cleanup_channels now es m)
unfolding cleanup_channels
cleanup_channels-IsAccounted now [] m h a = a
cleanup_channels-IsAccounted now ((channel_id, r) ∷ es) m h a =
    cleanup_channels-IsAccounted now es (cleanup_channel now channel_id r m)
      (rw (cleanup_channel-next_ref now channel_id r m a) h.1)
      (cleanup_channel-IsAccounted now channel_id r m h.0 a)

pub cleanup-IsAccounted :
    (now : ℕ) (m : ChannelManager) → IsAccounted m → IsAccounted (cleanup now m)
unfolding cleanup
cleanup-IsAccounted now m a =
    order-IsAccounted _ _ (cleanup_channels-IsAccounted now m.channels m a.refs a)

pub new_manager-IsAccounted : IsAccounted new_manager
unfolding new_manager sum_by sum_to Dict.get
new_manager-IsAccounted = record {
  buffered = λ r. refl;
  direct = λ r. refl;
  total = refl;
  total_direct = refl;
  by_ip = λ ip. omega arith;
  live = tt;
  refs = tt;
  one_each = tt;
  by_ip_distinct = tt;
}
