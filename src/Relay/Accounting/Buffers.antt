-- ===== src/Relay/Accounting/Buffers.antt =====
-- Taking messages out of a channel's buffer, and putting one in, keeps the ledger.
use myqrlwallet_backend.Prelude.{
  ℕ, ◌+◌, ◌<◌, ◌≡◌, refl, ◌∙◌, String, Bool, List, [], ◌∷◌, ◌++◌, ◌≤◌, sum_to_member, sum_by,
  sum_by-append, sum_by-partition, keep_if, not, arith,
}
use myqrlwallet_backend.Relay.Types.{Channel, BufferedMessage, ChannelManager, modify}
use myqrlwallet_backend.Relay.Ledger.{
  ip_bytes, release_buffered_bytes, retain_buffered_bytes, release_messages,
}
use myqrlwallet_backend.Relay.Ledger.Laws.{
  message_bytes, bytes_of_ip, bytes, bytes_from, Releases, release_messages-Releases,
  release_buffered_bytes-Releases, ip_bytes-retain, retain_ip-IsDistinct,
}
use myqrlwallet_backend.Relay.Join.{set_buffer}
use myqrlwallet_backend.Relay.Route.{push}
use myqrlwallet_backend.Relay.Accounting.{IsAccounted, Rebuffered, Rebuffered-IsAccounted}

-- The buffer of a channel is split in what is taken, by its bytes, and the rest.
pub record Splits (n : ℕ) (from : String → ℕ) (buffer rest : List BufferedMessage) : Type 0 where
  pub all : bytes buffer ≡ n + bytes rest
  pub each : (ip : String) → bytes_from ip buffer ≡ from ip + bytes_from ip rest

-- A change of a channel that sets the buffer and may change all but the bytes.
pub record SetsBuffer (f : Channel → Channel) (rest : List BufferedMessage) : Type 0 where
  pub set : (c : Channel) → (f c).message_buffer ≡ rest
  pub bytes_kept : (c : Channel) → (f c).buffered_bytes ≡ c.buffered_bytes
  pub direct_kept : (c : Channel) → (f c).direct_inflight_bytes ≡ c.direct_inflight_bytes

module _ (r n : ℕ) (from : String → ℕ) (rest : List BufferedMessage) (f : Channel → Channel)
    (m : ChannelManager) (h : r < m.next_ref) (set : SetsBuffer f rest)
    (split : Splits n from (m.heap r).message_buffer rest) (a : IsAccounted m) where
  -- Released first, taken out of the buffer then.
  release_then_set : (m' : ChannelManager) → Releases r n from m m' → Rebuffered r m (modify r f m')
  release_then_set m' rel = record {
    bound = h;
    next_ref = rel.elsewhere.next_ref;
    channels = rel.elsewhere.channels;
    total_direct = rel.elsewhere.total_direct;
    direct_deliveries = rel.elsewhere.direct_deliveries;
    others = λ k e. rw e (rel.others k e);
    direct = ground (arith, rel.here, set.direct_kept (m'.heap r));
    buffered =
        ground (
          arith,
          rel.here,
          set.bytes_kept (m'.heap r),
          set.set (m'.heap r),
          split.all,
          a.buffered r,
        );
    total = ground (arith, rel.total, set.set (m'.heap r), split.all, a.buffered r, total_member);
    by_ip = λ ip. ground (arith, rel.by_ip ip, set.set (m'.heap r), split.each ip, ip_member ip);
    distinct = rel.distinct;
  }
    where
      total_member : bytes (m.heap r).message_buffer ≤ m.total_buffered_bytes
      total_member =
          rw a.total (sum_to_member m.next_ref r (λ k. bytes (m.heap k).message_buffer) h)

      ip_member : (ip : String) → bytes_from ip (m.heap r).message_buffer ≤ ip_bytes ip m
      ip_member ip = omega (
        arith,
        a.by_ip ip,
        sum_to_member m.next_ref r (λ k. bytes_from ip (m.heap k).message_buffer) h,
      )

  -- Taken out of the buffer first, released then.
  set_then_release : (m' : ChannelManager) → Releases r n from (modify r f m) m' → Rebuffered r m m'
  set_then_release m' rel = record {
    bound = h;
    next_ref = rel.elsewhere.next_ref;
    channels = rel.elsewhere.channels;
    total_direct = rel.elsewhere.total_direct;
    direct_deliveries = rel.elsewhere.direct_deliveries;
    others = λ k e. rel.others k e ∙ rw e;
    direct = ground (arith, rel.here, set.direct_kept (m.heap r));
    buffered =
        ground
          (arith, rel.here, set.bytes_kept (m.heap r), set.set (m.heap r), split.all, a.buffered r);
    total =
        ground
          (arith, rel.here, rel.total, set.set (m.heap r), split.all, a.buffered r, total_member);
    by_ip = λ ip.
        ground (arith, rel.here, rel.by_ip ip, set.set (m.heap r), split.each ip, ip_member ip);
    distinct = rel.distinct;
  }
    where
      total_member : bytes (m.heap r).message_buffer ≤ m.total_buffered_bytes
      total_member =
          rw a.total (sum_to_member m.next_ref r (λ k. bytes (m.heap k).message_buffer) h)

      ip_member : (ip : String) → bytes_from ip (m.heap r).message_buffer ≤ ip_bytes ip m
      ip_member ip = omega (
        arith,
        a.by_ip ip,
        sum_to_member m.next_ref r (λ k. bytes_from ip (m.heap k).message_buffer) h,
      )

module _ (r : ℕ) (rest : List BufferedMessage) (f : Channel → Channel) (m : ChannelManager)
    (h : r < m.next_ref) (set : SetsBuffer f rest) (a : IsAccounted m) where
  pub release_messages_then_set :
      (msgs : List BufferedMessage)
      → Splits (bytes msgs) (λ ip. bytes_from ip msgs) (m.heap r).message_buffer rest
      → IsAccounted (modify r f (release_messages r msgs m))
  release_messages_then_set msgs split =
      Rebuffered-IsAccounted r m (modify r f (release_messages r msgs m))
        (release_then_set r (bytes msgs) (λ ip. bytes_from ip msgs) rest f m h set split a _
          (release_messages-Releases r msgs m a.by_ip_distinct))
        a

  pub set_then_release_one :
      (msg : BufferedMessage)
      → Splits msg.size_bytes (λ ip. bytes_of_ip ip msg) (m.heap r).message_buffer rest
      → IsAccounted (release_buffered_bytes r msg (modify r f m))
  set_then_release_one msg split =
      Rebuffered-IsAccounted r m (release_buffered_bytes r msg (modify r f m))
        (set_then_release r msg.size_bytes (λ ip. bytes_of_ip ip msg) rest f m h set split a _
          (release_buffered_bytes-Releases r msg (modify r f m) a.by_ip_distinct))
        a

-- Taking the messages that pass a test out of the buffer.
pub keep_if-Splits :
    (p : BufferedMessage → Bool) (buffer : List BufferedMessage)
    → Splits
        (bytes (keep_if p buffer))
        (λ ip. bytes_from ip (keep_if p buffer))
        buffer
        (keep_if (λ msg. not (p msg)) buffer)
keep_if-Splits p buffer = record {
  all = sum_by-partition message_bytes p buffer;
  each = λ ip. sum_by-partition (bytes_of_ip ip) p buffer;
}

-- The same with the test that keeps.
pub keep_if-Splits_rest :
    (p : BufferedMessage → Bool) (buffer : List BufferedMessage)
    → Splits
        (bytes (keep_if (λ msg. not (p msg)) buffer))
        (λ ip. bytes_from ip (keep_if (λ msg. not (p msg)) buffer))
        buffer
        (keep_if p buffer)
keep_if-Splits_rest p buffer = record {
  all = omega (arith, sum_by-partition message_bytes p buffer);
  each = λ ip. omega (arith, sum_by-partition (bytes_of_ip ip) p buffer);
}

pub set_buffer-SetsBuffer : (rest : List BufferedMessage) → SetsBuffer (set_buffer rest) rest
set_buffer-SetsBuffer rest = record {
  set = λ c. refl;
  bytes_kept = λ c. refl;
  direct_kept = λ c. refl;
}

bytes-push :
    (f : BufferedMessage → ℕ) (buffer : List BufferedMessage) (msg : BufferedMessage)
    → sum_by f (buffer ++ msg ∷ []) ≡ sum_by f buffer + f msg
unfolding sum_by
bytes-push f buffer msg = omega (arith, sum_by-append f buffer (msg ∷ []))

pub retain_pushed-IsAccounted :
    (r : ℕ) (msg : BufferedMessage) (m : ChannelManager)
    → r < m.next_ref
    → IsAccounted m
    → IsAccounted (retain_buffered_bytes r msg (modify r (push msg) m))
unfolding retain_buffered_bytes
retain_pushed-IsAccounted r msg m h a =
    let buffer = (m.heap r).message_buffer in
    Rebuffered-IsAccounted r m _
      (record {
        bound = h;
        next_ref = refl;
        channels = refl;
        total_direct = refl;
        direct_deliveries = refl;
        others = λ k e. rw e;
        direct = ground arith;
        buffered = ground (arith, a.buffered r, bytes-push message_bytes buffer msg);
        total = ground (arith, bytes-push message_bytes buffer msg);
        by_ip = λ ip. ground (
          arith,
          ip_bytes-retain msg.source_ip ip msg.size_bytes m,
          bytes-push (bytes_of_ip ip) buffer msg,
        );
        distinct = retain_ip-IsDistinct msg.source_ip msg.size_bytes m a.by_ip_distinct;
      })
      a
