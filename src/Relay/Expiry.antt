-- ===== src/Relay/Expiry.antt =====
-- cleanup: which messages and channels are left.
use myqrlwallet_backend.Prelude.{
  ℕ, ◌≡◌, refl, ap, inl, inr, String, Bool, false, not, ◌||◌, List, [], ◌∷◌, ◌==◌, ==_iff,
  if◌then◌else◌, keep_if, arith, Dict.Dict, Bool-cases,
}
use myqrlwallet_backend.Relay.Types.{ChannelManager}
use myqrlwallet_backend.Relay.Lifecycle.{
  is_fresh, expire_messages, cleanup_channel, cleanup_channels, cleanup,
}
use myqrlwallet_backend.Relay.Channels.{release_messages-heap}

-- The reference is among the channels of the map.
abbrev pub is_listed : ℕ → Dict ℕ → Bool
is_listed k [] = false
is_listed k ((channel_id, r) ∷ es) = k == r || is_listed k es

keep_if_idem {ℓ} :
    {A : Type ℓ} (p : A → Bool) (xs : List A) → keep_if p (keep_if p xs) ≡ keep_if p xs
unfolding keep_if
keep_if_idem p [] = refl
keep_if_idem p (x ∷ xs) = elim (Bool-cases (p x)) [
  | inl e ↦ rw (e, keep_if, e) (ap (◌∷◌ x) (keep_if_idem p xs))
  | inr e ↦ rw (e, keep_if) (keep_if_idem p xs)
]

expire_messages-buffer :
    (now r : ℕ) (m : ChannelManager) (k : ℕ)
    → ((expire_messages now r m).heap k).message_buffer ≡ (
        if k == r
        then keep_if (is_fresh now) (m.heap k).message_buffer
        else (m.heap k).message_buffer)
unfolding expire_messages
expire_messages-buffer now r m k =
    let stale = keep_if (λ msg. not (is_fresh now msg)) (m.heap r).message_buffer in
    elim (Bool-cases (k == r)) [
      | inl e ↦ let same : k ≡ r = (==_iff k r).0 e in rw same (ground arith)
      | inr e ↦ ground (arith, e, release_messages-heap r stale m k)
    ]

cleanup_channel-buffer :
    (now : ℕ) (channel_id : String) (r : ℕ) (m : ChannelManager) (k : ℕ)
    → ((cleanup_channel now channel_id r m).heap k).message_buffer ≡ (
        if k == r
        then keep_if (is_fresh now) (m.heap k).message_buffer
        else (m.heap k).message_buffer)
unfolding cleanup_channel
cleanup_channel-buffer now channel_id r m k = ground (arith, expire_messages-buffer now r m k)

cleanup_channels-buffer :
    (now : ℕ) (es : Dict ℕ) (m : ChannelManager) (k : ℕ)
    → ((cleanup_channels now es m).heap k).message_buffer ≡ (
        if is_listed k es
        then keep_if (is_fresh now) (m.heap k).message_buffer
        else (m.heap k).message_buffer)
unfolding cleanup_channels
cleanup_channels-buffer now [] m k = refl
cleanup_channels-buffer now ((channel_id, r) ∷ es) m k = ground (
  arith,
  cleanup_channels-buffer now es (cleanup_channel now channel_id r m) k,
  cleanup_channel-buffer now channel_id r m k,
  keep_if_idem (is_fresh now) (m.heap k).message_buffer,
  ap (keep_if (is_fresh now)) (cleanup_channel-buffer now channel_id r m k),
)

-- `cleanup` leaves, in every channel of the map, exactly the buffered messages that are younger than
-- the buffer's time to live, in their order; other buffers stay as they are.
pub cleanup-buffer :
    (now : ℕ) (m : ChannelManager) (k : ℕ)
    → ((cleanup now m).heap k).message_buffer ≡ (
        if is_listed k m.channels
        then keep_if (is_fresh now) (m.heap k).message_buffer
        else (m.heap k).message_buffer)
unfolding cleanup
cleanup-buffer now m k = cleanup_channels-buffer now m.channels m k
