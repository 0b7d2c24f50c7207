-- ===== src/Relay/Messages/Effects.antt =====
-- What a direct delivery and a buffered message do to the channel manager.
use myqrlwallet_backend.Prelude.{ℕ, ◌≡◌, refl, String, Option, [], ◌∷◌, ◌++◌, arith}
use myqrlwallet_backend.Relay.Types.{
  ClientType, BufferedMessage, RelayPayload, ChannelManager, World, modify,
}
use myqrlwallet_backend.Relay.Ledger.{
  retain_ip_bytes, release_ip_bytes, retain_buffered_bytes, release_buffered_bytes,
  reserve_direct_delivery,
}
use myqrlwallet_backend.Relay.Route.{
  direct_to, buffered_for, oldest_over_cap, drop_oldest, buffer_message, deliver_directly, touch,
}
use myqrlwallet_backend.Relay.Channels.{trim}
use myqrlwallet_backend.Relay.Messages.{Routed, Reserved, Retained, message_of}

pub buffer_message-result :
    (w : World) (r : ℕ) (sender : String) (slow : Option String) (target : ClientType)
    (payload : RelayPayload) (ip : String) (size : ℕ) (oldest : Option BufferedMessage)
    (m : ChannelManager)
    → (buffer_message w r sender slow target payload ip size oldest m).1 ≡ buffered_for slow
unfolding buffer_message
buffer_message-result w r sender slow target payload ip size oldest m = refl

pub deliver_directly-result :
    (r : ℕ) (sender target : String) (payload : RelayPayload) (ip : String) (size : ℕ)
    (m : ChannelManager)
    → (deliver_directly r sender target payload ip size m).1 ≡ direct_to target
unfolding deliver_directly
deliver_directly-result r sender target payload ip size m = refl

module _ (w : World) (r : ℕ) (sender : String) (payload : RelayPayload) (ip : String) (size : ℕ)
    (m : ChannelManager) where
  abbrev touched : ChannelManager
  touched = modify r (touch w.now) m

  pub deliver_directly-Routed :
      (target : String)
      → Routed w.now r sender payload.seq
          (m.heap r).message_buffer
          m
          (deliver_directly r sender target payload ip size touched).0
  unfolding deliver_directly reserve_direct_delivery
  deliver_directly-Routed target = record {
    channels = ground arith;
    next_ref = ground arith;
    terminated_order = ground arith;
    others = λ k ne. ground (arith, ne);
    participants = ground arith;
    terminated = ground arith;
    terminated_at = ground arith;
    public_key = ground arith;
    creator_ip = ground arith;
    last_activity = ground arith;
    seq_numbers = ground arith;
    message_buffer = ground arith;
  }

  pub deliver_directly-Reserved :
      (target : String)
      → Reserved r target ip size m (deliver_directly r sender target payload ip size touched).0
  unfolding deliver_directly reserve_direct_delivery retain_ip_bytes
  deliver_directly-Reserved target = record {
    deliveries = ground arith;
    inflight = ground arith;
    total_inflight = ground arith;
    buffered = ground arith;
    total_buffered = ground arith;
    by_ip = ground arith;
  }

  abbrev put_aside : Option String → ClientType → ChannelManager
  put_aside slow target =
      (buffer_message w r sender slow target payload ip size
        (oldest_over_cap (touched.heap r).message_buffer) touched).0

  pub buffer_message-Routed :
      (slow : Option String) (target : ClientType)
      → Routed w.now r sender payload.seq
          (trim (m.heap r).message_buffer ++ message_of w target payload ip size ∷ [])
          m
          (put_aside slow target)
  unfolding buffer_message retain_buffered_bytes drop_oldest release_buffered_bytes
  buffer_message-Routed slow target = record {
    channels = ground arith;
    next_ref = ground arith;
    terminated_order = ground arith;
    others = λ k ne. ground (arith, ne);
    participants = ground arith;
    terminated = ground arith;
    terminated_at = ground arith;
    public_key = ground arith;
    creator_ip = ground arith;
    last_activity = ground arith;
    seq_numbers = ground arith;
    message_buffer = ground arith;
  }

  pub buffer_message-Retained :
      (slow : Option String) (target : ClientType) → Retained r ip size m (put_aside slow target)
  unfolding buffer_message retain_buffered_bytes drop_oldest release_buffered_bytes release_ip_bytes
      retain_ip_bytes
  buffer_message-Retained slow target = record {
    deliveries = ground arith;
    inflight = ground arith;
    total_inflight = ground arith;
    buffered = ground arith;
    total_buffered = ground arith;
    by_ip = ground arith;
  }
