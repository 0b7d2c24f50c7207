-- ===== src/Relay/Messages/Kept.antt =====
-- Changes of the channel manager that leave every seat and every sequence number.
use myqrlwallet_backend.Prelude.{
  ℕ, ◌≡◌, refl, inl, inr, String, Option, none, some, List, arith, Option-cases, Bool-cases,
}
use myqrlwallet_backend.Relay.Types.{Participant, BufferedMessage, ChannelManager, modify}
use myqrlwallet_backend.Relay.Ledger.{
  release_direct_delivery, finish_reservation, reserve_direct_delivery, release_buffered_bytes,
}
use myqrlwallet_backend.Relay.Route.{touch, take_first, promote, advance_in}

-- A change that leaves the seats and the numbers of every channel.
pub record Kept (m n : ChannelManager) : Type 0 where
  pub channels : n.channels ≡ m.channels
  pub live : (k : ℕ) → (n.heap k).terminated ≡ (m.heap k).terminated
  pub seats : (k : ℕ) → (n.heap k).participants ≡ (m.heap k).participants
  pub numbers : (k : ℕ) → (n.heap k).seq_numbers ≡ (m.heap k).seq_numbers

pub touch-Kept : (r now : ℕ) (m : ChannelManager) → Kept m (modify r (touch now) m)
touch-Kept r now m = record {
  channels = refl;
  live = λ k. ground arith;
  seats = λ k. ground arith;
  numbers = λ k. ground arith;
}

pub release-Kept : (sid : String) (m : ChannelManager) → Kept m (release_direct_delivery sid m)
unfolding release_direct_delivery finish_reservation
release-Kept sid m = record {
  channels = ground arith;
  live = λ k. ground arith;
  seats = λ k. ground arith;
  numbers = λ k. ground arith;
}

promote-Kept :
    (sid : String) (r : ℕ) (next : BufferedMessage) (rest : List BufferedMessage)
    (m : ChannelManager)
    → Kept m (promote sid r next rest m)
unfolding promote reserve_direct_delivery release_buffered_bytes
promote-Kept sid r next rest m = record {
  channels = ground arith;
  live = λ k. ground arith;
  seats = λ k. ground arith;
  numbers = λ k. ground arith;
}

same-Kept : (m : ChannelManager) → Kept m m
same-Kept m = record { channels = refl; live = λ k. refl; seats = λ k. refl; numbers = λ k. refl }

pub advance_in-Kept :
    (sid : String) (r : ℕ) (p : Option Participant) (m : ChannelManager)
    → Kept m (advance_in sid r p m).0
unfolding advance_in
advance_in-Kept sid r none m = same-Kept m
advance_in-Kept sid r (some p) m = elim (Bool-cases (m.heap r).terminated) [
  | inl dead ↦ rw (dead, advance_in) (same-Kept m)
  | inr live ↦ elim (Option-cases (take_first p.client_type (m.heap r).message_buffer)) [
    | inl q ↦ rw (live, q, advance_in) (same-Kept m)
    | inr (x, q) ↦ rw (live, q, advance_in) (promote-Kept sid r x.0 x.1 m)
  ]
]
