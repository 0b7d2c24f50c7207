-- ===== src/Relay/Budgets/Messages.antt =====
-- Reserving, buffering and taking messages within the byte budgets.
use myqrlwallet_backend.Prelude.{
  ℕ, ◌+◌, ◌<◌, ◌≤◌, ◌≡◌, refl, inl, inr, String, true, false, Option, none, some, List, ◌==◌,
  str_eq, if◌then◌else◌, sum_to_member, arith, eq_iff, Option-cases,
}
use myqrlwallet_backend.Relay.Types.{
  ClientType, Channel, BufferedMessage, RelayPayload, DirectDeliveryReservation, ChannelManager,
  Setup, World, modify,
}
use myqrlwallet_backend.Relay.Ledger.{
  ip_bytes, release_buffered_bytes, retain_buffered_bytes, reserve_direct_delivery,
}
use myqrlwallet_backend.Relay.Ledger.Laws.{
  bytes, bytes_from, bytes_of_ip, release_buffered_bytes-Releases, ip_bytes-retain,
}
use myqrlwallet_backend.Relay.Join.{set_buffer}
use myqrlwallet_backend.Relay.Route.{
  record_seq, fits_direct, oldest_over_cap, oldest_size, oldest_size_of, shift, over_budget,
  drop_oldest, push, buffer_message, route_to_buffer,
}
use myqrlwallet_backend.Relay.Accounting.{IsAccounted}
use myqrlwallet_backend.Relay.Accounting.Buffers.{Splits}
use myqrlwallet_backend.Relay.Accounting.Routes.{oldest-Splits}
use myqrlwallet_backend.Relay.Budgets.{held, IsWithinBudget, Lowers, Lowered-IsWithinBudget}

pub Lowers-IsWithinBudget :
    (s : Setup) (m n : ChannelManager)
    → Lowers m n
    → IsAccounted m
    → IsWithinBudget s m
    → IsWithinBudget s n
Lowers-IsWithinBudget s m n l a = Lowered-IsWithinBudget s m n (l a.by_ip_distinct)

pub modify-IsWithinBudget :
    (s : Setup) (r : ℕ) (f : Channel → Channel) (m : ChannelManager)
    → ((c : Channel) → held (f c) ≡ held c)
    → IsWithinBudget s m
    → IsWithinBudget s (modify r f m)
modify-IsWithinBudget s r f m keeps b = record {
  channel = λ k. ground (arith, keeps (m.heap r), b.channel k);
  ip = b.ip;
  global = b.global;
}

pub held-record_seq :
    (sender : String) (seq : Option ℕ) (c : Channel) → held (record_seq sender seq c) ≡ held c
held-record_seq sender none c = refl
held-record_seq sender (some n) c = refl

pub reserve-ip :
    (t : String) (res : DirectDeliveryReservation) (m : ChannelManager) (jp : String)
    → ip_bytes jp (reserve_direct_delivery t res m)
      ≡ ip_bytes jp m + (if str_eq res.source_ip jp then res.size_bytes else 0)
unfolding reserve_direct_delivery
reserve-ip t res m jp = ip_bytes-retain res.source_ip jp res.size_bytes m

-- A reservation that the three tests admit.
pub reserve-IsWithinBudget :
    (s : Setup) (t : String) (res : DirectDeliveryReservation) (m : ChannelManager)
    → fits_direct s res.channel res.source_ip res.size_bytes m ≡ true
    → IsWithinBudget s m
    → IsWithinBudget s (reserve_direct_delivery t res m)
unfolding reserve_direct_delivery fits_direct
reserve-IsWithinBudget s t res m fits b = record {
  channel = λ k. ground (arith, b.channel k);
  ip = λ jp. ground (arith, b.ip jp, reserve-ip t res m jp, eq_iff res.source_ip jp);
  global = ground arith;
}

-- A message that is taken out of a buffer is no larger than the counters that hold it.
record IsHeld (r n : ℕ) (from : String → ℕ) (m : ChannelManager) : Type 0 where
  here : n ≤ (m.heap r).buffered_bytes
  total : n ≤ m.total_buffered_bytes
  by_ip : (jp : String) → from jp ≤ ip_bytes jp m

Splits-IsHeld :
    (r n : ℕ) (from : String → ℕ) (rest : List BufferedMessage) (m : ChannelManager)
    → r < m.next_ref
    → IsAccounted m
    → Splits n from (m.heap r).message_buffer rest
    → IsHeld r n from m
Splits-IsHeld r n from rest m h a split = record {
  here = omega (arith, a.buffered r, split.all);
  total = omega (
    arith,
    a.total,
    split.all,
    sum_to_member m.next_ref r (λ k. bytes (m.heap k).message_buffer) h,
  );
  by_ip = λ jp. omega (
    arith,
    a.by_ip jp,
    split.each jp,
    sum_to_member m.next_ref r (λ k. bytes_from jp (m.heap k).message_buffer) h,
  );
}

-- What is left of the counters when messages of one channel are taken out of its buffer.
pub record Drops (r n : ℕ) (from : String → ℕ) (m m' : ChannelManager) : Type 0 where
  pub here : held (m'.heap r) + n ≡ held (m.heap r)
  pub others : (k : ℕ) → ((k == r) ≡ false) → held (m'.heap k) ≡ held (m.heap k)
  pub total :
      m'.total_buffered_bytes + m'.total_direct_inflight_bytes + n
      ≡ m.total_buffered_bytes + m.total_direct_inflight_bytes
  pub by_ip : (jp : String) → ip_bytes jp m' + from jp ≡ ip_bytes jp m

pub take_message-Drops :
    (r : ℕ) (msg : BufferedMessage) (rest : List BufferedMessage) (m : ChannelManager)
    → r < m.next_ref
    → IsAccounted m
    → Splits msg.size_bytes (λ ip. bytes_of_ip ip msg) (m.heap r).message_buffer rest
    → Drops r msg.size_bytes
        (λ ip. bytes_of_ip ip msg)
        m
        (release_buffered_bytes r msg (modify r (set_buffer rest) m))
take_message-Drops r msg rest m h a split =
    let taken = modify r (set_buffer rest) m in
    let rel = release_buffered_bytes-Releases r msg taken a.by_ip_distinct in
    let big = Splits-IsHeld r msg.size_bytes (λ ip. bytes_of_ip ip msg) rest m h a split in
    record {
      here = ground (arith, rel.here, big.here);
      others = λ k e. ground (arith, rel.others k e, e);
      total = omega (arith, rel.total, rel.elsewhere.total_direct, big.total);
      by_ip = λ jp. omega (arith, rel.by_ip jp, big.by_ip jp);
    }

drop_oldest-Drops :
    (r : ℕ) (oldest : Option BufferedMessage) (m : ChannelManager)
    → oldest_over_cap (m.heap r).message_buffer ≡ oldest
    → r < m.next_ref
    → IsAccounted m
    → Drops r (oldest_size oldest) (λ ip. oldest_size_of ip oldest) m (drop_oldest r oldest m)
unfolding drop_oldest
drop_oldest-Drops r none m e h a = record {
  here = omega arith;
  others = λ k q. refl;
  total = omega arith;
  by_ip = λ jp. omega arith;
}
drop_oldest-Drops r (some msg) m e h a =
    take_message-Drops r msg (shift (m.heap r).message_buffer) m h a
      (oldest-Splits (m.heap r).message_buffer msg e)

retain-ip :
    (r : ℕ) (msg : BufferedMessage) (m : ChannelManager) (jp : String)
    → ip_bytes jp (retain_buffered_bytes r msg m)
      ≡ ip_bytes jp m + (if str_eq msg.source_ip jp then msg.size_bytes else 0)
unfolding retain_buffered_bytes
retain-ip r msg m jp = ip_bytes-retain msg.source_ip jp msg.size_bytes m

-- A message pushed where the three tests after the eviction admit it.
push-IsWithinBudget :
    (s : Setup) (r : ℕ) (msg : BufferedMessage) (oldest : Option BufferedMessage)
    (m m' : ChannelManager)
    → over_budget s r msg.source_ip msg.size_bytes oldest m ≡ none
    → Drops r (oldest_size oldest) (λ ip. oldest_size_of ip oldest) m m'
    → IsWithinBudget s m
    → IsWithinBudget s (retain_buffered_bytes r msg (modify r (push msg) m'))
unfolding over_budget retain_buffered_bytes
push-IsWithinBudget s r msg oldest m m' fits d b = record {
  channel = λ k. ground (arith, b.channel k, d.here, d.others k);
  ip = λ jp. ground (
    arith,
    b.ip jp,
    d.by_ip jp,
    retain-ip r msg (modify r (push msg) m') jp,
    eq_iff msg.source_ip jp,
  );
  global = ground (arith, d.total);
}

pub route_to_buffer-IsWithinBudget :
    (s : Setup) (w : World) (r : ℕ) (sender : String) (slow : Option String) (target : ClientType)
    (payload : RelayPayload) (ip : String) (size : ℕ) (m : ChannelManager)
    → r < m.next_ref
    → IsAccounted m
    → IsWithinBudget s m
    → IsWithinBudget s (route_to_buffer s w r sender slow target payload ip size m).0
unfolding route_to_buffer buffer_message
route_to_buffer-IsWithinBudget s w r sender slow target payload ip size m h a b =
    let oldest = oldest_over_cap (m.heap r).message_buffer in
    let msg : BufferedMessage = record {
      payload = payload;
      target_client_type = target;
      timestamp = w.now;
      size_bytes = size;
      source_ip = ip;
    } in
    elim (Option-cases (over_budget s r ip size oldest m)) [
      | inl fits ↦
          rw (fits, route_to_buffer)
            (modify-IsWithinBudget s r (record_seq sender payload.seq) _
              (held-record_seq sender payload.seq)
              (push-IsWithinBudget s r msg oldest m (drop_oldest r oldest m) fits
                (drop_oldest-Drops r oldest m refl h a) b))
      | inr (e, over) ↦ rw (over, route_to_buffer) b
    ]
