-- ===== src/Relay/Messages.antt =====
-- routeMessage: when a message may be handed over or buffered, and what either leaves behind.
pub mod Effects
pub mod Cases
pub mod Outcomes
pub mod Kept
pub mod Held
pub mod Replay
use myqrlwallet_backend.Prelude.{
  ℕ, ◌+◌, ◌-◌, ◌<◌, ◌≤◌, ◌≡◌, ◌≢◌, ◌⊎◌, ◌↔◌, refl, sym, ap, ◌∙◌, subst, inl, inr, String, Bool,
  true, false, not, Option, none, some, List, [], ◌∷◌, ◌++◌, leb, ltb, ◌==◌, str_eq, if◌then◌else◌,
  update, length, arith, eq_iff, eq_refl, get_or_else, Dict.Dict, Option-cases, Bool-cases,
}
use myqrlwallet_backend.Prelude.Dict
use myqrlwallet_backend.Relay.Types.{
  ClientType, same_type, other_type, Channel, Participant, BufferedMessage, RelayPayload,
  DirectDeliveryReservation, ChannelManager, Setup, World, RouteError, channel_capacity,
  ip_capacity, global_capacity, RouteResult, modify,
}
use myqrlwallet_backend.Relay.Ledger.{
  ip_bytes, retain_ip_bytes, release_ip_bytes, retain_buffered_bytes, release_buffered_bytes,
  reserve_direct_delivery,
}
use myqrlwallet_backend.Relay.Join.{set_buffer}
use myqrlwallet_backend.Relay.Route.{
  direct_to, buffered_for, is_replay, record_seq, oldest_over_cap, oldest_size, oldest_size_of,
  shift, fits_direct, over_budget, drop_oldest, push, buffer_message, deliver_directly, can_deliver,
  touch,
}
use myqrlwallet_backend.Relay.Channels.{trim}

-- A sender's number, if the message has one, takes the place of the last one.
abbrev pub noted : String → Option ℕ → Dict ℕ → Dict ℕ
noted sender none numbers = numbers
noted sender (some n) numbers = Dict.put sender n numbers

-- What a routed message leaves of the channels, apart from the byte counts.
pub record Routed (now r : ℕ) (sender : String) (seq : Option ℕ) (buffer : List BufferedMessage)
    (m n : ChannelManager) : Type 0 where
  pub channels : n.channels ≡ m.channels
  pub next_ref : n.next_ref ≡ m.next_ref
  pub terminated_order : n.terminated_order ≡ m.terminated_order
  pub others : (k : ℕ) → k ≢ r → n.heap k ≡ m.heap k
  pub participants : (n.heap r).participants ≡ (m.heap r).participants
  pub terminated : (n.heap r).terminated ≡ (m.heap r).terminated
  pub terminated_at : (n.heap r).terminated_at ≡ (m.heap r).terminated_at
  pub public_key : (n.heap r).public_key ≡ (m.heap r).public_key
  pub creator_ip : (n.heap r).creator_ip ≡ (m.heap r).creator_ip
  pub last_activity : (n.heap r).last_activity ≡ now
  pub seq_numbers : (n.heap r).seq_numbers ≡ noted sender seq (m.heap r).seq_numbers
  pub message_buffer : (n.heap r).message_buffer ≡ buffer

-- The reservation for a message that is handed to a socket, and the bytes that it holds.
pub record Reserved (r : ℕ) (target ip : String) (size : ℕ) (m n : ChannelManager) : Type 0 where
  pub deliveries :
      n.direct_deliveries
      ≡ Dict.put target
          (record { channel = r; source_ip = ip; size_bytes = size })
          m.direct_deliveries
  pub inflight : (n.heap r).direct_inflight_bytes ≡ (m.heap r).direct_inflight_bytes + size
  pub total_inflight : n.total_direct_inflight_bytes ≡ m.total_direct_inflight_bytes + size
  pub buffered : (n.heap r).buffered_bytes ≡ (m.heap r).buffered_bytes
  pub total_buffered : n.total_buffered_bytes ≡ m.total_buffered_bytes
  pub by_ip : n.buffered_bytes_by_ip ≡ Dict.put ip (ip_bytes ip m + size) m.buffered_bytes_by_ip

-- The bytes of each address when the oldest message has gone.
abbrev pub by_ip_without : Option BufferedMessage → Dict ℕ → Dict ℕ
by_ip_without none bytes = bytes
by_ip_without (some msg) bytes =
    let left = get_or_else (Dict.get msg.source_ip bytes) 0 - msg.size_bytes in
    if ltb 0 left then Dict.put msg.source_ip left bytes else Dict.delete msg.source_ip bytes

-- The bytes of a message that is buffered, in place of those of the oldest one of a full buffer.
pub record Retained (r : ℕ) (ip : String) (size : ℕ) (m n : ChannelManager) : Type 0 where
  pub deliveries : n.direct_deliveries ≡ m.direct_deliveries
  pub inflight : (n.heap r).direct_inflight_bytes ≡ (m.heap r).direct_inflight_bytes
  pub total_inflight : n.total_direct_inflight_bytes ≡ m.total_direct_inflight_bytes
  pub buffered :
      (n.heap r).buffered_bytes
      ≡ (m.heap r).buffered_bytes - oldest_size (oldest_over_cap (m.heap r).message_buffer) + size
  pub total_buffered :
      n.total_buffered_bytes
      ≡ m.total_buffered_bytes - oldest_size (oldest_over_cap (m.heap r).message_buffer) + size
  pub by_ip :
      let kept = by_ip_without (oldest_over_cap (m.heap r).message_buffer) m.buffered_bytes_by_ip in
      n.buffered_bytes_by_ip ≡ Dict.put ip (get_or_else (Dict.get ip kept) 0 + size) kept

abbrev pub message_of : World → ClientType → RelayPayload → String → ℕ → BufferedMessage
message_of w target payload ip size = record {
  payload = payload;
  target_client_type = target;
  timestamp = w.now;
  size_bytes = size;
  source_ip = ip;
}

-- A sequence number, if there is one, is above the last one.
abbrev pub IsFresh : Option ℕ → Option ℕ → Type 0
IsFresh seq last = (n k : ℕ) → seq ≡ some n → last ≡ some k → k < n

pub is_replay-IsFresh : (seq last : Option ℕ) → is_replay seq last ≡ false → IsFresh seq last
unfolding is_replay
is_replay-IsFresh seq last h n k p q = ground (arith, h, p, q)

pub is_replay-old :
    (seq last : Option ℕ)
    → is_replay seq last ≡ true
    → (n k : ℕ) × (seq ≡ some n) × (last ≡ some k) × (n ≤ k)
unfolding is_replay
is_replay-old none last h = ground (arith, h)
is_replay-old (some n) none h = ground (arith, h)
is_replay-old (some n) (some k) h = (n, k, refl, refl, ground (arith, h))

-- When a message may be handed to a socket.
abbrev pub Deliverable : Setup → World → ℕ → String → String → ℕ → ChannelManager → Type 0
Deliverable s w r target ip size m =
    (w.can_socket_receive target ≡ true)
    × (Dict.get target m.direct_deliveries ≡ none)
    × ((m.heap r).buffered_bytes + (m.heap r).direct_inflight_bytes + size
        ≤ s.max_bytes_per_channel)
    × (ip_bytes ip m + size ≤ s.max_bytes_per_ip)
    × (m.total_buffered_bytes + m.total_direct_inflight_bytes + size ≤ s.max_bytes_global)

pub can_deliver_iff :
    (s : Setup) (w : World) (r : ℕ) (target ip : String) (size : ℕ) (m : ChannelManager)
    → can_deliver s w r target ip size (modify r (touch w.now) m) ≡ true
      ↔ Deliverable s w r target ip size m
unfolding can_deliver fits_direct
can_deliver_iff s w r target ip size m = ground arith

-- The bytes that the channel, the address and the process would hold with a message in the buffer.
abbrev pub channel_load : ℕ → ℕ → ChannelManager → ℕ
channel_load r size m =
    (m.heap r).buffered_bytes
    + (m.heap r).direct_inflight_bytes
    + size
    - oldest_size (oldest_over_cap (m.heap r).message_buffer)

abbrev pub ip_load : ℕ → String → ℕ → ChannelManager → ℕ
ip_load r ip size m =
    ip_bytes ip m + size - oldest_size_of ip (oldest_over_cap (m.heap r).message_buffer)

abbrev pub global_load : ℕ → ℕ → ChannelManager → ℕ
global_load r size m =
    m.total_buffered_bytes
    + m.total_direct_inflight_bytes
    + size
    - oldest_size (oldest_over_cap (m.heap r).message_buffer)

-- The first budget that a message in the buffer would pass.
abbrev pub IsOver : Setup → ℕ → String → ℕ → ChannelManager → RouteError → Type 0
IsOver s r ip size m e =
    ((e ≡ channel_capacity) × (s.max_bytes_per_channel < channel_load r size m))
    ⊎ ((e ≡ ip_capacity)
        × (channel_load r size m ≤ s.max_bytes_per_channel)
        × (s.max_bytes_per_ip < ip_load r ip size m))
    ⊎ ((e ≡ global_capacity)
        × (channel_load r size m ≤ s.max_bytes_per_channel)
        × (ip_load r ip size m ≤ s.max_bytes_per_ip)
        × (s.max_bytes_global < global_load r size m))

abbrev pub Fits : Setup → ℕ → String → ℕ → ChannelManager → Type 0
Fits s r ip size m =
    (channel_load r size m ≤ s.max_bytes_per_channel)
    × (ip_load r ip size m ≤ s.max_bytes_per_ip)
    × (global_load r size m ≤ s.max_bytes_global)

pub over_budget-IsOver :
    (s : Setup) (r : ℕ) (ip : String) (size now : ℕ) (m : ChannelManager) (e : RouteError)
    → let touched = modify r (touch now) m in
      over_budget s r ip size (oldest_over_cap (touched.heap r).message_buffer) touched ≡ some e
      → IsOver s r ip size m e
unfolding over_budget
over_budget-IsOver s r ip size now m e h = ground (arith, h)

pub over_budget-Fits :
    (s : Setup) (r : ℕ) (ip : String) (size now : ℕ) (m : ChannelManager)
    → let touched = modify r (touch now) m in
      over_budget s r ip size (oldest_over_cap (touched.heap r).message_buffer) touched ≡ none
      → Fits s r ip size m
unfolding over_budget
over_budget-Fits s r ip size now m h = ground (arith, h)
