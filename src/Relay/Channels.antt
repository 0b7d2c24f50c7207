-- ===== src/Relay/Channels.antt =====
-- Properties of single channels that every call keeps: the rule, and what it needs of a property.
pub mod Joining
pub mod Closing
pub mod Calls
pub mod Seats
use myqrlwallet_backend.Prelude.{
  ℕ, ◌+◌, ◌-◌, ◌<◌, ◌≡◌, ◌⊎◌, refl, inl, inr, String, Bool, true, false, not, Option, none, some,
  List, [], ◌∷◌, ◌==◌, if◌then◌else◌, update, keep_if, length, sum_by, arith, Dict.Dict,
  Option-cases, Bool-cases,
}
use myqrlwallet_backend.Prelude.Dict
use myqrlwallet_backend.Relay.Types.{
  ClientType, Channel, Participant, BufferedMessage, DirectDeliveryReservation, ChannelManager,
  max_buffered_messages, modify,
}
use myqrlwallet_backend.Relay.Ledger.{
  sub_buffered, add_buffered, sub_direct, add_direct, release_buffered_bytes, release_messages,
  finish_reservation, release_direct_delivery, retain_buffered_bytes, reserve_direct_delivery,
}
use myqrlwallet_backend.Relay.Ledger.Laws.{message_bytes, bytes}
use myqrlwallet_backend.Relay.Join.{
  new_channel, remove_participant, admit_participant, changes_type, find_rival, set_buffer,
  set_public_key,
}
use myqrlwallet_backend.Relay.Lifecycle.{terminate, drop_heavy_state, depart}
use myqrlwallet_backend.Relay.Route.{oldest_over_cap, shift, push, touch, record_seq, take_first}

-- No other socket has a participant of the type, or the one that had was just removed.
abbrev pub IsVacant : (Channel → Type 0) → String → ClientType → Channel → Type 0
IsVacant P sid ct c =
    (find_rival sid ct c.participants ≡ none)
    ⊎ ((rival : String) × (old : Channel) × P old
        × (find_rival sid ct old.participants ≡ some rival)
        × (c.participants ≡ Dict.delete rival old.participants))

-- The buffer after the message-count cap has evicted its oldest entry.
abbrev pub trim : List BufferedMessage → List BufferedMessage
trim buffer = elim (oldest_over_cap buffer) [ none ↦ buffer | some _ ↦ shift buffer ]

-- What a property of channels has to be closed under.
pub record Rule (P : Channel → Type 0) : Type 0 where
  pub fresh : (now : ℕ) (ip : Option String) → P (new_channel now ip)
  pub counts :
      (b d : ℕ) (c : Channel) → P c → P (record c { buffered_bytes = b; direct_inflight_bytes = d })
  pub remove : (sid : String) (c : Channel) → P c → P (remove_participant sid c)
  pub admit :
      (now : ℕ) (sid : String) (ct : ClientType) (c : Channel)
      → P c
      → c.terminated ≡ false
      → changes_type sid ct c ≡ false
      → IsVacant P sid ct c
      → P (admit_participant now sid ct c)
  pub filter :
      (p : BufferedMessage → Bool) (c : Channel)
      → P c
      → P (set_buffer (keep_if p c.message_buffer) c)
  pub bind :
      (k : String) (c : Channel)
      → P c
      → c.terminated ≡ false
      → c.public_key ≡ none
      → P (set_public_key (some k) c)
  pub bury : (now : ℕ) (c : Channel) → P c → P (drop_heavy_state (terminate now c))
  pub activity : (now : ℕ) (c : Channel) → P c → P (touch now c)
  pub seq :
      (sender : String) (n : ℕ) (c : Channel)
      → P c
      → c.terminated ≡ false
      → P (record_seq sender (some n) c)
  pub pushed :
      (msg : BufferedMessage) (c : Channel)
      → P c
      → c.terminated ≡ false
      → P (push msg (set_buffer (trim c.message_buffer) c))
  pub spliced :
      (ct : ClientType) (found : BufferedMessage) (rest : List BufferedMessage) (c : Channel)
      → P c
      → take_first ct c.message_buffer ≡ some (found, rest)
      → P (set_buffer rest c)

abbrev pub Everywhere : (Channel → Type 0) → ChannelManager → Type 0
Everywhere P m = (r : ℕ) → P (m.heap r)

-- The released messages lower the count of their channel, and change nothing else in the heap.
pub release_messages-heap :
    (r : ℕ) (msgs : List BufferedMessage) (m : ChannelManager) (k : ℕ)
    → (release_messages r msgs m).heap k
      ≡ (if k == r then sub_buffered (bytes msgs) (m.heap r) else m.heap k)
unfolding release_messages release_buffered_bytes sum_by
release_messages-heap r [] m k = ground arith
release_messages-heap r (msg ∷ msgs) m k =
    ground (arith, release_messages-heap r msgs (release_buffered_bytes r msg m) k)

module _ (P : Channel → Type 0) (rule : Rule P) where
  pub modify-Everywhere :
      (r : ℕ) (f : Channel → Channel) (m : ChannelManager)
      → P (f (m.heap r))
      → Everywhere P m
      → Everywhere P (modify r f m)
  modify-Everywhere r f m h all k = elim (Bool-cases (k == r)) [
    | inl e ↦ rw e h
    | inr e ↦ rw e (all k)
  ]

  -- Messages are released and their channel is changed.
  pub release_modify-Everywhere :
      (r : ℕ) (msgs : List BufferedMessage) (f : Channel → Channel) (m : ChannelManager)
      → ((n : ℕ) → P (f (sub_buffered n (m.heap r))))
      → Everywhere P m
      → Everywhere P (modify r f (release_messages r msgs m))
  release_modify-Everywhere r msgs f m h all k = elim (Bool-cases (k == r)) [
    | inl e ↦ rw (e, release_here) (h (bytes msgs))
    | inr e ↦ rw (e, release_messages-heap r msgs m k, e) (all k)
  ]
    where
      release_here : (release_messages r msgs m).heap r ≡ sub_buffered (bytes msgs) (m.heap r)
      release_here = ground (arith, release_messages-heap r msgs m r)

  pub finish-Everywhere :
      (s : String) (res : DirectDeliveryReservation) (m : ChannelManager)
      → Everywhere P m
      → Everywhere P (finish_reservation s res m)
  unfolding finish_reservation
  finish-Everywhere s res m all =
      modify-Everywhere res.channel (sub_direct res.size_bytes) m
        (rule.counts (m.heap res.channel).buffered_bytes
          ((m.heap res.channel).direct_inflight_bytes - res.size_bytes) (m.heap res.channel)
          (all res.channel))
        all

  pub release_direct-Everywhere :
      (s : String) (m : ChannelManager)
      → Everywhere P m
      → Everywhere P (release_direct_delivery s m)
  unfolding release_direct_delivery
  release_direct-Everywhere s m all = elim (Option-cases (Dict.get s m.direct_deliveries)) [
    | inl e ↦ rw (e, release_direct_delivery) all
    | inr (res, e) ↦ rw (e, release_direct_delivery) (finish-Everywhere s res m all)
  ]

  pub reserve-Everywhere :
      (s : String) (res : DirectDeliveryReservation) (m : ChannelManager)
      → Everywhere P m
      → Everywhere P (reserve_direct_delivery s res m)
  unfolding reserve_direct_delivery
  reserve-Everywhere s res m all =
      modify-Everywhere res.channel (add_direct res.size_bytes) m
        (rule.counts (m.heap res.channel).buffered_bytes
          ((m.heap res.channel).direct_inflight_bytes + res.size_bytes) (m.heap res.channel)
          (all res.channel))
        all

  pub release_buffered-Everywhere :
      (r : ℕ) (msg : BufferedMessage) (m : ChannelManager)
      → Everywhere P m
      → Everywhere P (release_buffered_bytes r msg m)
  unfolding release_buffered_bytes
  release_buffered-Everywhere r msg m all =
      modify-Everywhere r (sub_buffered msg.size_bytes) m
        (rule.counts ((m.heap r).buffered_bytes - msg.size_bytes) (m.heap r).direct_inflight_bytes
          (m.heap r) (all r))
        all

  pub retain_buffered-Everywhere :
      (r : ℕ) (msg : BufferedMessage) (m : ChannelManager)
      → Everywhere P m
      → Everywhere P (retain_buffered_bytes r msg m)
  unfolding retain_buffered_bytes
  retain_buffered-Everywhere r msg m all =
      modify-Everywhere r (add_buffered msg.size_bytes) m
        (rule.counts ((m.heap r).buffered_bytes + msg.size_bytes) (m.heap r).direct_inflight_bytes
          (m.heap r) (all r))
        all
