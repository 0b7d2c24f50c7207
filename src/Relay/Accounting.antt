-- ===== src/Relay/Accounting.antt =====
-- The ledger invariant of channelManager.ts, and the changes that keep it.
pub mod Reservations
pub mod Buffers
pub mod Joins
pub mod Closes
pub mod Routes
pub mod Runs
use native.Mathlib.Decide.{ℕ_discrete}
use myqrlwallet_backend.Prelude.{
  ℕ, suc, ◌+◌, ◌-◌, ◌<◌, ◌≡◌, ◌≢◌, refl, sym, ap, ◌∙◌, subst, inl, inr, String, Bool, true, false,
  none, some, List, [], ◌∷◌, ltb, ◌==◌, ==_iff, str_eq, if◌then◌else◌, update, get_or_else, sum_by,
  sum_to, sum_to_change, sum_to_ext, sum_to_outside, sum_to_member, arith, eq_iff, eq_refl, All,
  Dict.Dict, Bool-cases,
}
use myqrlwallet_backend.Prelude.Dict
use myqrlwallet_backend.Relay.Types.{
  Channel, BufferedMessage, DirectDeliveryReservation, ChannelManager, modify,
}
use myqrlwallet_backend.Relay.Ledger.{
  ip_bytes, reserve_direct_delivery, finish_reservation, release_direct_delivery,
}
use myqrlwallet_backend.Relay.Ledger.Laws.{
  bytes, bytes_from, ip_bytes-retain, ip_bytes-release, retain_ip-IsDistinct, release_ip-IsDistinct,
}

abbrev pub Entry : Type 0
Entry = String × DirectDeliveryReservation

abbrev pub reserved : Entry → ℕ
reserved e = e.1.size_bytes

abbrev pub reserved_in : ℕ → Entry → ℕ
reserved_in r e = if e.1.channel == r then e.1.size_bytes else 0

abbrev pub reserved_from : String → Entry → ℕ
reserved_from ip e = if str_eq e.1.source_ip ip then e.1.size_bytes else 0

abbrev pub IsLive : ℕ → Entry → Type 0
IsLive bound e = e.1.channel < bound

abbrev pub IsBelow : ℕ → String × ℕ → Type 0
IsBelow bound e = e.1 < bound

-- Each counter is the sum that it stands for.
pub record IsAccounted (m : ChannelManager) : Type 0 where
  pub buffered : (r : ℕ) → (m.heap r).buffered_bytes ≡ bytes (m.heap r).message_buffer
  pub direct :
      (r : ℕ) → (m.heap r).direct_inflight_bytes ≡ sum_by (reserved_in r) m.direct_deliveries
  pub total : m.total_buffered_bytes ≡ sum_to m.next_ref (λ r. bytes (m.heap r).message_buffer)
  pub total_direct : m.total_direct_inflight_bytes ≡ sum_by reserved m.direct_deliveries
  pub by_ip :
      (ip : String)
      → ip_bytes ip m
        ≡ sum_to m.next_ref (λ r. bytes_from ip (m.heap r).message_buffer)
          + sum_by (reserved_from ip) m.direct_deliveries
  pub live : All (IsLive m.next_ref) m.direct_deliveries
  pub refs : All (IsBelow m.next_ref) m.channels
  pub one_each : Dict.IsDistinct m.direct_deliveries
  pub by_ip_distinct : Dict.IsDistinct m.buffered_bytes_by_ip

-- A change of the buffer of one channel, with the counters adjusted.
pub record Rebuffered (r : ℕ) (m m' : ChannelManager) : Type 0 where
  pub bound : r < m.next_ref
  pub next_ref : m'.next_ref ≡ m.next_ref
  pub channels : m'.channels ≡ m.channels
  pub total_direct : m'.total_direct_inflight_bytes ≡ m.total_direct_inflight_bytes
  pub direct_deliveries : m'.direct_deliveries ≡ m.direct_deliveries
  pub others : (k : ℕ) → ((k == r) ≡ false) → m'.heap k ≡ m.heap k
  pub direct : (m'.heap r).direct_inflight_bytes ≡ (m.heap r).direct_inflight_bytes
  pub buffered : (m'.heap r).buffered_bytes ≡ bytes (m'.heap r).message_buffer
  pub total :
      m'.total_buffered_bytes + bytes (m.heap r).message_buffer
      ≡ m.total_buffered_bytes + bytes (m'.heap r).message_buffer
  pub by_ip :
      (ip : String)
      → ip_bytes ip m' + bytes_from ip (m.heap r).message_buffer
        ≡ ip_bytes ip m + bytes_from ip (m'.heap r).message_buffer
  pub distinct : Dict.IsDistinct m'.buffered_bytes_by_ip

==-false : (k r : ℕ) → k ≢ r → (k == r) ≡ false
==-false k r h = ground arith

module _ (r : ℕ) (m m' : ChannelManager) (c : Rebuffered r m m') (a : IsAccounted m) where
  -- A sum over the channels moves as the changed channel's part of it.
  sum_shift :
      (f : List BufferedMessage → ℕ)
      → sum_to m'.next_ref (λ k. f (m'.heap k).message_buffer) + f (m.heap r).message_buffer
        ≡ sum_to m.next_ref (λ k. f (m.heap k).message_buffer) + f (m'.heap r).message_buffer
  sum_shift f = rw c.next_ref (
      sum_to_change m.next_ref r (λ k. f (m'.heap k).message_buffer)
        (λ k. f (m.heap k).message_buffer)
        (λ k ne. ap (λ (x : Channel). f x.message_buffer) (c.others k (==-false k r ne))) c.bound)

  rebuffered-buffered : (k : ℕ) → (m'.heap k).buffered_bytes ≡ bytes (m'.heap k).message_buffer
  rebuffered-buffered k = elim (ℕ_discrete k r) [
    | yes e ↦ rw e c.buffered
    | no ne ↦ rw (c.others k (==-false k r ne)) (a.buffered k)
  ]

  rebuffered-direct :
      (k : ℕ) → (m'.heap k).direct_inflight_bytes ≡ sum_by (reserved_in k) m'.direct_deliveries
  rebuffered-direct k = elim (ℕ_discrete k r) [
    | yes e ↦ rw (e, c.direct_deliveries) (c.direct ∙ a.direct r)
    | no ne ↦ rw (c.others k (==-false k r ne), c.direct_deliveries) (a.direct k)
  ]

  pub Rebuffered-IsAccounted : IsAccounted m'
  Rebuffered-IsAccounted = record {
    buffered = rebuffered-buffered;
    direct = rebuffered-direct;
    total = omega (arith, sum_shift bytes, c.total, a.total);
    total_direct = rw (c.total_direct, c.direct_deliveries) a.total_direct;
    by_ip = λ ip.
        rw c.direct_deliveries (omega (arith, sum_shift (bytes_from ip), c.by_ip ip, a.by_ip ip));
    live = rw (c.direct_deliveries, c.next_ref) a.live;
    refs = rw (c.channels, c.next_ref) a.refs;
    one_each = rw c.direct_deliveries a.one_each;
    by_ip_distinct = c.distinct;
  }

-- A change of one channel that leaves its bytes and its buffer alone.
abbrev pub KeepsBytes : (Channel → Channel) → Type 0
KeepsBytes f =
    (c : Channel)
    → ((f c).message_buffer ≡ c.message_buffer)
      × ((f c).buffered_bytes ≡ c.buffered_bytes)
      × ((f c).direct_inflight_bytes ≡ c.direct_inflight_bytes)

pub modify-Rebuffered :
    (r : ℕ) (f : Channel → Channel) (m : ChannelManager)
    → KeepsBytes f
    → r < m.next_ref
    → IsAccounted m
    → Rebuffered r m (modify r f m)
modify-Rebuffered r f m keeps h a = record {
  bound = h;
  next_ref = refl;
  channels = refl;
  total_direct = refl;
  direct_deliveries = refl;
  others = λ k e. rw e;
  direct = ground (arith, keeps (m.heap r));
  buffered = ground (arith, keeps (m.heap r), a.buffered r);
  total = ground (arith, keeps (m.heap r));
  by_ip = λ ip. ground (arith, keeps (m.heap r));
  distinct = a.by_ip_distinct;
}

pub modify-IsAccounted :
    (r : ℕ) (f : Channel → Channel) (m : ChannelManager)
    → KeepsBytes f
    → r < m.next_ref
    → IsAccounted m
    → IsAccounted (modify r f m)
modify-IsAccounted r f m keeps h a =
    Rebuffered-IsAccounted r m (modify r f m) (modify-Rebuffered r f m keeps h a) a
