-- ===== src/Relay/Budgets.antt =====
-- The byte budgets of channelManager.ts: per channel, per address and for the whole relay.
pub mod Lowering
pub mod Ending
pub mod Messages
pub mod Routing
use myqrlwallet_backend.Prelude.{ℕ, ◌+◌, ◌≤◌, ◌≡◌, String, none, List, [], ◌∷◌, arith, Dict.Dict}
use myqrlwallet_backend.Prelude.Dict
use myqrlwallet_backend.Relay.Types.{Channel, ChannelManager, Setup}
use myqrlwallet_backend.Relay.Ledger.{ip_bytes}

abbrev pub held : Channel → ℕ
held c = c.buffered_bytes + c.direct_inflight_bytes

-- No budget is passed.
pub record IsWithinBudget (s : Setup) (m : ChannelManager) : Type 0 where
  pub channel : (r : ℕ) → held (m.heap r) ≤ s.max_bytes_per_channel
  pub ip : (jp : String) → ip_bytes jp m ≤ s.max_bytes_per_ip
  pub global : m.total_buffered_bytes + m.total_direct_inflight_bytes ≤ s.max_bytes_global

-- No counter grows from the first state to the second.
pub record Lowered (m n : ChannelManager) : Type 0 where
  pub channel : (r : ℕ) → held (n.heap r) ≤ held (m.heap r)
  pub ip : (jp : String) → ip_bytes jp n ≤ ip_bytes jp m
  pub global :
      n.total_buffered_bytes + n.total_direct_inflight_bytes
      ≤ m.total_buffered_bytes + m.total_direct_inflight_bytes
  pub distinct : Dict.IsDistinct n.buffered_bytes_by_ip

-- The entries by address have to be distinct, as the keys of a map are.
abbrev pub Lowers : ChannelManager → ChannelManager → Type 0
Lowers m n = Dict.IsDistinct m.buffered_bytes_by_ip → Lowered m n

pub Lowers-trans : (m n o : ChannelManager) → Lowers m n → Lowers n o → Lowers m o
Lowers-trans m n o p q d =
    let f = p d in
    let g = q f.distinct in
    record {
      channel = λ r. omega (arith, f.channel r, g.channel r);
      ip = λ jp. omega (arith, f.ip jp, g.ip jp);
      global = omega (arith, f.global, g.global);
      distinct = g.distinct;
    }

pub Lowers-refl : (m : ChannelManager) → Lowers m m
Lowers-refl m d = record {
  channel = λ r. omega arith;
  ip = λ jp. omega arith;
  global = omega arith;
  distinct = d;
}

pub Lowered-IsWithinBudget :
    (s : Setup) (m n : ChannelManager) → Lowered m n → IsWithinBudget s m → IsWithinBudget s n
Lowered-IsWithinBudget s m n l b = record {
  channel = λ r. omega (arith, l.channel r, b.channel r);
  ip = λ jp. omega (arith, l.ip jp, b.ip jp);
  global = omega (arith, l.global, b.global);
}
