-- ===== src/Relay/Ledger/Laws.antt =====
-- What the accounting operations do to each part of the manager's state.
use myqrlwallet_backend.Prelude.{
  ℕ, ◌+◌, ◌-◌, ◌≡◌, refl, ◌∙◌, String, false, List, [], ◌∷◌, ◌==◌, str_eq, if◌then◌else◌, sum_by,
  arith, eq_iff, Dict.Dict,
}
use myqrlwallet_backend.Prelude.Dict
use myqrlwallet_backend.Relay.Types.{BufferedMessage, ChannelManager}
use myqrlwallet_backend.Relay.Ledger.{
  ip_bytes, retain_ip_bytes, release_ip_bytes, sub_buffered, release_buffered_bytes,
  release_messages,
}

abbrev pub message_bytes : BufferedMessage → ℕ
message_bytes msg = msg.size_bytes

abbrev pub bytes_of_ip : String → BufferedMessage → ℕ
bytes_of_ip ip msg = if str_eq msg.source_ip ip then msg.size_bytes else 0

abbrev pub bytes : List BufferedMessage → ℕ
bytes = sum_by message_bytes

abbrev pub bytes_from : String → List BufferedMessage → ℕ
bytes_from ip = sum_by (bytes_of_ip ip)

pub ip_bytes-retain :
    (ip jp : String) (n : ℕ) (m : ChannelManager)
    → ip_bytes jp (retain_ip_bytes ip n m) ≡ ip_bytes jp m + (if str_eq ip jp then n else 0)
unfolding retain_ip_bytes
ip_bytes-retain ip jp n m =
    ground (arith, Dict.get-put ip jp (ip_bytes ip m + n) m.buffered_bytes_by_ip, eq_iff ip jp)

-- The entries by address are distinct, so a deleted one reads as 0.
pub ip_bytes-release :
    (ip jp : String) (n : ℕ) (m : ChannelManager)
    → Dict.IsDistinct m.buffered_bytes_by_ip
    → ip_bytes jp (release_ip_bytes ip n m) ≡ ip_bytes jp m - (if str_eq ip jp then n else 0)
unfolding release_ip_bytes
ip_bytes-release ip jp n m d = ground (
  arith,
  Dict.get-put ip jp (ip_bytes ip m - n) m.buffered_bytes_by_ip,
  Dict.get-delete_ne ip jp m.buffered_bytes_by_ip,
  Dict.get-delete_self ip m.buffered_bytes_by_ip d,
  eq_iff ip jp,
)

pub retain_ip-IsDistinct :
    (ip : String) (n : ℕ) (m : ChannelManager)
    → Dict.IsDistinct m.buffered_bytes_by_ip
    → Dict.IsDistinct (retain_ip_bytes ip n m).buffered_bytes_by_ip
unfolding retain_ip_bytes
retain_ip-IsDistinct ip n m d = Dict.put-IsDistinct ip _ m.buffered_bytes_by_ip d

pub release_ip-IsDistinct :
    (ip : String) (n : ℕ) (m : ChannelManager)
    → Dict.IsDistinct m.buffered_bytes_by_ip
    → Dict.IsDistinct (release_ip_bytes ip n m).buffered_bytes_by_ip
unfolding release_ip_bytes
release_ip-IsDistinct ip n m d = ground (
  arith,
  Dict.put-IsDistinct ip (ip_bytes ip m - n) m.buffered_bytes_by_ip d,
  Dict.delete-IsDistinct ip m.buffered_bytes_by_ip d,
)

-- The manager but for the ledger's three parts.
pub record SameElsewhere (m n : ChannelManager) : Type 0 where
  pub next_ref : n.next_ref ≡ m.next_ref
  pub channels : n.channels ≡ m.channels
  pub terminated_order : n.terminated_order ≡ m.terminated_order
  pub total_direct : n.total_direct_inflight_bytes ≡ m.total_direct_inflight_bytes
  pub direct_deliveries : n.direct_deliveries ≡ m.direct_deliveries

-- The release of messages of one channel, `n` bytes in all and `from ip` of them for an address.
pub record Releases (r n : ℕ) (from : String → ℕ) (m m' : ChannelManager) : Type 0 where
  pub elsewhere : SameElsewhere m m'
  pub here : m'.heap r ≡ sub_buffered n (m.heap r)
  pub others : (k : ℕ) → ((k == r) ≡ false) → m'.heap k ≡ m.heap k
  pub total : m'.total_buffered_bytes ≡ m.total_buffered_bytes - n
  pub by_ip : (ip : String) → ip_bytes ip m' ≡ ip_bytes ip m - from ip
  pub distinct : Dict.IsDistinct m'.buffered_bytes_by_ip

pub release_buffered_bytes-Releases :
    (r : ℕ) (msg : BufferedMessage) (m : ChannelManager)
    → Dict.IsDistinct m.buffered_bytes_by_ip
    → Releases r msg.size_bytes (λ ip. bytes_of_ip ip msg) m (release_buffered_bytes r msg m)
unfolding release_buffered_bytes
release_buffered_bytes-Releases r msg m d = record {
  elsewhere = record {
    next_ref = refl;
    channels = refl;
    terminated_order = refl;
    total_direct = refl;
    direct_deliveries = refl;
  };
  here = ground arith;
  others = λ k e. rw e;
  total = refl;
  by_ip = λ ip. ip_bytes-release msg.source_ip ip msg.size_bytes m d;
  distinct = release_ip-IsDistinct msg.source_ip msg.size_bytes m d;
}

SameElsewhere-trans :
    (m n o : ChannelManager) → SameElsewhere m n → SameElsewhere n o → SameElsewhere m o
SameElsewhere-trans m n o p q = record {
  next_ref = q.next_ref ∙ p.next_ref;
  channels = q.channels ∙ p.channels;
  terminated_order = q.terminated_order ∙ p.terminated_order;
  total_direct = q.total_direct ∙ p.total_direct;
  direct_deliveries = q.direct_deliveries ∙ p.direct_deliveries;
}

Releases-trans :
    (r a b : ℕ) (f g : String → ℕ) (m n o : ChannelManager)
    → Releases r a f m n
    → Releases r b g n o
    → Releases r (a + b) (λ ip. f ip + g ip) m o
Releases-trans r a b f g m n o p q = record {
  elsewhere = SameElsewhere-trans m n o p.elsewhere q.elsewhere;
  here = ground (arith, p.here, q.here);
  others = λ k e. q.others k e ∙ p.others k e;
  total = omega (arith, p.total, q.total);
  by_ip = λ ip. omega (arith, p.by_ip ip, q.by_ip ip);
  distinct = q.distinct;
}

pub release_messages-Releases :
    (r : ℕ) (msgs : List BufferedMessage) (m : ChannelManager)
    → Dict.IsDistinct m.buffered_bytes_by_ip
    → Releases r (bytes msgs) (λ ip. bytes_from ip msgs) m (release_messages r msgs m)
unfolding release_messages sum_by
release_messages-Releases r [] m d = record {
  elsewhere = record {
    next_ref = refl;
    channels = refl;
    terminated_order = refl;
    total_direct = refl;
    direct_deliveries = refl;
  };
  here = ground arith;
  others = λ k e. refl;
  total = omega arith;
  by_ip = λ ip. omega arith;
  distinct = d;
}
release_messages-Releases r (msg ∷ msgs) m d =
    let one = release_buffered_bytes-Releases r msg m d in
    Releases-trans r msg.size_bytes (bytes msgs) (λ ip. bytes_of_ip ip msg)
      (λ ip. bytes_from ip msgs) m (release_buffered_bytes r msg m) _ one
      (release_messages-Releases r msgs (release_buffered_bytes r msg m) one.distinct)
