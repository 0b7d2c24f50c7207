-- ===== src/Rpc/Execute/Keys.antt =====
-- rpc.service.ts: the keys of the cache tell requests apart.
mod Dashes
use Prim.Native.Char.{Char, code}
use myqrlwallet_backend.Prelude.{
  ℕ, zero, suc, ◌/◌, ◌%◌, ◌^◌, ◌<◌, ◌≡◌, ◌≢◌, ◌⊎◌, refl, sym, ap, ◌∙◌, subst, inl, inr, String,
  Bool, true, false, not, ◌&&◌, ◌||◌, Option, none, some, List, [], ◌∷◌, str_eq, ltb, leb,
  if◌then◌else◌, ◌==◌, arith, Bool-cases, Option-cases, eq_iff, if_either,
}
use myqrlwallet_backend.Patterns.{
  concat, every, is_hex, is_exactly, strip, lower_text, lower_char, char_at, is_one_of, is_digit,
  count, read_decimal, starts_with,
}
use myqrlwallet_backend.Hex.{hex_digit, hex_from, to_hex}
use myqrlwallet_backend.Hex.Roundtrip.{all_below, all_below-holds}
use myqrlwallet_backend.Health.Types.{RpcIdentity}
use myqrlwallet_backend.Config.Mainnet.Pinned.{parse_rpc_identity-pinned}
use myqrlwallet_backend.Config.Mainnet.{
  Pins, pinned, malformed, no_pins, is_chain_pin, parse_rpc_identity,
}
use myqrlwallet_backend.Rpc.Execute.Keys.Dashes.{
  not_dash, NoDash, is_hex_or_x, concat-injective, lower_text-NoDash, hex_from-NoDash, strip-every,
  every_weaker,
}
use myqrlwallet_backend.Rpc.Execute.{cache_key, identity_key, is_network_name, cacheable_methods}

-- The shape of pins: a prefixed hex text, and a text without a dash.
abbrev HasPinShape : RpcIdentity → Type 0
HasPinShape p = (n : ℕ) × (p.chain_id ≡ concat "0x" (to_hex n)) × NoDash p.genesis_hash

hash_plain : (g : String) → is_exactly "0x" is_hex 64 g ≡ true → every is_hex_or_x g ≡ true
unfolding every
hash_plain g h = elim (Option-cases (strip "0x" g)) [
  | inl nothing ↦ let wrong : false ≡ true = rw (nothing, is_exactly) at h in cc
  | inr (rest, q) ↦ strip-every is_hex_or_x "0x" g rest q refl (
      every_weaker is_hex is_hex_or_x (λ c k. ground (arith, k)) rest
        (ground (arith, rw (q, is_exactly) at h)))
]

pinned-HasPinShape :
    (c g : String) (p : RpcIdentity)
    → parse_rpc_identity (some c) (some g) ≡ pinned p
    → HasPinShape p
pinned-HasPinShape c g p e =
    let (good, pins) = parse_rpc_identity-pinned c g p e in
    subst HasPinShape pins
      (read_decimal 0 c, refl, lower_text-NoDash g (hash_plain g (middle _ _ _ good)))
  where
    middle : (a b c : Bool) → a && b && c ≡ true → b ≡ true
    middle a b c h = ground (arith, h)

chain_id_plain : (p : RpcIdentity) → HasPinShape p → NoDash p.chain_id
unfolding to_hex concat every
chain_id_plain p (n, is, g) = rw is (hex_from-NoDash (suc n) n "" refl)

no_pin :
    (m : String) → starts_with "0x" m ≡ false → (p : RpcIdentity) → HasPinShape p → m ≢ p.chain_id
unfolding strip concat
no_pin m h p (n, is, g) e =
    let wrong : true ≡ false = sym (ap (starts_with "0x") (e ∙ is)) ∙ h in cc

cacheable_plain :
    (m : String)
    → is_one_of m cacheable_methods ≡ true
    → NoDash m × ((p : RpcIdentity) → HasPinShape p → m ≢ p.chain_id)
unfolding every strip
cacheable_plain m h = elim (Bool-cases (str_eq m "qrl_chainId")) [
  | inl same ↦
      let is = (eq_iff m "qrl_chainId").0 same in
      (ap (every not_dash) is, no_pin m (ap (starts_with "0x") is))
  | inr other ↦
      let is = (eq_iff m "net_version").0 (ground (arith, h, other)) in
      (ap (every not_dash) is, no_pin m (ap (starts_with "0x") is))
]

network_plain : (n : String) → is_network_name n ≡ true → NoDash n
unfolding is_network_name every
network_plain n h = elim (Bool-cases (str_eq n "dev")) [
  | inl dev ↦ ap (every not_dash) ((eq_iff n "dev").0 dev)
  | inr other ↦ elim (Bool-cases (str_eq n "testnet")) [
    | inl testnet ↦ ap (every not_dash) ((eq_iff n "testnet").0 testnet)
    | inr rest ↦ ap (every not_dash) ((eq_iff n "mainnet").0 (ground (arith, h, other, rest)))
  ]
]

abbrev Shaped : Option RpcIdentity → Type 0
Shaped none = Unit
Shaped (some p) = HasPinShape p

-- The part of a key after its network.
identity_key-injective :
    (i j : Option RpcIdentity) (m n s t : String)
    → Shaped i
    → Shaped j
    → is_one_of m cacheable_methods ≡ true
    → is_one_of n cacheable_methods ≡ true
    → identity_key i (concat m (concat "-" s)) ≡ identity_key j (concat n (concat "-" t))
    → (i ≡ j) × (m ≡ n) × (s ≡ t)
identity_key-injective none none m n s t hi hj hm hn e =
    let (same, rest) =
      concat-injective m n s t (cacheable_plain m hm).0 (cacheable_plain n hn).0 e in
    (refl, same, rest)
identity_key-injective none (some q) m n s t hi hj hm hn e =
    let (same, rest) =
      concat-injective m q.chain_id s _ (cacheable_plain m hm).0 (chain_id_plain q hj) e in
    absurd ((cacheable_plain m hm).1 q hj same)
identity_key-injective (some p) none m n s t hi hj hm hn e =
    let (same, rest) =
      concat-injective n p.chain_id t _ (cacheable_plain n hn).0 (chain_id_plain p hi) (sym e) in
    absurd ((cacheable_plain n hn).1 p hi same)
identity_key-injective (some p) (some q) m n s t hi hj hm hn e =
    let (chains, after) =
      concat-injective p.chain_id q.chain_id _ _ (chain_id_plain p hi) (chain_id_plain q hj) e in
    let (hashes, last) = concat-injective p.genesis_hash q.genesis_hash _ _ hi.2 hj.2 after in
    let (same, rest) =
      concat-injective m n s t (cacheable_plain m hm).0 (cacheable_plain n hn).0 last in
    (ap some (λ k. record { chain_id = chains k; genesis_hash = hashes k }), same, rest)

-- The pins of a network, as the configuration reads them.
abbrev pub IsConfigured : Option RpcIdentity → Type 0
IsConfigured none = Unit
IsConfigured (some p) =
    (chain : String) × (genesis : String) × (parse_rpc_identity (some chain) (some genesis)
      ≡ pinned p)

IsConfigured-Shaped : (i : Option RpcIdentity) → IsConfigured i → Shaped i
IsConfigured-Shaped none h = tt
IsConfigured-Shaped (some p) (c, g, e) = pinned-HasPinShape c g p e

-- Two requests for cacheable methods share a key of the cache only if they agree on the network, on
-- the pins that the configuration gives it, on the method, and on the text of the parameters.
pub cache_key-injective :
    (a b : String) (i j : Option RpcIdentity) (m n s t : String)
    → is_network_name a ≡ true
    → is_network_name b ≡ true
    → IsConfigured i
    → IsConfigured j
    → is_one_of m cacheable_methods ≡ true
    → is_one_of n cacheable_methods ≡ true
    → cache_key a i m s ≡ cache_key b j n t
    → (a ≡ b) × (i ≡ j) × (m ≡ n) × (s ≡ t)
unfolding cache_key
cache_key-injective a b i j m n s t ha hb hi hj hm hn e =
    let (network, after) = concat-injective a b _ _ (network_plain a ha) (network_plain b hb) e in
    let (pins, method, params) =
      identity_key-injective i j m n s t (IsConfigured-Shaped i hi) (IsConfigured-Shaped j hj) hm hn
        after in
    (network, pins, method, params)
