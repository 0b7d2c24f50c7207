-- ===== src/Config/Mainnet/Pinned.antt =====
-- config/index.ts: what pins are read as.
use myqrlwallet_backend.Prelude.{
  ◌^◌, ◌≡◌, inl, inr, String, Bool, true, ◌&&◌, some, ltb, Bool-cases,
}
use myqrlwallet_backend.Patterns.{concat, is_hex, is_exactly, read_decimal, lower_text}
use myqrlwallet_backend.Hex.{to_hex}
use myqrlwallet_backend.Health.Types.{RpcIdentity}
use myqrlwallet_backend.Config.Mainnet.{pinned, malformed, is_chain_pin, parse_rpc_identity}

abbrev pub is_pinnable : String → String → Bool
is_pinnable c g = is_chain_pin c && is_exactly "0x" is_hex 64 g && ltb (read_decimal 0 c) (2 ^ 256)

abbrev pub pins_of : String → String → RpcIdentity
pins_of c g = record {
  chain_id = concat "0x" (to_hex (read_decimal 0 c));
  genesis_hash = lower_text g;
}

pub parse_rpc_identity-pinned :
    (c g : String) (p : RpcIdentity)
    → parse_rpc_identity (some c) (some g) ≡ pinned p
    → (is_pinnable c g ≡ true) × (pins_of c g ≡ p)
unfolding parse_rpc_identity
parse_rpc_identity-pinned c g p e = elim (Bool-cases (is_pinnable c g)) [
  | inr bad ↦ let wrong : malformed ≡ pinned p = rw (bad, parse_rpc_identity) at e in cc
  | inl good ↦
      let same : pinned (pins_of c g) ≡ pinned p = rw (good, parse_rpc_identity) at e in (good, cc)
]
