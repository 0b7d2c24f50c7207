-- ===== src/Health/Identity.antt =====
-- healthMonitor.ts and config/index.ts: an endpoint's chain id against the pin of its network.
use Prim.Native.Char.{code}
use myqrlwallet_backend.Prelude.{
  ℕ, ◌≡◌, ◌↔◌, refl, sym, ap, ◌∙◌, inl, inr, String, Bool, true, false, none, some, ◌&&◌, ◌==◌,
  ==_iff, arith, leb, Bool-cases, Option-cases,
}
use myqrlwallet_backend.Patterns.{
  concat, strip, is_positive_hex, lower, lower_eq, read_hex, read_decimal, every, count,
}
use myqrlwallet_backend.Value.{Value}
use myqrlwallet_backend.Hex.{to_hex}
use myqrlwallet_backend.Hex.Canonical.{lower_eq-to_hex}
use myqrlwallet_backend.Config.Mainnet.{pinned, parse_rpc_identity}
use myqrlwallet_backend.Config.Mainnet.Pinned.{parse_rpc_identity-pinned}
use myqrlwallet_backend.Health.Types.{RpcIdentity}
use myqrlwallet_backend.Health.Poll.{is_chain_id, has_chain_id}

strip-lower_eq :
    (p s rest t : String)
    → strip p s ≡ some rest
    → every (λ c. lower c == c) p ≡ true
    → lower_eq s (concat p t) ≡ lower_eq rest t
unfolding strip every lower_eq concat
strip-lower_eq String.[] s rest t e h = let same : s ≡ rest = cc in ap (λ x. lower_eq x t) same
strip-lower_eq (String.◌∷◌ c p) String.[] rest t e h = cc
strip-lower_eq (String.◌∷◌ c p) (String.◌∷◌ d s) rest t e h = elim (Bool-cases (code c == code d)) [
  | inr differ ↦ let wrong : none ≡ some rest = rw (differ, strip) at e in cc
  | inl same ↦
      let rec = strip-lower_eq p s rest t (rw (same, strip) at e) (ground (arith, h)) in
      let alike : code c ≡ code d = (==_iff (code c) (code d)).0 same in
      let head : (lower (code d) == code c) ≡ true =
        ap (λ k. lower k == code c) (sym alike) ∙ ground (arith, h) in
      ap (λ b. b && lower_eq s (concat p t)) head ∙ rec
]

-- A text with its prefix, against the pin of a number.
abbrev is_text_of : ℕ → String → Bool
is_text_of m rest = (is_positive_hex rest && leb (count rest) 64) && lower_eq rest (to_hex m)

has_chain_id-rest :
    (m : ℕ) (s rest : String) (p : RpcIdentity)
    → p.chain_id ≡ concat "0x" (to_hex m)
    → strip "0x" s ≡ some rest
    → has_chain_id p (Value.str s) ≡ is_text_of m rest
unfolding has_chain_id is_chain_id every
has_chain_id-rest m s rest p pin q =
    ap (λ id. is_chain_id s && lower_eq s id) pin
    ∙ ap (λ b. is_chain_id s && b) (strip-lower_eq "0x" s rest (to_hex m) q refl)
    ∙ ap (λ b. b && lower_eq rest (to_hex m)) (rw (q, is_chain_id) refl)

has_chain_id-prefix :
    (s : String) (p : RpcIdentity)
    → has_chain_id p (Value.str s) ≡ true
    → (rest : String) × (strip "0x" s ≡ some rest)
unfolding has_chain_id is_chain_id
has_chain_id-prefix s p h = elim (Option-cases (strip "0x" s)) [
  | inl nothing ↦
      let shut : is_chain_id s ≡ false = rw (nothing, is_chain_id) refl in
      let wrong : false ≡ true = rw shut at h in cc
  | inr found ↦ found
]

is_text_of_iff :
    (m : ℕ) (rest : String)
    → (is_text_of m rest ≡ true)
      ↔ ((is_positive_hex rest ≡ true) × (leb (count rest) 64 ≡ true) × (read_hex 0 rest ≡ m))
is_text_of_iff m rest = (
  (λ h.
      let pos : is_positive_hex rest ≡ true = ground (arith, h) in
      (pos, ground (arith, h), (lower_eq-to_hex rest m pos).0 (ground (arith, h)))),
  λ (pos, short, value).
      let same = (lower_eq-to_hex rest m pos).1 value in ground (arith, pos, short, same),
)

-- Against the pin of a network that the configuration reads from a decimal text, the health monitor
-- accepts as chain id exactly the texts that are, after `0x`, hex numbers of at most 64 digits
-- without leading zeros and equal to that number, whatever the case of their digits.
pub has_chain_id_iff :
    (c g s : String) (p : RpcIdentity)
    → parse_rpc_identity (some c) (some g) ≡ pinned p
    → (has_chain_id p (Value.str s) ≡ true) ↔ (
        (rest : String) × (strip "0x" s ≡ some rest)
        × (is_positive_hex rest ≡ true)
        × ((leb (count rest) 64) ≡ true)
        × (read_hex 0 rest ≡ read_decimal 0 c))
has_chain_id_iff c g s p e = (
  (λ h.
      let (rest, q) = has_chain_id-prefix s p h in
      let (pos, short, value) =
        (is_text_of_iff m rest).0 (sym (has_chain_id-rest m s rest p pin q) ∙ h) in
      (rest, q, pos, short, value)),
  λ (rest, q, pos, short, value).
      has_chain_id-rest m s rest p pin q ∙ (is_text_of_iff m rest).1 (pos, short, value),
)
  where
    m : ℕ
    m = read_decimal 0 c

    pin : p.chain_id ≡ concat "0x" (to_hex m)
    pin = ap (λ x. x.chain_id) (sym (parse_rpc_identity-pinned c g p e).1)
