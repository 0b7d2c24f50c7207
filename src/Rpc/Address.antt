-- ===== src/Rpc/Address.antt =====
-- src/utils/qrl-address.ts and src/crypto/qip55-checksum.ts: the form of an address.
pub mod Checksum
use Prim.Native.Char.{code}
use myqrlwallet_backend.Prelude.{
  ℕ, suc, ◌-◌, ◌/◌, ◌%◌, ◌≡◌, refl, String, Bool, true, false, ◌&&◌, ◌||◌, none, some, List, [],
  ◌∷◌, map, ltb, leb, ◌==◌, if◌then◌else◌, All, arith,
}
use myqrlwallet_backend.Patterns.{is_hex, lower, strip, every, count}
use myqrlwallet_backend.Value.{Value}

unfoldable pub codes : String → List ℕ
codes String.[] = []
codes (String.◌∷◌ c s) = code c ∷ codes s

unfoldable pub same_codes : List ℕ → List ℕ → Bool
same_codes [] [] = true
same_codes (c ∷ cs) (d ∷ ds) = c == d && same_codes cs ds
same_codes _ _ = false

-- `toUpperCase` on an ASCII letter.
abbrev pub upper : ℕ → ℕ
upper c = if leb b'a' c && leb c b'z' then c - 32 else c

-- `hash[i] ?? 0`
unfoldable pub byte_at : ℕ → List ℕ → ℕ
byte_at i [] = 0
byte_at i (b ∷ bs) = let later = byte_at (i - 1) bs in if i == 0 then b else later

-- The nibble of a digest for the character at a place.
unfoldable pub nibble_at : ℕ → List ℕ → ℕ
nibble_at i digest = if i % 2 == 0 then byte_at (i / 2) digest / 16 else byte_at (i / 2) digest % 16

unfoldable pub cased : ℕ → ℕ → ℕ
cased nibble c = if ltb c b'a' || ltb b'f' c then c else if leb 8 nibble then upper c else c

-- The loop over the characters, from a place on.
unfoldable pub cased_from : List ℕ → ℕ → List ℕ → List ℕ
cased_from digest i [] = []
cased_from digest i (c ∷ cs) = cased (nibble_at i digest) c ∷ cased_from digest (suc i) cs

-- SHAKE-256 with half a byte for each character is a parameter.
unfoldable pub checksummed_body : (List ℕ → List ℕ) → List ℕ → List ℕ
checksummed_body shake256 body = cased_from (shake256 body) 0 body

unfoldable pub has_valid_case : (List ℕ → List ℕ) → List ℕ → Bool
has_valid_case shake256 body =
    same_codes body (map lower body)
    || same_codes body (map upper body)
    || same_codes body (checksummed_body shake256 (map lower body))

abbrev pub qrl_address_hex_length : ℕ
qrl_address_hex_length = 128

unfoldable pub is_qrl_address : (List ℕ → List ℕ) → Value → Bool
is_qrl_address shake256 (Value.str s) = elim (strip "Q" s) [
  | none ↦ false
  | some rest ↦
      every is_hex rest
      && count rest == qrl_address_hex_length
      && has_valid_case shake256 (codes rest)
]
is_qrl_address shake256 _ = false
