-- ===== src/Hex.antt =====
-- Numbers as hex text, as `toString(16)` writes them.
pub mod Roundtrip
pub mod Canonical
use Prim.Native.Char.{Char, nul}
use myqrlwallet_backend.Prelude.{ℕ, zero, suc, ◌/◌, ◌%◌, String, ltb, if◌then◌else◌}
use myqrlwallet_backend.Patterns.{char_at}

abbrev pub hex_digits : String
hex_digits = "0123456789abcdef"

abbrev pub hex_digit : ℕ → Char
hex_digit n = char_at n hex_digits nul

-- The digits of a number in front of others, the lowest first; the fuel bounds their number.
unfoldable pub hex_from : ℕ → ℕ → String → String
hex_from zero n acc = acc
hex_from (suc fuel) n acc =
    let more = hex_from fuel (n / 16) (String.◌∷◌ (hex_digit (n % 16)) acc) in
    if ltb n 16 then String.◌∷◌ (hex_digit n) acc else more

-- Each division makes a number smaller, so its successor is fuel enough.
unfoldable pub to_hex : ℕ → String
to_hex n = hex_from (suc n) n ""
