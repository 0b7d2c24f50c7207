-- ===== src/Hex/Roundtrip.antt =====
-- The hex text of a number reads as that number.
use Prim.Native.Char.{code}
use myqrlwallet_backend.Prelude.{
  ℕ, zero, suc, ◌+◌, ◌*◌, ◌/◌, ◌%◌, ◌<◌, ◌≡◌, ◌&&◌, ==_iff, refl, ap, sym, ◌∙◌, inl, inr, String,
  Bool, true, ltb, ◌==◌, arith, Bool-cases,
}
use myqrlwallet_backend.Patterns.{hex_value, read_hex, char_at}
use myqrlwallet_backend.Hex.{hex_digit, hex_from, to_hex}

-- A test of every number below a bound.
unfoldable pub all_below : (ℕ → Bool) → ℕ → Bool
all_below p zero = true
all_below p (suc k) = p k && all_below p k

pub all_below-holds : (p : ℕ → Bool) (k n : ℕ) → all_below p k ≡ true → n < k → p n ≡ true
unfolding all_below
all_below-holds p zero n all h = elim h [ ]
all_below-holds p (suc k) n all h = elim (Bool-cases (n == k)) [
  | inl here ↦ let same = (==_iff n k).0 here in ap p same ∙ ground (arith, all)
  | inr below ↦ all_below-holds p k n (ground (arith, all)) (ground (arith, below, h))
]

hex_value-hex_digit : (n : ℕ) → n < 16 → hex_value (code (hex_digit n)) ≡ n
unfolding char_at all_below
hex_value-hex_digit n h =
    (==_iff (hex_value (code (hex_digit n))) n).0
      (all_below-holds (λ k. hex_value (code (hex_digit k)) == k) 16 n refl h)

first_digit : (n : ℕ) → n < 16 → 0 * 16 + hex_value (code (hex_digit n)) ≡ n
first_digit n h = rw (hex_value-hex_digit n h) (omega arith)

last_digit : (n : ℕ) → n / 16 * 16 + hex_value (code (hex_digit (n % 16))) ≡ n
last_digit n = rw (hex_value-hex_digit (n % 16) (omega arith)) (omega arith)

read_hex-hex_from :
    (fuel n : ℕ) (acc : String) → n < fuel → read_hex 0 (hex_from fuel n acc) ≡ read_hex n acc
unfolding read_hex hex_from
read_hex-hex_from zero n acc h = elim h [ ]
read_hex-hex_from (suc fuel) n acc h = elim (Bool-cases (ltb n 16)) [
  | inl small ↦ rw small (ap (λ k. read_hex k acc) (first_digit n (ground (arith, small))))
  | inr large ↦ rw large (
      read_hex-hex_from fuel (n / 16) _ (ground (arith, large, h))
      ∙ ap (λ k. read_hex k acc) (last_digit n))
]

-- Reading the hex text of a number gives the number back, so distinct numbers have distinct texts.
pub read_hex-to_hex : (n m : ℕ) → (read_hex 0 (to_hex n) ≡ n) × (to_hex n ≡ to_hex m → n ≡ m)
unfolding to_hex read_hex
read_hex-to_hex n m =
    let back = λ (k : ℕ). read_hex-hex_from (suc k) k "" (omega arith) in
    (back n, λ e. sym (back n) ∙ ap (read_hex 0) e ∙ back m)
