-- ===== src/Config/Numbers/Parsed.antt =====
-- config/index.ts: what the numbers of the configuration come to.
use Prim.Native.Char.{Char, code}
use myqrlwallet_backend.Prelude.{
  ℕ, suc, ◌+◌, ◌-◌, ◌*◌, ◌≤◌, ◌<◌, ◌≡◌, ◌≢◌, refl, ap, ◌∙◌, inl, inr, String, Bool, true, false,
  ◌&&◌, Option, none, some, ltb, ◌==◌, if◌then◌else◌, get_or_else, arith, Option-cases,
}
use myqrlwallet_backend.Patterns.{is_digit, every, is_space, trim_start, read_decimal}
use myqrlwallet_backend.Config.Numbers.{
  Environment, read_digits, round_to, two_to_53, double_from, to_double, parse_signed, parse_int,
  parse_positive_int, parse_non_negative_int, load_ipfs_config,
}

parse_positive_int-positive :
    (value : Option String) (fallback : ℕ) → 0 < fallback → 0 < parse_positive_int value fallback
unfolding parse_positive_int
parse_positive_int-positive value fallback h =
    elim (Option-cases (parse_int (get_or_else value ""))) [
      | inl q ↦ rw (q, parse_positive_int) h
      | inr (x, q) ↦ rw (q, parse_positive_int) (ground (arith, h))
    ]

-- Whatever the environment sets, the limits of the IPFS proxy are positive: a gateway cools down on
-- three distinct CIDs at least, it may cool down for at least 15 minutes, and a fallback has at
-- least 250 ms.
pub load_ipfs_config-bounds :
    (env : Environment) (parse_date : String → Option ℕ)
    → let cfg = load_ipfs_config env parse_date in
      (0 < cfg.max_size_bytes)
      × (0 < cfg.max_concurrent)
      × (0 < cfg.max_inflight_bytes)
      × (0 < cfg.server_error_window_ms)
      × (3 ≤ cfg.server_error_min_cids)
      × (900000 ≤ cfg.max_cooldown_ms)
      × (250 ≤ cfg.fallback_reserve_ms)
unfolding load_ipfs_config
load_ipfs_config-bounds env parse_date = (
  parse_positive_int-positive (env "IPFS_MAX_SIZE_BYTES") (10 * 1024 * 1024) (omega arith),
  parse_positive_int-positive (env "IPFS_MAX_CONCURRENT") 8 (omega arith),
  parse_positive_int-positive (env "IPFS_MAX_INFLIGHT_BYTES") (40 * 1024 * 1024) (omega arith),
  parse_positive_int-positive (env "IPFS_SERVER_ERROR_WINDOW_MS") 60000 (omega arith),
  omega arith,
  omega arith,
  omega arith,
)

read_digits-every :
    (n : ℕ) (s : String) → every is_digit s ≡ true → read_digits n true s ≡ some (read_decimal n s)
unfolding read_digits read_decimal every
read_digits-every n String.[] h = refl
read_digits-every n (String.◌∷◌ c s) h =
    ground (arith, h, read_digits-every (n * 10 + (code c - b'0')) s)

digit_is_plain :
    (c : ℕ)
    → is_digit c ≡ true
    → (is_space c ≡ false) × ((c == b'-') ≡ false) × ((c == b'+') ≡ false)
digit_is_plain c h = ground (arith, h)

parse_signed-digits :
    (c : Char) (s : String)
    → every is_digit (String.◌∷◌ c s) ≡ true
    → parse_signed (trim_start (String.◌∷◌ c s)) ≡ some (false, read_decimal 0 (String.◌∷◌ c s))
unfolding parse_signed trim_start every read_digits read_decimal
parse_signed-digits c s h =
    let (digit, others) = both (is_digit (code c)) (every is_digit s) h in
    let (space, minus, plus) = digit_is_plain (code c) digit in
    let value = read_digits-every (0 * 10 + (code c - b'0')) s others in
    let kept : trim_start (String.◌∷◌ c s) ≡ String.◌∷◌ c s = ground (arith, space) in
    ap parse_signed kept ∙ signed minus plus (ground (arith, digit, value))
  where
    both : (a b : Bool) → (a && b) ≡ true → (a ≡ true) × (b ≡ true)
    both a b q = ground (arith, q)

    signed :
        (code c == b'-') ≡ false
        → (code c == b'+') ≡ false
        → read_digits 0 false (String.◌∷◌ c s) ≡ some (read_decimal 0 (String.◌∷◌ c s))
        → parse_signed (String.◌∷◌ c s) ≡ some (false, read_decimal 0 (String.◌∷◌ c s))
    signed minus plus e = ground (arith, minus, plus, e)

round_to-one : (n : ℕ) → round_to 1 n ≡ n
unfolding round_to
round_to-one n = ground arith

double_from-exact : (more n : ℕ) → n < two_to_53 → double_from (suc more) 1 n ≡ some n
unfolding double_from
double_from-exact more n h =
    let small : ltb n (two_to_53 * 1) ≡ true = ground (arith, h) in
    let first : ltb (round_to 1 n) (two_to_53 * 1) ≡ true = rw (round_to-one n) small in
    rw (first, double_from) (ap some (round_to-one n))

to_double-exact : (n : ℕ) → n < two_to_53 → to_double n ≡ some n
unfolding to_double
to_double-exact n h = double_from-exact 971 n h

parse_int-digits :
    (c : Char) (s : String)
    → every is_digit (String.◌∷◌ c s) ≡ true
    → read_decimal 0 (String.◌∷◌ c s) < two_to_53
    → parse_int (String.◌∷◌ c s) ≡ some (false, read_decimal 0 (String.◌∷◌ c s))
unfolding parse_int
parse_int-digits c s h small =
    rw
      (
        parse_signed-digits c s h,
        to_double-exact (read_decimal 0 (String.◌∷◌ c s)) small,
        parse_int,
      )
      refl

-- A text of decimal digits for a number below 2 ^ 53 is exactly that number; where it is 0, the
-- fallback is taken if the number has to be positive. The fallback is taken as well where the
-- variable is not set.
pub parse_ints-digits :
    (s : String) (fallback : ℕ)
    → every is_digit s ≡ true
    → s ≢ ""
    → read_decimal 0 s < two_to_53
    → (parse_positive_int (some s) fallback
        ≡ (if read_decimal 0 s == 0 then fallback else read_decimal 0 s))
      × (parse_non_negative_int (some s) fallback ≡ read_decimal 0 s)
      × (parse_positive_int none fallback ≡ fallback)
      × (parse_non_negative_int none fallback ≡ fallback)
unfolding parse_positive_int parse_non_negative_int parse_int parse_signed trim_start
parse_ints-digits String.[] fallback h filled small = absurd (filled refl)
parse_ints-digits (String.◌∷◌ c s) fallback h filled small =
    let read = parse_int-digits c s h small in
    (
      rw (read, parse_positive_int) (ground arith),
      rw (read, parse_non_negative_int) refl,
      refl,
      refl,
    )
