-- ===== src/Config/Numbers.antt =====
-- config/index.ts: numbers, and the limits of the IPFS proxy.
pub mod Parsed
use Prim.Native.Char.{code}
use myqrlwallet_backend.Prelude.{
  ℕ, zero, suc, ◌+◌, ◌-◌, ◌*◌, ◌/◌, ◌%◌, ◌≤◌, ◌<◌, max, String, Bool, true, false, not, ◌&&◌, ◌||◌,
  Option, none, some, ltb, leb, ◌==◌, if◌then◌else◌, get_or_else, arith,
}
use myqrlwallet_backend.Patterns.{is_digit, trim_start}
use myqrlwallet_backend.Ipfs.Types.{IpfsConfig}

-- The environment: the text of a variable that is set.
abbrev pub Environment : Type 0
Environment = String → Option String

-- The digits at the start of a text, after those that are read already.
unfoldable pub read_digits : ℕ → Bool → String → Option ℕ
read_digits n seen String.[] = if seen then some n else none
read_digits n seen (String.◌∷◌ c s) =
    let more = read_digits (n * 10 + (code c - b'0')) true s in
    if is_digit (code c) then more else if seen then some n else none

-- The sign and the number that `parseInt(text, 10)` reads, before it is rounded.
unfoldable pub parse_signed : String → Option (Bool × ℕ)
parse_signed String.[] = none
parse_signed (String.◌∷◌ c s) =
    let signed = if code c == b'-' || code c == b'+' then s else String.◌∷◌ c s in
    elim (read_digits 0 false signed) [ none ↦ none | some n ↦ some (code c == b'-', n) ]

-- The nearest multiple of a unit, of two the one that is an even multiple.
unfoldable pub round_to : ℕ → ℕ → ℕ
round_to unit n =
    let q = n / unit in
    let twice = n % unit * 2 in
    if ltb unit twice || twice == unit && q % 2 == 1 then (q + 1) * unit else q * unit

abbrev pub two_to_53 : ℕ
two_to_53 = 9007199254740992

-- A number rounded to 53 bits, from a unit on, with as many units to try, each twice the last.
unfoldable pub double_from : ℕ → ℕ → ℕ → Option ℕ
double_from zero unit n = none
double_from (suc more) unit n =
    let rounded = round_to unit n in
    elim (ltb rounded (two_to_53 * unit)) [
      | true ↦ some rounded
      | false ↦ double_from more (unit * 2) n
    ]

-- The double for a number: the units are 2 ^ 0 to 2 ^ 971, and what is beyond is infinite.
unfoldable pub to_double : ℕ → Option ℕ
to_double n = double_from 972 1 n

-- `parseInt(text, 10)` where that is an integer, neither NaN nor infinite.
unfoldable pub parse_int : String → Option (Bool × ℕ)
parse_int s = elim (parse_signed (trim_start s)) [
  | none ↦ none
  | some x ↦ elim (to_double x.1) [ none ↦ none | some n ↦ some (x.0, n) ]
]

unfoldable pub parse_positive_int : Option String → ℕ → ℕ
parse_positive_int value fallback = elim (parse_int (get_or_else value "")) [
  | none ↦ fallback
  | some x ↦ if not x.0 && ltb 0 x.1 then x.1 else fallback
]

-- Minus zero is zero.
unfoldable pub parse_non_negative_int : Option String → ℕ → ℕ
parse_non_negative_int value fallback = elim (parse_int (get_or_else value "")) [
  | none ↦ fallback
  | some x ↦ if x.0 && ltb 0 x.1 then fallback else x.1
]

-- The part of `CONFIG` that the IPFS proxy uses.
unfoldable pub load_ipfs_config : Environment → (String → Option ℕ) → IpfsConfig
load_ipfs_config env parse_date = record {
  max_size_bytes = parse_positive_int (env "IPFS_MAX_SIZE_BYTES") (10 * 1024 * 1024);
  max_concurrent = parse_positive_int (env "IPFS_MAX_CONCURRENT") 8;
  max_inflight_bytes = parse_positive_int (env "IPFS_MAX_INFLIGHT_BYTES") (40 * 1024 * 1024);
  fallback_reserve_ms = max 250 (parse_positive_int (env "IPFS_FALLBACK_RESERVE_MS") 1000);
  server_error_window_ms = parse_positive_int (env "IPFS_SERVER_ERROR_WINDOW_MS") 60000;
  server_error_min_cids = max 3 (parse_positive_int (env "IPFS_SERVER_ERROR_MIN_CIDS") 3);
  max_cooldown_ms = max 900000 (parse_positive_int (env "IPFS_MAX_COOLDOWN_MS") 900000);
  parse_date = parse_date;
}
