-- ===== src/Config/Tests.antt =====
-- The configuration on small inputs, and each theorem applied to one.
use myqrlwallet_backend.Prelude.{
  ◌≤◌, ◌<◌, ◌≡◌, ◌≢◌, ◌⊎◌, refl, String, true, Option, none, some, List, [], ◌∷◌, ◌==◌,
  if◌then◌else◌, str_eq, arith,
}
use myqrlwallet_backend.Patterns.{is_digit, every, trim_start, read_decimal, lower_text}
use myqrlwallet_backend.Config.Numbers.{
  Environment, parse_positive_int, parse_non_negative_int, load_ipfs_config, two_to_53, parse_int,
  parse_signed, read_digits, to_double, double_from, round_to,
}
use myqrlwallet_backend.Config.Numbers.Parsed.{load_ipfs_config-bounds, parse_ints-digits}
use myqrlwallet_backend.Config.Endpoints.{UrlTools}
use myqrlwallet_backend.Health.Types.{RpcIdentity}
use myqrlwallet_backend.Config.Mainnet.{PerNetwork, settle_mainnet}
use myqrlwallet_backend.Config.Mainnet.Separated.{Separated, settle_mainnet-Separated}

abbrev environment : Environment
environment name = if str_eq name "IPFS_MAX_CONCURRENT" then some "12" else none

load_ipfs_config-bounds_example :
    let cfg = load_ipfs_config environment (λ _. none) in
    (0 < cfg.max_size_bytes)
    × (0 < cfg.max_concurrent)
    × (0 < cfg.max_inflight_bytes)
    × (0 < cfg.server_error_window_ms)
    × (3 ≤ cfg.server_error_min_cids)
    × (900000 ≤ cfg.max_cooldown_ms)
    × (250 ≤ cfg.fallback_reserve_ms)
load_ipfs_config-bounds_example = load_ipfs_config-bounds environment (λ _. none)

digits : every is_digit "120" ≡ true
unfolding every
digits = refl

below : read_decimal 0 "120" < two_to_53
unfolding read_decimal
below = omega arith

-- The greatest safe integer plus two is rounded to an even number.
rounds : parse_positive_int (some "9007199254740993") 8 ≡ 9007199254740992
unfolding parse_positive_int parse_int parse_signed read_digits trim_start to_double double_from
    round_to
rounds = refl

parse_ints-digits_example :
    (parse_positive_int (some "120") 8
      ≡ (if read_decimal 0 "120" == 0 then 8 else read_decimal 0 "120"))
    × (parse_non_negative_int (some "120") 8 ≡ read_decimal 0 "120")
    × (parse_positive_int none 8 ≡ 8)
    × (parse_non_negative_int none 8 ≡ 8)
parse_ints-digits_example = parse_ints-digits "120" 8 digits (λ e. cc e) below

-- One URL is known to the parser.
abbrev tools : UrlTools
tools = record {
  parse_url = λ s.
      if str_eq s "http://localhost:8545/"
      then some
          (record { protocol = "http:"; hostname = "localhost"; port = "8545"; pathname = "/" })
      else none;
  is_ip = λ _. 0;
  to_lower_case = lower_text;
}

abbrev pins : PerNetwork (Option RpcIdentity)
pins = record {
  dev = none;
  testnet = none;
  mainnet = some (record { chain_id = "0x1"; genesis_hash = "0x00" });
}

abbrev lists : PerNetwork (List String)
lists = record {
  dev = [];
  testnet = "http://localhost:8545/" ∷ [];
  mainnet = "https://node.example" ∷ [];
}

abbrev histories : PerNetwork (Option String)
histories = record {
  dev = none;
  testnet = some "https://t.example";
  mainnet = some "https://m.example";
}

settle_mainnet-Separated_example :
    let x = settle_mainnet tools pins lists histories in
    (x.0.testnet ≡ lists.testnet)
    × (x.0.dev ≡ lists.dev)
    × ((x.0.mainnet ≡ []) ⊎ ((x.0.mainnet ≡ lists.mainnet) × Separated tools lists pins))
    × (Separated tools lists pins → x.0.mainnet ≡ lists.mainnet)
    × ((h : String)
        → x.1.mainnet ≡ some h
        → Separated tools lists pins
          × (histories.mainnet ≡ some h)
          × (histories.testnet ≢ some h)
          × (histories.dev ≢ some h))
settle_mainnet-Separated_example = settle_mainnet-Separated tools pins lists histories
