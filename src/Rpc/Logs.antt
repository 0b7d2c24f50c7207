-- ===== src/Rpc/Logs.antt =====
-- rpc-security.ts: the bounds on the filter of qrl_getLogs.
pub mod Bounds
pub mod Forwarded
use myqrlwallet_backend.Prelude.{
  ℕ, ◌-◌, String, Bool, true, false, not, ◌&&◌, ◌||◌, Option, none, some, List, [], ◌∷◌, leb, ltb,
  ◌==◌, str_eq, if◌then◌else◌, is_some, length, Dict.Dict,
}
use myqrlwallet_backend.Prelude.Dict
use myqrlwallet_backend.Value.{
  Value, Items, Fields, is_missing, items, fields, is_record, field_of, is_text,
}
use myqrlwallet_backend.Patterns.{is_hex, is_exactly, strip, every, count, read_hex}
use myqrlwallet_backend.Rpc.Address.{is_qrl_address}
use myqrlwallet_backend.Patterns.{is_one_of}

abbrev pub max_getlogs_block_range : ℕ
max_getlogs_block_range = 5000

abbrev pub max_getlogs_addresses : ℕ
max_getlogs_addresses = 10

abbrev pub getlogs_filter_keys : List String
getlogs_filter_keys = "fromBlock" ∷ "toBlock" ∷ "blockHash" ∷ "address" ∷ "topics" ∷ []

abbrev pub is_undefined : Value → Bool
is_undefined Value.undefined = true
is_undefined _ = false

-- What follows the prefix of a pattern `/^0x.../i`.
abbrev pub strip_0x : String → Option String
strip_0x s = elim (strip "0x" s) [ none ↦ strip "0X" s | some rest ↦ some rest ]

-- `/^0x[0-9a-f]{128}$/i`
abbrev pub is_topic_word : Value → Bool
is_topic_word (Value.str s) = elim (strip_0x s) [
  | none ↦ false
  | some digits ↦ every is_hex digits && count digits == 128
]
is_topic_word _ = false

abbrev pub is_topic_choice : Value → Bool
is_topic_choice Value.null = true
is_topic_choice v = is_topic_word v

unfoldable pub all_of : (Value → Bool) → List Value → Bool
all_of p [] = true
all_of p (v ∷ vs) = p v && all_of p vs

unfoldable pub is_qrl_log_topic : Value → Bool
is_qrl_log_topic (Value.arr vs) = all_of is_topic_choice (items vs)
is_qrl_log_topic v = is_topic_choice v

unfoldable pub is_named_block_tag : Value → Bool
is_named_block_tag v = is_text "latest" v || is_text "pending" v || is_text "earliest" v

-- `/^0x[0-9a-f]{1,64}$/i`
unfoldable pub block_number : String → Option ℕ
block_number s = elim (strip_0x s) [
  | none ↦ none
  | some digits ↦
      if every is_hex digits && leb 1 (count digits) && leb (count digits) 64
      then some (read_hex 0 digits)
      else none
]

unfoldable pub parse_block_tag : Value → Option ℕ
parse_block_tag (Value.str s) = if is_named_block_tag (Value.str s) then none else block_number s
parse_block_tag _ = none

-- `/^0x[a-fA-F0-9]{64}$/`
abbrev pub is_hash : Value → Bool
is_hash (Value.str s) = is_exactly "0x" is_hex 64 s
is_hash _ = false

unfoldable pub has_canonical_keys : Dict Value → Bool
has_canonical_keys [] = true
has_canonical_keys ((k, v) ∷ fs) = is_one_of k getlogs_filter_keys && has_canonical_keys fs

-- A tag that is given and neither a number nor named.
abbrev pub is_bad_tag : Value → Bool
is_bad_tag v = not (is_missing v) && not (is_some (parse_block_tag v)) && not (is_named_block_tag v)

abbrev pub is_zero : Option ℕ → Bool
is_zero none = false
is_zero (some n) = n == 0

unfoldable pub exceeds_range : Option ℕ → Option ℕ → Bool
exceeds_range none to = false
exceeds_range (some from) none = false
exceeds_range (some from) (some to) = ltb to from || ltb max_getlogs_block_range (to - from)

unfoldable pub block_hash_problem : Value → Option String
block_hash_problem filter =
    if is_hash (field_of "blockHash" filter)
      && is_undefined (field_of "fromBlock" filter)
      && is_undefined (field_of "toBlock" filter)
    then none
    else some "Invalid params: blockHash must be a 32-byte hash and cannot be combined with a range"

unfoldable pub range_problem : Value → Option String
range_problem filter =
    let from_block = field_of "fromBlock" filter in
    let to_block = field_of "toBlock" filter in
    let from = parse_block_tag from_block in
    let to = parse_block_tag to_block in
    if is_bad_tag from_block || is_bad_tag to_block
    then some "Invalid params: invalid block tag"
    else if is_text "earliest" from_block || is_zero from
    then some "Invalid params: qrl_getLogs from genesis is not allowed; supply a recent fromBlock"
    else if exceeds_range from to
    then some "Invalid params: qrl_getLogs block range exceeds 5000"
    else if is_some from && (is_missing to_block || is_named_block_tag to_block)
    then some "Invalid params: numeric fromBlock requires a numeric toBlock"
    else none

unfoldable pub addresses : Value → List Value
addresses (Value.arr vs) = items vs
addresses v = v ∷ []

unfoldable pub address_problem : (List ℕ → List ℕ) → Value → Option String
address_problem shake256 v =
    if is_missing v
    then none
    else if ltb max_getlogs_addresses (length (addresses v))
    then some "Invalid params: too many addresses (max 10)"
    else if all_of (is_qrl_address shake256) (addresses v)
    then none
    else some "Invalid params: QRL addresses must match Q + 128 hex chars"

abbrev pub are_topics : Value → Bool
are_topics (Value.arr vs) = leb (length (items vs)) 4 && all_of is_qrl_log_topic (items vs)
are_topics _ = false

unfoldable pub topics_problem : Value → Option String
topics_problem v =
    if is_missing v
    then none
    else if are_topics v
    then none
    else some "Invalid params: log topics must be null or 0x-prefixed 64-byte values"

-- The first of two problems.
abbrev pub or_else : Option String → Option String → Option String
or_else none later = later
or_else (some message) later = some message

unfoldable pub filter_problem : (List ℕ → List ℕ) → Fields → Option String
filter_problem shake256 fs =
    let filter = Value.obj fs in
    let blocks =
      if is_missing (field_of "blockHash" filter)
      then range_problem filter
      else block_hash_problem filter in
    if has_canonical_keys (fields fs)
    then or_else blocks (
        or_else (address_problem shake256 (field_of "address" filter))
          (topics_problem (field_of "topics" filter)))
    else some "Invalid params: unknown or non-canonical filter key"

-- The fields of a filter that are given, in the order of the table of keys.
unfoldable pub pick : List String → Value → Fields
pick [] filter = Fields.no_fields
pick (k ∷ ks) filter =
    let rest = pick ks filter in
    let v = field_of k filter in if is_missing v then rest else Fields.field k v rest

unfoldable pub canonical_filter : Fields → Fields
canonical_filter fs = pick getlogs_filter_keys (Value.obj fs)
