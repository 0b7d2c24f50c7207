-- ===== src/Rpc/Logs/Bounds.antt =====
-- rpc-security.ts: what a qrl_getLogs request that is passed on can ask for.
use myqrlwallet_backend.Prelude.{
  ℕ, ◌+◌, ◌<◌, ◌≤◌, ◌≡◌, ◌⊎◌, refl, sym, ap, inl, inr, String, true, false, ◌||◌, none, some, List,
  [], ◌∷◌, str_eq, if◌then◌else◌, length, arith, eq_iff, eq_refl, Bool-cases, Option-cases,
}
use myqrlwallet_backend.Prelude.Dict
use myqrlwallet_backend.Value.{Value, is_missing, Fields, fields, field_of, is_text}
use myqrlwallet_backend.Rpc.Address.{is_qrl_address}
use myqrlwallet_backend.Patterns.{is_one_of}
use myqrlwallet_backend.Rpc.Logs.{
  is_undefined, is_bad_tag, is_named_block_tag, parse_block_tag, is_hash, has_canonical_keys,
  getlogs_filter_keys, exceeds_range, range_problem, addresses, are_topics, pick, all_of,
  max_getlogs_addresses, max_getlogs_block_range,
}
use myqrlwallet_backend.Rpc.Params.{set_field}

-- What a filter built again has for a field.
abbrev pub present : Value → Value
present v = if is_missing v then Value.undefined else v

present-cases : (v : Value) → (present v ≡ v) ⊎ ((v ≡ Value.null) × (present v ≡ Value.undefined))
present-cases Value.undefined = inl refl
present-cases Value.null = inr (refl, refl)
present-cases (Value.obj fs) = inl refl
present-cases (Value.arr vs) = inl refl
present-cases (Value.bool b) = inl refl
present-cases (Value.str s) = inl refl
present-cases (Value.num n) = inl refl

pub pick-field_of :
    (k : String) (ks : List String) (filter : Value)
    → field_of k (Value.obj (pick ks filter))
      ≡ (if is_one_of k ks then present (field_of k filter) else Value.undefined)
unfolding pick Dict.get
pick-field_of k [] filter = refl
pick-field_of k (j ∷ ks) filter = elim (Bool-cases (str_eq k j)) [
  | inl hit ↦
      let same = ap (λ x. field_of x filter) ((eq_iff k j).0 hit) in
      let back = (eq_iff j k).1 (sym ((eq_iff k j).0 hit)) in
      elim (Bool-cases (is_missing (field_of j filter))) [
        | inl gone ↦ ground (arith, hit, gone, same, pick-field_of k ks filter)
        | inr here ↦ ground (arith, hit, here, same, back, pick-field_of k ks filter)
      ]
  | inr miss ↦ elim (Bool-cases (is_missing (field_of j filter))) [
    | inl gone ↦ ground (arith, miss, gone, pick-field_of k ks filter)
    | inr here ↦ ground (arith, miss, here, pick-field_of k ks filter, eq_iff k j, eq_iff j k)
  ]
]

pub pick-has_canonical_keys :
    (ks : List String) (filter : Value)
    → ((k : String) → is_one_of k ks ≡ true → is_one_of k getlogs_filter_keys ≡ true)
    → has_canonical_keys (fields (pick ks filter)) ≡ true
unfolding pick has_canonical_keys
pick-has_canonical_keys [] filter h = refl
pick-has_canonical_keys (k ∷ ks) filter h =
    let rest = pick-has_canonical_keys ks filter λ j q. h j (ground (arith, q)) in
    let first = h k (ground (arith, eq_refl k)) in ground (arith, rest, first)

pub set_field-field_of :
    (name : String) (v : Value) (fs : Fields) → field_of name (Value.obj (set_field name v fs)) ≡ v
unfolding set_field Dict.get
set_field-field_of name v Fields.no_fields = ground (arith, eq_refl name)
set_field-field_of name v (Fields.field k w fs) = elim (Bool-cases (str_eq k name)) [
  | inl hit ↦ let back = (eq_iff k name).0 hit in ground (arith, hit, eq_refl name, back)
  | inr miss ↦ ground (arith, miss, set_field-field_of name v fs, eq_iff k name, eq_iff name k)
]

-- A filter that asks the node for a bounded amount: one block by its hash, or no numeric start, or a
-- range of at most 5000 blocks above genesis; few addresses and topics, each well formed.
pub record IsBounded (shake256 : List ℕ → List ℕ) (filter : Value) : Type 0 where
  pub blocks :
      (is_hash (field_of "blockHash" filter) ≡ true)
        × (field_of "fromBlock" filter ≡ Value.undefined)
        × (field_of "toBlock" filter ≡ Value.undefined)
      ⊎ ((field_of "blockHash" filter ≡ Value.undefined)
          × (is_text "earliest" (field_of "fromBlock" filter) ≡ false)
          × ((from : ℕ)
              → parse_block_tag (field_of "fromBlock" filter) ≡ some from
              → (to : ℕ) × (parse_block_tag (field_of "toBlock" filter) ≡ some to)
                × (0 < from)
                × (from ≤ to)
                × (to ≤ from + max_getlogs_block_range)))
  pub few_addresses :
      (field_of "address" filter ≡ Value.undefined)
      ⊎ ((length (addresses (field_of "address" filter)) ≤ max_getlogs_addresses)
          × (all_of (is_qrl_address shake256) (addresses (field_of "address" filter)) ≡ true))
  pub few_topics :
      (field_of "topics" filter ≡ Value.undefined) ⊎ (are_topics (field_of "topics" filter) ≡ true)

pub present-missing : (v : Value) → is_missing v ≡ true → present v ≡ Value.undefined
present-missing v e = ground (arith, e)

pub present-given : (v : Value) → is_missing v ≡ false → present v ≡ v
present-given v e = ground (arith, e)

pub undefined_missing : (v : Value) → is_undefined v ≡ true → v ≡ Value.undefined
undefined_missing Value.undefined e = refl
undefined_missing Value.null e = cc
undefined_missing (Value.obj fs) e = cc
undefined_missing (Value.arr vs) e = cc
undefined_missing (Value.bool b) e = cc
undefined_missing (Value.str s) e = cc
undefined_missing (Value.num n) e = cc

pub hash_given : (v : Value) → is_hash v ≡ true → is_missing v ≡ false
hash_given Value.undefined e = cc
hash_given Value.null e = cc
hash_given (Value.obj fs) e = refl
hash_given (Value.arr vs) e = refl
hash_given (Value.bool b) e = refl
hash_given (Value.str s) e = refl
hash_given (Value.num n) e = refl

pub tag_present :
    (v : Value)
    → (parse_block_tag (present v) ≡ parse_block_tag v)
      × (is_text "earliest" (present v) ≡ is_text "earliest" v)
unfolding parse_block_tag
tag_present Value.undefined = (refl, refl)
tag_present Value.null = (refl, refl)
tag_present (Value.obj fs) = (refl, refl)
tag_present (Value.arr vs) = (refl, refl)
tag_present (Value.bool b) = (refl, refl)
tag_present (Value.str s) = (refl, refl)
tag_present (Value.num n) = (refl, refl)

-- A tag that names a number is neither missing nor a named tag.
tag_numeric :
    (v : Value)
    → (is_bad_tag v ≡ false)
    → is_missing v || is_named_block_tag v ≡ false
    → (n : ℕ) × (parse_block_tag v ≡ some n)
tag_numeric v fine given = elim (Option-cases (parse_block_tag v)) [
  | inl q ↦ ground (arith, q, fine, given)
  | inr (n, q) ↦ (n, q)
]

pub range-numeric :
    (filter : Value) (from : ℕ)
    → range_problem filter ≡ none
    → parse_block_tag (field_of "fromBlock" filter) ≡ some from
    → (to : ℕ) × (parse_block_tag (field_of "toBlock" filter) ≡ some to)
      × (0 < from)
      × (from ≤ to)
      × (to ≤ from + max_getlogs_block_range)
unfolding range_problem exceeds_range
range-numeric filter from e q =
    elim (Bool-cases
      (is_bad_tag (field_of "fromBlock" filter) || is_bad_tag (field_of "toBlock" filter))) [
        | inl bad ↦ ground (arith, bad)
        | inr fine ↦
            elim (Bool-cases (
              is_missing (field_of "toBlock" filter)
              || is_named_block_tag (field_of "toBlock" filter))) [
                | inl dynamic ↦ ground (arith, fine, dynamic, q)
                | inr numeric ↦
                    let (to, p) =
                      tag_numeric (field_of "toBlock" filter) (ground (arith, fine)) numeric in
                    (
                      to,
                      p,
                      ground (arith, fine, numeric, q, p),
                      ground (arith, fine, numeric, q, p),
                      ground (arith, fine, numeric, q, p),
                    )
              ]
      ]

pub range-earliest :
    (filter : Value)
    → range_problem filter ≡ none
    → is_text "earliest" (field_of "fromBlock" filter) ≡ false
unfolding range_problem
range-earliest filter e =
    elim (Bool-cases
      (is_bad_tag (field_of "fromBlock" filter) || is_bad_tag (field_of "toBlock" filter))) [
        | inl bad ↦ ground (arith, bad)
        | inr fine ↦ elim (Bool-cases (is_text "earliest" (field_of "fromBlock" filter))) [
          | inl hit ↦ ground (arith, fine, hit)
          | inr miss ↦ miss
        ]
      ]
