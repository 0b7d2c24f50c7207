-- ===== src/Config/Mainnet.antt =====
-- config/index.ts: mainnet is served only if it is pinned and separate from the other networks.
pub mod Separated
pub mod History
pub mod Pinned
pub mod Tests
use Prim.Native.Char.{code}
use myqrlwallet_backend.Prelude.{
  ℕ, suc, ◌^◌, String, Bool, true, false, not, ◌&&◌, ◌||◌, Option, none, some, List, [], ◌∷◌, ◌++◌,
  map, ltb, leb, ◌==◌, str_eq, if◌then◌else◌, is_some,
}
use myqrlwallet_backend.Patterns.{
  concat, is_digit, is_hex, every, count, is_exactly, read_decimal, lower_text, is_one_of,
}
use myqrlwallet_backend.Hex.{to_hex}
use myqrlwallet_backend.Health.Types.{RpcIdentity}
use myqrlwallet_backend.Config.Endpoints.{UrlTools, rpc_endpoint_key}

pub data Pins : Type 0 where
  no_pins malformed : Pins
  pinned : RpcIdentity → Pins

-- `^[1-9][0-9]{0,77}$`
unfoldable pub is_chain_pin : String → Bool
is_chain_pin String.[] = false
is_chain_pin (String.◌∷◌ c s) =
    leb b'1' (code c) && leb (code c) b'9' && every is_digit s && leb (count s) 77

-- Malformed pins end the start of the program.
unfoldable pub parse_rpc_identity : Option String → Option String → Pins
parse_rpc_identity none none = no_pins
parse_rpc_identity (some chain_id) (some genesis_hash) =
    if is_chain_pin chain_id
      && is_exactly "0x" is_hex 64 genesis_hash
      && ltb (read_decimal 0 chain_id) (2 ^ 256)
    then pinned (record {
      chain_id = concat "0x" (to_hex (read_decimal 0 chain_id));
      genesis_hash = lower_text genesis_hash;
    })
    else malformed
parse_rpc_identity _ _ = malformed

-- A value for each network.
pub record PerNetwork {ℓ} (A : Type ℓ) : Type ℓ where
  pub dev : A
  pub testnet : A
  pub mainnet : A

pub data SeparationProblem : Type 0 where
  unpinned same_pins : SeparationProblem
  overlap : ℕ → SeparationProblem

-- The place of the first endpoint whose key is one of others.
unfoldable pub find_overlap : UrlTools → List String → List String → Option ℕ
find_overlap tools keys [] = none
find_overlap tools keys (e ∷ es) =
    let later = find_overlap tools keys es in
    if is_one_of (rpc_endpoint_key tools e) keys
    then some 0
    else elim later [ none ↦ none | some n ↦ some (suc n) ]

abbrev pub is_empty : List String → Bool
is_empty [] = true
is_empty (s ∷ ss) = false

abbrev pub same_identity : Option RpcIdentity → Option RpcIdentity → Bool
same_identity (some p) (some q) =
    str_eq p.chain_id q.chain_id || str_eq p.genesis_hash q.genesis_hash
same_identity _ _ = false

abbrev pub other_keys : UrlTools → PerNetwork (List String) → List String
other_keys tools endpoints = map (rpc_endpoint_key tools) (endpoints.testnet ++ endpoints.dev)

unfoldable pub mainnet_separation_problem :
    UrlTools → PerNetwork (List String) → PerNetwork (Option RpcIdentity) → Option SeparationProblem
mainnet_separation_problem tools endpoints identities =
    if not (is_empty endpoints.mainnet) && not (is_some identities.mainnet)
    then some unpinned
    else elim (find_overlap tools (other_keys tools endpoints) endpoints.mainnet) [
      | some n ↦ some (overlap n)
      | none ↦ if same_identity identities.mainnet identities.testnet then some same_pins else none
    ]

abbrev pub is_origin : String → Option String → Bool
is_origin h none = false
is_origin h (some o) = str_eq h o

-- The origin of the mainnet history, if it may be used.
unfoldable pub settle_history :
    Bool → Option RpcIdentity → PerNetwork (Option String) → PerNetwork (Option String)
settle_history has_problem identity origins = elim origins.mainnet [
  | none ↦ origins
  | some h ↦
      if has_problem
        || not (is_some identity)
        || is_origin h origins.testnet
        || is_origin h origins.dev
      then record origins { mainnet = none }
      else origins
]

-- What becomes of the endpoints and the origins when the configuration is loaded.
unfoldable pub settle_mainnet :
    UrlTools
    → PerNetwork (Option RpcIdentity)
    → PerNetwork (List String)
    → PerNetwork (Option String)
    → PerNetwork (List String) × PerNetwork (Option String)
settle_mainnet tools identities endpoints origins =
    let has_problem = is_some (mainnet_separation_problem tools endpoints identities) in
    (
      if has_problem then record endpoints { mainnet = [] } else endpoints,
      settle_history has_problem identities.mainnet origins,
    )
