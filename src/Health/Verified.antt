-- ===== src/Health/Verified.antt =====
-- healthMonitor.ts: what a poll proves, and what it leaves in the endpoint's record.
pub mod Outcomes
use myqrlwallet_backend.Prelude.{
  ℕ, suc, ◌*◌, ◌≤◌, ◌≡◌, ◌⊎◌, refl, sym, ap, ◌∙◌, inl, inr, String, Bool, true, false, Option, none,
  some, List, ltb, ◌==◌, str_eq, arith, Bool-cases, Option-cases,
}
use myqrlwallet_backend.Value.{Value, is_record, has_field, field_of, is_text, is_number}
use myqrlwallet_backend.Health.Types.{RpcIdentity, EndpointRecord, HealthConfig, Thrown}
use myqrlwallet_backend.Health.Progress.{
  apply_poll_success, apply_failure, note_height, is_advance, is_regression, state_after,
}
use myqrlwallet_backend.Health.Poll.{
  Reply, threw, not_ok, body, Poll, Result, ok, throw, bind, error, is_envelope, parse_hex_height,
  some_height, read_height, query, has_chain_id, is_genesis, require, check_identity, read_syncing,
  read_timestamp, is_height_of, max_timestamp, Evidence, check_replies, note_poll, note_evidence,
  poll_one,
}

bind-ok :
    {A B : Type 0} (r : Result A) (f : A → Result B) (b : B)
    → bind r f ≡ ok b
    → (a : A) × (r ≡ ok a) × (f a ≡ ok b)
bind-ok (ok a) f b e = (a, refl, e)
bind-ok (throw x) f b e = cc

-- A request was answered by an envelope of its own, whose result is `x`.
pub record Answered (method : String) (r : Reply) (x : Value) : Type 0 where
  pub content : Value
  pub arrived : r ≡ body content
  pub envelope : is_envelope content ≡ true
  pub own : is_text method (field_of "id" content) ≡ true
  pub result : field_of "result" content ≡ x

query-Answered :
    (method : String) (r : Reply) (x : Value) → query method r ≡ ok x → Answered method r x
unfolding query
query-Answered method (threw t) x e = cc
query-Answered method (not_ok status) x e = cc
query-Answered method (body v) x e = elim (Bool-cases (is_envelope v)) [
  | inl q ↦ elim (Bool-cases (is_text method (field_of "id" v))) [
    | inl own ↦ elim (Bool-cases (has_field "result" v)) [
      | inl has ↦ record {
        content = v;
        arrived = refl;
        envelope = q;
        own = own;
        result = ground (arith, q, own, has);
      }
      | inr lacks ↦ ground (arith, q, own, lacks)
    ]
    | inr other ↦ ground (arith, q, other)
  ]
  | inr q ↦ ground (arith, q)
]

-- The head was answered under the poll's own id, as a number in hex.
pub record HeadSeen (p : Poll) (height : ℕ) : Type 0 where
  pub content : Value
  pub arrived : p.block_number ≡ body content
  pub envelope : is_envelope content ≡ true
  pub own : is_number p.started (field_of "id" content) ≡ true
  pub parsed : parse_hex_height (field_of "result" content) ≡ some height

some_height-ok : (o : Option ℕ) (n : ℕ) → some_height o ≡ ok n → o ≡ some n
some_height-ok none n e = cc
some_height-ok (some k) n e = cc

read_height-HeadSeen :
    (p : Poll) (r : Reply) (n : ℕ)
    → p.block_number ≡ r
    → read_height p.started r ≡ ok n
    → HeadSeen p n
unfolding read_height parse_hex_height
read_height-HeadSeen p (threw t) n q e = cc
read_height-HeadSeen p (not_ok status) n q e = cc
read_height-HeadSeen p (body v) n q e = elim (Bool-cases (is_envelope v)) [
  | inl env ↦ elim (Bool-cases (is_number p.started (field_of "id" v))) [
    | inl own ↦ record {
      content = v;
      arrived = q;
      envelope = env;
      own = own;
      parsed =
          some_height-ok (parse_hex_height (field_of "result" v)) n
            (rw (env, own, read_height) at e);
    }
    | inr other ↦ ground (arith, env, other)
  ]
  | inr env ↦ ground (arith, env)
]

-- The chain id and the genesis block that the endpoint gives are those of the expected identity.
pub record Identified (p : Poll) (i : RpcIdentity) : Type 0 where
  pub chain : Value
  pub genesis : Value
  pub chain_answered : Answered "qrl_chainId" p.chain_id chain
  pub genesis_answered : Answered "qrl_getBlockByNumber" p.genesis genesis
  pub chain_matches : has_chain_id i chain ≡ true
  pub genesis_matches : is_genesis i genesis ≡ true

require-ok : (b : Bool) (s : String) → require b s ≡ ok tt → b ≡ true
require-ok true s e = refl
require-ok false s e = cc

check_identity-Identified :
    (i : RpcIdentity) (p : Poll) → check_identity (some i) p ≡ ok tt → Identified p i
unfolding check_identity
check_identity-Identified i p e =
    let (c, qc, e1) = bind-ok (query "qrl_chainId" p.chain_id) _ tt e in
    let (u, match, e2) =
      bind-ok (require (has_chain_id i c) "RPC chain identity mismatch") _ tt e1 in
    let (g, qg, e3) = bind-ok (query "qrl_getBlockByNumber" p.genesis) _ tt e2 in
    record {
      chain = c;
      genesis = g;
      chain_answered = query-Answered "qrl_chainId" p.chain_id c qc;
      genesis_answered = query-Answered "qrl_getBlockByNumber" p.genesis g qg;
      chain_matches = require-ok (has_chain_id i c) "RPC chain identity mismatch" match;
      genesis_matches = require-ok (is_genesis i g) "RPC chain identity mismatch" e3;
    }

-- What the replies of a successful poll show.
pub record Proven (identity : Option RpcIdentity) (p : Poll) (found : Evidence) : Type 0 where
  pub head : HeadSeen p found.height
  pub identified : (i : RpcIdentity) → identity ≡ some i → Identified p i
  pub sync : Value
  pub sync_answered : Answered "qrl_syncing" p.syncing sync
  pub sync_read : read_syncing sync ≡ ok found.is_syncing
  pub block : Value
  pub block_answered : Answered "qrl_getBlockByNumber" (p.block_at found.height) block
  pub block_number : is_height_of found.height (field_of "number" block) ≡ true
  pub block_time : parse_hex_height (field_of "timestamp" block) ≡ some found.timestamp
  pub time_bound : found.timestamp ≤ max_timestamp

read_timestamp-ok :
    (height : ℕ) (v : Value) (t : ℕ)
    → read_timestamp height v ≡ ok t
    → (is_height_of height (field_of "number" v) ≡ true)
      × (parse_hex_height (field_of "timestamp" v) ≡ some t)
      × (t ≤ max_timestamp)
unfolding read_timestamp
read_timestamp-ok height v t e = elim (Option-cases (parse_hex_height (field_of "timestamp" v))) [
  | inl q ↦ ground (arith, q)
  | inr (k, q) ↦ elim (Bool-cases (is_record v)) [
    | inl rec ↦ elim (Bool-cases (is_height_of height (field_of "number" v))) [
      | inl same ↦ elim (Bool-cases (ltb max_timestamp k)) [
        | inl late ↦ ground (arith, q, rec, same, late)
        | inr fine ↦
            let k≡t : k ≡ t = ground (arith, q, rec, same, fine) in
            (same, q ∙ ap some k≡t, ground (arith, fine, k≡t))
      ]
      | inr other ↦ ground (arith, q, rec, other)
    ]
    | inr rec ↦ ground (arith, q, rec)
  ]
]
