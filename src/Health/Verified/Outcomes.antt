-- ===== src/Health/Verified/Outcomes.antt =====
-- healthMonitor.ts: the two ways a poll ends.
use myqrlwallet_backend.Prelude.{
  ℕ, suc, ◌*◌, ◌≡◌, ◌⊎◌, refl, sym, ap, ◌∙◌, subst, inl, inr, Option, none, some, arith,
  Option-cases,
}
use myqrlwallet_backend.Health.Types.{RpcIdentity, EndpointRecord, HealthConfig, Thrown}
use myqrlwallet_backend.Health.Progress.{
  apply_poll_success, apply_failure, note_height, is_advance, is_regression,
}
use myqrlwallet_backend.Health.Poll.{
  Poll, Result, ok, throw, query, check_identity, read_height, read_syncing, read_timestamp,
  Evidence, check_replies, note_poll, note_evidence, poll_one,
}
use myqrlwallet_backend.Health.Verified.{
  Proven, bind-ok, query-Answered, read_height-HeadSeen, check_identity-Identified,
  read_timestamp-ok,
}

check_replies-Proven :
    (identity : Option RpcIdentity) (p : Poll) (found : Evidence)
    → check_replies identity p ≡ ok found
    → Proven identity p found
unfolding check_replies
check_replies-Proven identity p found e =
    let (height, qh, e1) = bind-ok (read_height p.started p.block_number) _ found e in
    let (u, qi, e2) = bind-ok (check_identity identity p) _ found e1 in
    let (s, qs, e3) = bind-ok (query "qrl_syncing" p.syncing) _ found e2 in
    let (syncing, qr, e4) = bind-ok (read_syncing s) _ found e3 in
    let (b, qb, e5) = bind-ok (query "qrl_getBlockByNumber" (p.block_at height)) _ found e4 in
    let (t, qt, e6) = bind-ok (read_timestamp height b) _ found e5 in
    let same : record { height = height; is_syncing = syncing; timestamp = t } ≡ found = cc in
    let (number, time, bound) = read_timestamp-ok height b t qt in
    subst (Proven identity p) same (record {
      head = read_height-HeadSeen p p.block_number height refl qh;
      identified = λ i q. check_identity-Identified i p (ap (λ o. check_identity o p) (sym q) ∙ qi);
      sync = s;
      sync_answered = query-Answered "qrl_syncing" p.syncing s qs;
      sync_read = qr;
      block = b;
      block_answered = query-Answered "qrl_getBlockByNumber" (p.block_at height) b qb;
      block_number = number;
      block_time = time;
      time_bound = bound;
    })

-- A poll that verified the endpoint's head and, where one is expected, its identity.
pub record Verified (identity : Option RpcIdentity) (p : Poll) (ep ep' : EndpointRecord)
    : Type 0 where
  pub found : Evidence
  pub proven : Proven identity p found
  pub identity_noted : ep'.verified_identity ≡ identity
  pub height_noted : ep'.last_height ≡ some found.height
  pub time_noted : ep'.head_timestamp ≡ some (found.timestamp * 1000)
  pub sync_noted : ep'.syncing ≡ some found.is_syncing
  pub poll_noted : ep'.last_verified_poll_at ≡ some p.now
  pub successes : ep'.consecutive_successes ≡ suc ep.consecutive_successes
  pub failures : ep'.consecutive_failures ≡ 0

-- A poll that failed: no identity is verified any more, and the head last verified is kept.
pub record Failed (ep ep' : EndpointRecord) : Type 0 where
  pub identity_lost : ep'.verified_identity ≡ none
  pub height_kept : ep'.last_height ≡ ep.last_height
  pub change_kept : ep'.last_height_change_at ≡ ep.last_height_change_at
  pub time_kept : ep'.head_timestamp ≡ ep.head_timestamp
  pub poll_kept : ep'.last_verified_poll_at ≡ ep.last_verified_poll_at
  pub successes : ep'.consecutive_successes ≡ 0
  pub failures : ep'.consecutive_failures ≡ suc ep.consecutive_failures

note_height-last : (now n : ℕ) (ep : EndpointRecord) → (note_height now n ep).last_height ≡ some n
unfolding note_height is_advance is_regression
note_height-last now n ep = elim (Option-cases ep.last_height) [
  | inl q ↦ ground (arith, q)
  | inr (k, q) ↦ ground (arith, q)
]

success-Verified :
    (cfg : HealthConfig) (identity : Option RpcIdentity) (p : Poll) (ep : EndpointRecord)
    (found : Evidence)
    → Proven identity p found
    → Verified identity p ep
        (apply_poll_success cfg p.now found.height
          (note_evidence identity p found (note_poll p ep))).0
unfolding apply_poll_success note_height
success-Verified cfg identity p ep found proven = record {
  found = found;
  proven = proven;
  identity_noted = ground arith;
  height_noted =
      note_height-last p.now found.height (note_evidence identity p found (note_poll p ep));
  time_noted = ground arith;
  sync_noted = ground arith;
  poll_noted = ground arith;
  successes = ground arith;
  failures = ground arith;
}

failure-Failed :
    (cfg : HealthConfig) (e : Thrown) (p : Poll) (ep : EndpointRecord)
    → Failed ep (apply_failure cfg e (note_poll p ep)).0
unfolding apply_failure
failure-Failed cfg e p ep = record {
  identity_lost = ground arith;
  height_kept = ground arith;
  change_kept = ground arith;
  time_kept = ground arith;
  poll_kept = ground arith;
  successes = ground arith;
  failures = ground arith;
}

-- A poll either verifies the endpoint or fails. It verifies it only on replies that prove the head:
-- its number under the poll's own id, its block with that number and a time, and, where an identity
-- is expected, the chain id and the genesis hash of that identity; the record then holds that head
-- and that identity. A poll that fails drops the verified identity and counts as a failure.
pub poll_one_outcome :
    (cfg : HealthConfig) (identity : Option RpcIdentity) (p : Poll) (ep : EndpointRecord)
    → let ep' = (poll_one cfg identity p ep).0 in Verified identity p ep ep' ⊎ Failed ep ep'
unfolding poll_one
poll_one_outcome cfg identity p ep = by_check (check_replies identity p) refl
  where
    by_check :
        (x : Result Evidence)
        → check_replies identity p ≡ x
        → let ep' = (poll_one cfg identity p ep).0 in Verified identity p ep ep' ⊎ Failed ep ep'
    by_check (ok found) q = inl (
        rw (q, poll_one)
          (success-Verified cfg identity p ep found (check_replies-Proven identity p found q)))
    by_check (throw e) q = inr (rw (q, poll_one) (failure-Failed cfg e p ep))
