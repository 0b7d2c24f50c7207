-- ===== src/Health/Runs.antt =====
-- healthMonitor.ts: an endpoint's state over sequences of polls.
use myqrlwallet_backend.Prelude.{
  ℕ, suc, ◌+◌, ◌<◌, ◌≤◌, ◌≡◌, ◌≢◌, ◌⊎◌, refl, ap, inl, inr, true, Option, none, List, [], ◌∷◌, ◌++◌,
  leb, length, All, arith, Bool-cases, String,
}
use myqrlwallet_backend.Health.Types.{
  EndpointState, up, unknown, stalled, down, is_state, RpcIdentity, EndpointRecord, HealthConfig,
  Thrown, make_endpoint_record,
}
use myqrlwallet_backend.Health.Progress.{apply_poll_success, apply_failure}
use myqrlwallet_backend.Health.Poll.{
  Poll, Result, ok, throw, Evidence, check_replies, note_poll, note_evidence, poll_one,
}

abbrev pub run_polls :
    HealthConfig → Option RpcIdentity → List Poll → EndpointRecord → EndpointRecord
run_polls cfg identity [] ep = ep
run_polls cfg identity (p ∷ ps) ep = run_polls cfg identity ps (poll_one cfg identity p ep).0

-- The counters and the state agree.
pub record IsCoherent (cfg : HealthConfig) (ep : EndpointRecord) : Type 0 where
  pub awake : ep.state ≢ down → ep.consecutive_failures < cfg.down_after_failures
  pub one_zero : (ep.consecutive_failures ≡ 0) ⊎ (ep.consecutive_successes ≡ 0)
  pub unverified : 0 < ep.consecutive_failures → ep.verified_identity ≡ none

is_down : (s : EndpointState) → is_state s down ≡ true → s ≡ down
is_down up e = cc
is_down unknown e = cc
is_down stalled e = cc
is_down down e = refl

failure-IsCoherent :
    (cfg : HealthConfig) (e : Thrown) (ep : EndpointRecord)
    → 0 < cfg.down_after_failures
    → IsCoherent cfg (apply_failure cfg e ep).0
unfolding apply_failure
failure-IsCoherent cfg e ep pos =
    elim (Bool-cases (leb cfg.down_after_failures (suc ep.consecutive_failures))) [
      | inl reached ↦ elim (Bool-cases (is_state ep.state down)) [
        | inl d ↦
            rw (reached, d, apply_failure)
              (record {
                awake = λ ne. absurd (ne (is_down ep.state d));
                one_zero = inr refl;
                unverified = λ h. refl;
              })
        | inr d ↦
            rw (reached, d, apply_failure)
              (record {
                awake = λ ne. absurd (ne refl);
                one_zero = inr refl;
                unverified = λ h. refl;
              })
      ]
      | inr below ↦
          rw (below, apply_failure)
            (record {
              awake = λ ne. ground (arith, below);
              one_zero = inr refl;
              unverified = λ h. refl;
            })
    ]

success-IsCoherent :
    (cfg : HealthConfig) (now height : ℕ) (ep : EndpointRecord)
    → 0 < cfg.down_after_failures
    → IsCoherent cfg (apply_poll_success cfg now height ep).0
unfolding apply_poll_success
success-IsCoherent cfg now height ep pos = record {
  awake = λ ne. pos;
  one_zero = inl refl;
  unverified = λ h. absurd (omega (arith, h));
}

poll_one-IsCoherent :
    (cfg : HealthConfig) (identity : Option RpcIdentity) (p : Poll) (ep : EndpointRecord)
    → 0 < cfg.down_after_failures
    → IsCoherent cfg (poll_one cfg identity p ep).0
unfolding poll_one
poll_one-IsCoherent cfg identity p ep pos = by_check (check_replies identity p) refl
  where
    by_check :
        (x : Result Evidence)
        → check_replies identity p ≡ x
        → IsCoherent cfg (poll_one cfg identity p ep).0
    by_check (ok found) q =
        rw (q, poll_one)
          (success-IsCoherent cfg p.now found.height
            (note_evidence identity p found (note_poll p ep)) pos)
    by_check (throw e) q = rw (q, poll_one) (failure-IsCoherent cfg e (note_poll p ep) pos)

run_from-IsCoherent :
    (cfg : HealthConfig) (identity : Option RpcIdentity) (ps : List Poll) (ep : EndpointRecord)
    → 0 < cfg.down_after_failures
    → IsCoherent cfg ep
    → IsCoherent cfg (run_polls cfg identity ps ep)
run_from-IsCoherent cfg identity [] ep pos h = h
run_from-IsCoherent cfg identity (p ∷ ps) ep pos h =
    run_from-IsCoherent cfg identity ps (poll_one cfg identity p ep).0 pos
      (poll_one-IsCoherent cfg identity p ep pos)

new-IsCoherent :
    (cfg : HealthConfig) (now : ℕ) (url : String)
    → 0 < cfg.down_after_failures
    → IsCoherent cfg (make_endpoint_record now url)
new-IsCoherent cfg now url pos = record {
  awake = λ ne. pos;
  one_zero = inl refl;
  unverified = λ h. refl;
}

-- After any polls of a new endpoint, with a positive threshold: an endpoint that is not down has
-- fewer failures in a row than the threshold; failures and successes in a row are never both
-- counted; and with a failure counted no identity is verified.
pub run_polls-IsCoherent :
    (cfg : HealthConfig) (identity : Option RpcIdentity) (ps : List Poll) (now : ℕ) (url : String)
    → 0 < cfg.down_after_failures
    → IsCoherent cfg (run_polls cfg identity ps (make_endpoint_record now url))
run_polls-IsCoherent cfg identity ps now url pos =
    run_from-IsCoherent cfg identity ps (make_endpoint_record now url) pos
      (new-IsCoherent cfg now url pos)

abbrev pub Fails : Option RpcIdentity → Poll → Type 0
Fails identity p = (e : Thrown) × (check_replies identity p ≡ throw e)

failing_polls :
    (cfg : HealthConfig) (identity : Option RpcIdentity) (ps : List Poll) (ep : EndpointRecord)
    → All (Fails identity) ps
    → (run_polls cfg identity ps ep).consecutive_failures ≡ length ps + ep.consecutive_failures
unfolding poll_one apply_failure
failing_polls cfg identity [] ep h = omega arith
failing_polls cfg identity (p ∷ ps) ep h =
    let (e, q) = h.0 in
    let once : (poll_one cfg identity p ep).0.consecutive_failures ≡ suc ep.consecutive_failures =
      rw (q, poll_one) ground arith in
    omega (arith, failing_polls cfg identity ps (poll_one cfg identity p ep).0 h.1, once)

run_polls-append :
    (cfg : HealthConfig) (identity : Option RpcIdentity) (ps qs : List Poll) (ep : EndpointRecord)
    → run_polls cfg identity (ps ++ qs) ep
      ≡ run_polls cfg identity qs (run_polls cfg identity ps ep)
run_polls-append cfg identity [] qs ep = refl
run_polls-append cfg identity (p ∷ ps) qs ep =
    run_polls-append cfg identity ps qs (poll_one cfg identity p ep).0

down_decided : (s : EndpointState) → (s ≡ down) ⊎ (s ≢ down)
down_decided up = inr λ e. cc
down_decided unknown = inr λ e. cc
down_decided stalled = inr λ e. cc
down_decided down = inl refl

-- Whatever the polls of a new endpoint before, as many failed polls in a row as the threshold bring
-- it down.
pub run_polls_down :
    (cfg : HealthConfig) (identity : Option RpcIdentity) (ps qs : List Poll) (now : ℕ)
    (url : String)
    → 0 < cfg.down_after_failures
    → All (Fails identity) qs
    → cfg.down_after_failures ≤ length qs
    → (run_polls cfg identity (ps ++ qs) (make_endpoint_record now url)).state ≡ down
run_polls_down cfg identity ps qs now url pos fail long =
    let whole = run_polls cfg identity (ps ++ qs) (make_endpoint_record now url) in
    let h = run_polls-IsCoherent cfg identity (ps ++ qs) now url pos in
    let start = run_polls cfg identity ps (make_endpoint_record now url) in
    let n = failing_polls cfg identity qs start fail in
    let same =
      ap (λ (x : EndpointRecord). x.consecutive_failures)
        (run_polls-append cfg identity ps qs (make_endpoint_record now url)) in
    elim (down_decided whole.state) [
      | inl d ↦ d
      | inr ne ↦ absurd (omega (arith, h.awake ne, n, same, long))
    ]
