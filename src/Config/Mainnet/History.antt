-- ===== src/Config/Mainnet/History.antt =====
-- config/index.ts: which origin of the mainnet history is kept.
use myqrlwallet_backend.Prelude.{
  ◌≡◌, ◌≢◌, sym, ◌∙◌, inl, inr, String, Bool, true, false, not, ◌||◌, Option, none, some, is_some,
  arith, eq_iff, Bool-cases, Option-cases,
}
use myqrlwallet_backend.Health.Types.{RpcIdentity}
use myqrlwallet_backend.Config.Mainnet.{PerNetwork, is_origin, settle_history}

is_origin-differs : (h : String) (o : Option String) → is_origin h o ≡ false → o ≢ some h
is_origin-differs h none e q = cc q
is_origin-differs h (some x) e q =
    let same : x ≡ h = cc q in ground (arith, e, (eq_iff h x).1 (sym same))

none_of :
    (a b c d : Bool)
    → (a || b || c || d) ≡ false
    → (a ≡ false) × (b ≡ false) × (c ≡ false) × (d ≡ false)
none_of a b c d h = ground (arith, h)

-- The mainnet history.
pub settle_history-kept :
    (has_problem : Bool) (identity : Option RpcIdentity) (origins : PerNetwork (Option String))
    (h : String)
    → (settle_history has_problem identity origins).mainnet ≡ some h
    → (has_problem ≡ false)
      × (is_some identity ≡ true)
      × (origins.mainnet ≡ some h)
      × (origins.testnet ≢ some h)
      × (origins.dev ≢ some h)
unfolding settle_history
settle_history-kept has_problem identity origins h e = elim (Option-cases origins.mainnet) [
  | inl q ↦ ground (arith, e, q)
  | inr (o, q) ↦
      elim (Bool-cases (
        has_problem
        || not (is_some identity)
        || is_origin o origins.testnet
        || is_origin o origins.dev)) [
          | inl bad ↦ ground (arith, e, q, bad)
          | inr good ↦
              let found : origins.mainnet ≡ some h = ground (arith, e, q, good) in
              let same : some o ≡ some h = sym q ∙ found in
              let (fine, there, testnet, dev) =
                none_of has_problem (not (is_some identity)) (is_origin o origins.testnet)
                  (is_origin o origins.dev) good in
              (
                fine,
                ground (arith, there),
                found,
                λ t. is_origin-differs o origins.testnet testnet (t ∙ sym same),
                λ t. is_origin-differs o origins.dev dev (t ∙ sym same),
              )
        ]
]
