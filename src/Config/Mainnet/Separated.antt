-- ===== src/Config/Mainnet/Separated.antt =====
-- config/index.ts: what holds of the mainnet endpoints that are served.
use myqrlwallet_backend.Prelude.{
  ℕ, suc, ◌≡◌, ◌≢◌, ◌⊎◌, ◌↔◌, refl, sym, ap, ◌∙◌, subst, inl, inr, String, Bool, true, false, not,
  ◌&&◌, ◌||◌, Option, none, some, List, [], ◌∷◌, str_eq, if◌then◌else◌, is_some, All, arith, eq_iff,
  Bool-cases, Option-cases,
}
use myqrlwallet_backend.Patterns.{is_one_of}
use myqrlwallet_backend.Health.Types.{RpcIdentity}
use myqrlwallet_backend.Config.Endpoints.{UrlTools, rpc_endpoint_key}
use myqrlwallet_backend.Config.Mainnet.History.{settle_history-kept}
use myqrlwallet_backend.Config.Mainnet.{
  PerNetwork, SeparationProblem, unpinned, same_pins, overlap, find_overlap, is_empty,
  same_identity, other_keys, mainnet_separation_problem, settle_mainnet,
}

-- The endpoint's key is none of the keys.
abbrev pub Apart : UrlTools → List String → String → Type 0
Apart tools keys e = All (λ k. rpc_endpoint_key tools e ≢ k) keys

-- Mainnet is pinned, none of its endpoints is one of another network, and both of its pins differ
-- from those of testnet.
pub record Separated (tools : UrlTools) (endpoints : PerNetwork (List String))
    (identities : PerNetwork (Option RpcIdentity)) : Type 0 where
  pub identity : RpcIdentity
  pub is_pinned : identities.mainnet ≡ some identity
  pub apart : All (Apart tools (other_keys tools endpoints)) endpoints.mainnet
  pub pins_differ :
      (q : RpcIdentity)
      → identities.testnet ≡ some q
      → (identity.chain_id ≢ q.chain_id) × (identity.genesis_hash ≢ q.genesis_hash)

is_one_of_iff : (s : String) (ts : List String) → (is_one_of s ts ≡ false) ↔ All (λ t. s ≢ t) ts
is_one_of_iff s [] = (λ h. tt, λ h. refl)
is_one_of_iff s (t ∷ ts) =
    let later = is_one_of_iff s ts in
    elim (Bool-cases (str_eq s t)) [
      | inl hit ↦ (λ h. ground (arith, h, hit), λ h. absurd (h.0 ((eq_iff s t).0 hit)))
      | inr miss ↦ (
        λ h. (λ e. ground (arith, (eq_iff s t).1 e, miss), later.0 (ground (arith, h, miss))),
        λ h. ground (arith, miss, later.1 h.1),
      )
    ]

find_overlap_iff :
    (tools : UrlTools) (keys es : List String)
    → (find_overlap tools keys es ≡ none) ↔ All (Apart tools keys) es
unfolding find_overlap
find_overlap_iff tools keys [] = (λ h. tt, λ h. refl)
find_overlap_iff tools keys (e ∷ es) =
    let here = is_one_of_iff (rpc_endpoint_key tools e) keys in
    let later = find_overlap_iff tools keys es in
    elim (Bool-cases (is_one_of (rpc_endpoint_key tools e) keys)) [
      | inl hit ↦ (λ h. ground (arith, h, hit), λ h. ground (arith, here.1 h.0, hit))
      | inr miss ↦ (
        λ h. (
          here.0 miss,
          later.0 (later_none (find_overlap tools keys es) refl (sym (step miss) ∙ h)),
        ),
        λ h. rw (miss, later.1 h.1) refl,
      )
    ]
  where
    step :
        is_one_of (rpc_endpoint_key tools e) keys ≡ false
        → (if is_one_of (rpc_endpoint_key tools e) keys
            then some 0
            else elim (find_overlap tools keys es) [ none ↦ none | some n ↦ some (suc n) ])
          ≡ (elim (find_overlap tools keys es) as (λ _. Option ℕ) [
            | none ↦ none
            | some n ↦ some (suc n)
          ])
    step miss = rw miss refl

    later_none :
        (o : Option ℕ)
        → find_overlap tools keys es ≡ o
        → (elim o as (λ _. Option ℕ) [ none ↦ none | some n ↦ some (suc n) ]) ≡ none
        → find_overlap tools keys es ≡ none
    later_none none q h = q
    later_none (some n) q h = cc h

module _ (tools : UrlTools) (identities : PerNetwork (Option RpcIdentity))
    (endpoints : PerNetwork (List String)) where
  abbrev overlap_of : Option ℕ
  overlap_of = find_overlap tools (other_keys tools endpoints) endpoints.mainnet

  abbrev problem : Option SeparationProblem
  problem = mainnet_separation_problem tools endpoints identities

  -- Where mainnet is pinned, there is no problem only if neither endpoints nor pins are shared.
  pinned_problem :
      (p : RpcIdentity)
      → identities.mainnet ≡ some p
      → problem ≡ elim overlap_of as (λ _. Option SeparationProblem) [
        | some n ↦ some (overlap n)
        | none ↦ if same_identity (some p) identities.testnet then some same_pins else none
      ]
  unfolding mainnet_separation_problem
  pinned_problem p q = ap (form b) q ∙ pinned_form b
    where
      b : Bool
      b = not (is_empty endpoints.mainnet)

      form : Bool → Option RpcIdentity → Option SeparationProblem
      form x o = if x && not (is_some o) then some unpinned else elim overlap_of [
        | some n ↦ some (overlap n)
        | none ↦ if same_identity o identities.testnet then some same_pins else none
      ]

      pinned_form : (x : Bool) → form x (some p) ≡ form false (some p)
      pinned_form true = refl
      pinned_form false = refl

  unpinned_problem : identities.mainnet ≡ none → problem ≡ none → endpoints.mainnet ≡ []
  unfolding mainnet_separation_problem
  unpinned_problem q h = by_list endpoints.mainnet refl
    where
      by_list : (es : List String) → endpoints.mainnet ≡ es → endpoints.mainnet ≡ []
      by_list [] e = e
      by_list (x ∷ xs) e = ground (arith, q, h, e)

  differing :
      (p : RpcIdentity)
      → same_identity (some p) identities.testnet ≡ false
      → (r : RpcIdentity) → identities.testnet ≡ some r
      → (p.chain_id ≢ r.chain_id) × (p.genesis_hash ≢ r.genesis_hash)
  differing p h r q =
      let two : (str_eq p.chain_id r.chain_id || str_eq p.genesis_hash r.genesis_hash) ≡ false =
        subst (λ o. same_identity (some p) o ≡ false) q h in
      (
        λ e. ground (arith, two, (eq_iff p.chain_id r.chain_id).1 e),
        λ e. ground (arith, two, (eq_iff p.genesis_hash r.genesis_hash).1 e),
      )

  no_problem-Separated :
      (p : RpcIdentity)
      → identities.mainnet ≡ some p
      → problem ≡ none
      → Separated tools endpoints identities
  no_problem-Separated p q h = elim (Option-cases overlap_of) [
    | inr (n, o) ↦ ground (arith, sym h ∙ pinned_problem p q, o)
    | inl o ↦ elim (Bool-cases (same_identity (some p) identities.testnet)) [
      | inl same ↦ ground (arith, sym h ∙ pinned_problem p q, o, same)
      | inr other ↦ record {
        identity = p;
        is_pinned = q;
        apart = (find_overlap_iff tools (other_keys tools endpoints) endpoints.mainnet).0 o;
        pins_differ = differing p other;
      }
    ]
  ]

  Separated-no_problem : Separated tools endpoints identities → problem ≡ none
  Separated-no_problem h =
      let o = (find_overlap_iff tools (other_keys tools endpoints) endpoints.mainnet).1 h.apart in
      pinned_problem h.identity h.is_pinned ∙ rw o (by_testnet identities.testnet refl)
    where
      by_testnet :
          (t : Option RpcIdentity)
          → identities.testnet ≡ t
          → (if same_identity (some h.identity) t then some same_pins else none) ≡ none
      by_testnet none q = refl
      by_testnet (some r) q =
          let (chains, hashes) = h.pins_differ r q in
          elim (Bool-cases (str_eq h.identity.genesis_hash r.genesis_hash)) [
            | inl e ↦ absurd (hashes ((eq_iff h.identity.genesis_hash r.genesis_hash).0 e))
            | inr e ↦ elim (Bool-cases (str_eq h.identity.chain_id r.chain_id)) [
              | inl c ↦ absurd (chains ((eq_iff h.identity.chain_id r.chain_id).0 c))
              | inr c ↦ ground (arith, e, c)
            ]
          ]

-- When the configuration is loaded: testnet and dev stay as they are. Mainnet has no endpoints, or
-- it has those configured and is separated; where it is separated, it has those configured. A
-- mainnet history is kept only if mainnet is separated, and then it is the one configured and not
-- that of another network.
pub settle_mainnet-Separated :
    (tools : UrlTools) (identities : PerNetwork (Option RpcIdentity))
    (endpoints : PerNetwork (List String)) (origins : PerNetwork (Option String))
    → let x = settle_mainnet tools identities endpoints origins in
      (x.0.testnet ≡ endpoints.testnet)
      × (x.0.dev ≡ endpoints.dev)
      × ((x.0.mainnet ≡ [])
          ⊎ ((x.0.mainnet ≡ endpoints.mainnet) × Separated tools endpoints identities))
      × (Separated tools endpoints identities → x.0.mainnet ≡ endpoints.mainnet)
      × ((h : String)
          → x.1.mainnet ≡ some h
          → Separated tools endpoints identities
            × (origins.mainnet ≡ some h)
            × (origins.testnet ≢ some h)
            × (origins.dev ≢ some h))
unfolding settle_mainnet
settle_mainnet-Separated tools identities endpoints origins =
    elim (Option-cases (problem tools identities endpoints)) [
      | inl q ↦ rw q (
        refl,
        refl,
        without_problem q,
        λ h. refl,
        λ h e.
            let (fine, pinned, kept, testnet, dev) =
              settle_history-kept false identities.mainnet origins h e in
            (pinned_fine q pinned, kept, testnet, dev),
      )
      | inr (x, q) ↦ rw q (
        refl,
        refl,
        inl refl,
        λ h. ground (arith, sym q ∙ Separated-no_problem tools identities endpoints h),
        λ h e. ground (arith, (settle_history-kept true identities.mainnet origins h e).0),
      )
    ]
  where
    pinned_fine :
        problem tools identities endpoints ≡ none
        → is_some identities.mainnet ≡ true
        → Separated tools endpoints identities
    pinned_fine q h = elim (Option-cases identities.mainnet) [
      | inl n ↦ ground (arith, h, n)
      | inr (p, n) ↦ no_problem-Separated tools identities endpoints p n q
    ]

    without_problem :
        problem tools identities endpoints ≡ none
        → (endpoints.mainnet ≡ [])
          ⊎ ((endpoints.mainnet ≡ endpoints.mainnet) × Separated tools endpoints identities)
    without_problem q = elim (Option-cases identities.mainnet) [
      | inl n ↦ inl (unpinned_problem tools identities endpoints n q)
      | inr (p, n) ↦ inr (refl, no_problem-Separated tools identities endpoints p n q)
    ]
