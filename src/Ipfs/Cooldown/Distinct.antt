-- ===== src/Ipfs/Cooldown/Distinct.antt =====
-- ipfs.routes.ts: what it takes for a gateway to cool down, and for how long it does.
use myqrlwallet_backend.Prelude.{
  ℕ, ◌≤◌, ◌<◌, ◌≡◌, ◌≢◌, ◌⊎◌, refl, inl, inr, String, true, false, Option, List, [], ◌∷◌, ltb, ◌==◌,
  length, keep_if-All, All, Any, All-map, All-keep_if, arith, Bool-cases, Dict.Dict,
}
use myqrlwallet_backend.Prelude.Dict
use myqrlwallet_backend.Ipfs.Types.{IpfsConfig, GatewayState}
use myqrlwallet_backend.Ipfs.Paths.{cid_key}
use myqrlwallet_backend.Ipfs.Cooldown.{
  is_gateway_error, is_in_window, recent_failures, noted_failures, set_failures,
  should_cool_down_for_server_error, is_server_error, punish,
}

-- A response of a gateway that is not 2xx.
pub record Refusal : Type 0 where
  pub cid : String
  pub status : ℕ
  pub retry_after : Option String
  pub now : ℕ

-- The gateway after the refusals, the latest of which stands first.
unfoldable pub punished : IpfsConfig → List Refusal → GatewayState → GatewayState
punished cfg [] g = g
punished cfg (r ∷ earlier) g =
    punish cfg r.cid r.status r.retry_after r.now (punished cfg earlier g)

-- The entry is the failure of its CID with 502, 503 or 504 in one of the refusals.
abbrev pub Failure : String × ℕ → Refusal → Type 0
Failure e r = (cid_key r.cid ≡ e.0) × (r.now ≡ e.1) × (is_gateway_error r.status ≡ true)

abbrev pub Reported : List Refusal → String × ℕ → Type 0
Reported rs e = Any (Failure e) rs

-- The failures a gateway keeps are of distinct CIDs, and were all reported.
abbrev pub Keeps : List Refusal → Dict ℕ → Type 0
Keeps rs failures = Dict.IsDistinct failures × All (Reported rs) failures

recent-Keeps :
    (cfg : IpfsConfig) (now : ℕ) (rs : List Refusal) (failures : Dict ℕ)
    → Keeps rs failures
    → Keeps rs (recent_failures cfg now failures)
recent-Keeps cfg now rs failures h = (
  Dict.keep_values-IsDistinct (is_in_window cfg now) failures h.0,
  All-keep_if (Reported rs) (λ e. is_in_window cfg now e.1) failures h.1,
)

noted-Keeps :
    (cfg : IpfsConfig) (r : Refusal) (rs : List Refusal) (failures : Dict ℕ)
    → is_gateway_error r.status ≡ true
    → Keeps rs failures
    → Keeps (r ∷ rs) (noted_failures cfg r.cid r.now failures)
noted-Keeps cfg r rs failures e h =
    let kept = recent-Keeps cfg r.now rs failures h in
    let later =
      All-map (Reported rs) (Reported (r ∷ rs)) (λ x p. inr p) (recent_failures cfg r.now failures)
        kept.1 in
    (
      Dict.put-IsDistinct (cid_key r.cid) r.now (recent_failures cfg r.now failures) kept.0,
      Dict.All-put (Reported (r ∷ rs)) (cid_key r.cid) r.now (recent_failures cfg r.now failures)
          (inl (refl, refl, e)) later,
    )

-- The three ways of `shouldCoolDownForServerError`.
pub should_cool_down-cases :
    (cfg : IpfsConfig) (cid : String) (status now : ℕ) (g : GatewayState)
    → (let counted = noted_failures cfg cid now g.server_error_cids in
        let x = should_cool_down_for_server_error cfg cid status now g in
        ((is_gateway_error status ≡ false) × (x ≡ (g, false)))
        ⊎ ((is_gateway_error status ≡ true)
            × (length counted < cfg.server_error_min_cids)
            × (x ≡ (set_failures counted g, false)))
        ⊎ ((is_gateway_error status ≡ true)
            × (cfg.server_error_min_cids ≤ length counted)
            × (x ≡ (set_failures [] g, true))))
unfolding should_cool_down_for_server_error
should_cool_down-cases cfg cid status now g = elim (Bool-cases (is_gateway_error status)) [
  | inr other ↦ inl (other, ground (arith, other))
  | inl hit ↦
      elim (Bool-cases
        (ltb (length (noted_failures cfg cid now g.server_error_cids)) cfg.server_error_min_cids)) [
          | inl few ↦ inr (inl (hit, ground (arith, few), ground (arith, hit, few)))
          | inr many ↦ inr (inr (hit, ground (arith, many), ground (arith, hit, many)))
        ]
]

-- What a refusal does to a gateway that keeps the failures of the ones before.
punish-Keeps :
    (cfg : IpfsConfig) (r : Refusal) (rs : List Refusal) (g : GatewayState)
    → Keeps rs g.server_error_cids
    → Keeps (r ∷ rs) (punish cfg r.cid r.status r.retry_after r.now g).server_error_cids
unfolding punish
punish-Keeps cfg r rs g h = elim (Bool-cases (r.status == 429)) [
  | inl limited ↦ rw (limited, punish) older
  | inr other ↦ elim (Bool-cases (is_server_error r.status)) [
    | inr fine ↦ rw (other, fine, punish) older
    | inl broken ↦ elim (should_cool_down-cases cfg r.cid r.status r.now g) [
      | inl (no_gateway, x) ↦ rw (other, broken, x, punish) older
      | inr (inl (e, few, x)) ↦
          rw (other, broken, x, punish) (noted-Keeps cfg r rs g.server_error_cids e h)
      | inr (inr (e, many, x)) ↦ rw (other, broken, x, punish) (tt, tt)
    ]
  ]
]
  where
    older : Keeps (r ∷ rs) g.server_error_cids
    older = (h.0, All-map (Reported rs) (Reported (r ∷ rs)) (λ x p. inr p) g.server_error_cids h.1)

punished-Keeps :
    (cfg : IpfsConfig) (rs : List Refusal) (g : GatewayState)
    → g.server_error_cids ≡ []
    → Keeps rs (punished cfg rs g).server_error_cids
unfolding punished
punished-Keeps cfg [] g e = rw e (tt, tt)
punished-Keeps cfg (r ∷ rs) g e =
    punish-Keeps cfg r rs (punished cfg rs g) (punished-Keeps cfg rs g e)

-- Without enough failures, and unless it limits the rate, a gateway does not cool down.
punish-unmoved :
    (cfg : IpfsConfig) (r : Refusal) (g g' : GatewayState)
    → r.status ≢ 429
    → should_cool_down_for_server_error cfg r.cid r.status r.now g ≡ (g', false)
    → g'.cooldown_until ≡ g.cooldown_until
    → (punish cfg r.cid r.status r.retry_after r.now g).cooldown_until ≡ g.cooldown_until
unfolding punish
punish-unmoved cfg r g g' other x same =
    let limited : (r.status == 429) ≡ false = ground (arith, other) in
    elim (Bool-cases (is_server_error r.status)) [
      | inr fine ↦ rw (limited, fine, punish) refl
      | inl broken ↦ rw (limited, broken, x, punish) same
    ]

-- A cool-down that is not for a 429 follows on enough failures in the window.
cools_on_failures :
    (cfg : IpfsConfig) (r : Refusal) (g : GatewayState)
    → r.status ≢ 429
    → (punish cfg r.cid r.status r.retry_after r.now g).cooldown_until ≢ g.cooldown_until
    → (is_gateway_error r.status ≡ true)
      × (cfg.server_error_min_cids ≤ length (noted_failures cfg r.cid r.now g.server_error_cids))
cools_on_failures cfg r g other moved = elim (should_cool_down-cases cfg r.cid r.status r.now g) [
  | inl (no_gateway, x) ↦ absurd (moved (punish-unmoved cfg r g g other x refl))
  | inr (inl (e, few, x)) ↦ absurd (
      moved (
        punish-unmoved cfg r g (set_failures (noted_failures cfg r.cid r.now g.server_error_cids) g)
          other x refl))
  | inr (inr (e, many, x)) ↦ (e, many)
]

-- A gateway that starts without noted failures, after any refusals: a further refusal that is no
-- 429 moves its cool-down only if distinct root CIDs, at least as many as configured, have each
-- failed at the gateway with 502, 503 or 504 within the window, which is positive.
pub cool_down_needs_failures :
    (cfg : IpfsConfig) (r : Refusal) (earlier : List Refusal) (g : GatewayState)
    → 0 < cfg.server_error_window_ms
    → g.server_error_cids ≡ []
    → r.status ≢ 429
    → (punished cfg (r ∷ earlier) g).cooldown_until ≢ (punished cfg earlier g).cooldown_until
    → (failures : Dict ℕ) × Dict.IsDistinct failures
      × (cfg.server_error_min_cids ≤ length failures)
      × All (Reported (r ∷ earlier)) failures
      × All (λ e. is_in_window cfg r.now e.1 ≡ true) failures
unfolding punished
cool_down_needs_failures cfg r earlier g window new other moved =
    let before = punished cfg earlier g in
    let (e, many) = cools_on_failures cfg r before other moved in
    let (distinct, reported) =
      noted-Keeps cfg r earlier before.server_error_cids e (punished-Keeps cfg earlier g new) in
    (
      noted_failures cfg r.cid r.now before.server_error_cids,
      distinct,
      many,
      reported,
      Dict.All-put (λ x. is_in_window cfg r.now x.1 ≡ true) (cid_key r.cid) r.now
          (recent_failures cfg r.now before.server_error_cids) (ground (arith, window))
          (keep_if-All (λ x. is_in_window cfg r.now x.1) before.server_error_cids),
    )
