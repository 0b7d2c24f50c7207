-- ===== src/Ipfs/Cooldown/Bounds.antt =====
-- ipfs.routes.ts: how long a gateway cools down, and how many failures it keeps.
use myqrlwallet_backend.Prelude.{
  ℕ, ◌+◌, ◌≤◌, ◌<◌, ◌≡◌, max, sym, subst, inl, inr, String, Option, none, some, List, [], ◌∷◌, ◌==◌,
  length, All, arith, Bool-cases,
}
use myqrlwallet_backend.Ipfs.Types.{IpfsConfig, GatewayState}
use myqrlwallet_backend.Ipfs.Cooldown.{default_cooldown_ms, retry_after_ms, is_server_error, punish}
use myqrlwallet_backend.Ipfs.Cooldown.Distinct.{Refusal, punished, should_cool_down-cases}

-- The longest cool-down.
abbrev pub longest_cooldown : IpfsConfig → ℕ
longest_cooldown cfg = max cfg.max_cooldown_ms default_cooldown_ms

retry_after_ms-bound :
    (cfg : IpfsConfig) (h : Option String) (now : ℕ)
    → retry_after_ms cfg h now ≤ longest_cooldown cfg
unfolding retry_after_ms
retry_after_ms-bound cfg none now = omega arith
retry_after_ms-bound cfg (some v) now = ground arith

punish-bound :
    (cfg : IpfsConfig) (r : Refusal) (g : GatewayState) (latest : ℕ)
    → 0 < cfg.server_error_min_cids
    → r.now ≤ latest
    → (length g.server_error_cids < cfg.server_error_min_cids)
      × (g.cooldown_until ≤ latest + longest_cooldown cfg)
    → (let h = punish cfg r.cid r.status r.retry_after r.now g in
        (length h.server_error_cids < cfg.server_error_min_cids)
        × (h.cooldown_until ≤ latest + longest_cooldown cfg)
        × (g.cooldown_until ≤ h.cooldown_until))
unfolding punish
punish-bound cfg r g latest positive soon h =
    let wait = retry_after_ms-bound cfg r.retry_after r.now in
    elim (Bool-cases (r.status == 429)) [
      | inl limited ↦ rw (limited, punish) (ground (arith, wait, soon, h))
      | inr other ↦ elim (Bool-cases (is_server_error r.status)) [
        | inr fine ↦ rw (other, fine, punish) (ground (arith, h))
        | inl broken ↦ elim (should_cool_down-cases cfg r.cid r.status r.now g) [
          | inl (no_gateway, x) ↦ rw (other, broken, x, punish) (ground (arith, h))
          | inr (inl (e, few, x)) ↦ rw (other, broken, x, punish) (ground (arith, h, few))
          | inr (inr (e, many, x)) ↦
              rw (other, broken, x, punish) (ground (arith, h, soon, positive))
        ]
      ]
    ]

-- After any refusals up to a time, of a gateway without noted failures that has not cooled down for
-- longer: it has noted fewer CIDs than it takes to cool down, its cool-down ends within the longest
-- one from that time, and a further refusal does not bring that end forward.
pub punished_bounds :
    (cfg : IpfsConfig) (rs : List Refusal) (g : GatewayState) (latest : ℕ)
    → 0 < cfg.server_error_min_cids
    → All (λ r. r.now ≤ latest) rs
    → g.server_error_cids ≡ []
    → g.cooldown_until ≤ latest + longest_cooldown cfg
    → (let h = punished cfg rs g in
        (length h.server_error_cids < cfg.server_error_min_cids)
        × (h.cooldown_until ≤ latest + longest_cooldown cfg)
        × ((r : Refusal)
            → r.now ≤ latest
            → h.cooldown_until ≤ (punished cfg (r ∷ rs) g).cooldown_until))
unfolding punished
punished_bounds cfg rs g latest positive soon new early =
    let (few, ends) = held rs soon in
    (few, ends, λ r at. (punish-bound cfg r (punished cfg rs g) latest positive at (few, ends)).2)
  where
    held :
        (xs : List Refusal)
        → All (λ r. r.now ≤ latest) xs
        → (length (punished cfg xs g).server_error_cids < cfg.server_error_min_cids)
          × ((punished cfg xs g).cooldown_until ≤ latest + longest_cooldown cfg)
    held [] h = (subst (λ m. length m < cfg.server_error_min_cids) (sym new) positive, early)
    held (r ∷ xs) h =
        let step = punish-bound cfg r (punished cfg xs g) latest positive h.0 (held xs h.1) in
        (step.0, step.1)
