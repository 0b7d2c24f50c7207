-- ===== src/Health/Routing.antt =====
-- healthMonitor.ts: which endpoints a request may be sent to, and in which order.
use myqrlwallet_backend.Prelude.{
  ℕ, ◌-◌, ◌*◌, String, Bool, true, false, not, ◌&&◌, ◌||◌, Option, none, some, List, [], ◌∷◌, map,
  ltb, leb, ◌==◌, str_eq, if◌then◌else◌, keep_if, get_or_else, max,
}
use myqrlwallet_backend.Health.Types.{
  up, is_state, state_order, EndpointRecord, RpcIdentity, HealthConfig,
}

-- A missing latency counts as infinite.
abbrev pub is_faster : Option ℕ → Option ℕ → Bool
is_faster none b = false
is_faster (some a) none = true
is_faster (some a) (some b) = ltb a b

-- The comparison of the sort is negative.
unfoldable pub precedes : EndpointRecord → EndpointRecord → Bool
precedes a b =
    if state_order a.state == state_order b.state
    then is_faster a.last_latency_ms b.last_latency_ms
    else ltb (state_order a.state) (state_order b.state)

unfoldable pub insert : EndpointRecord → List EndpointRecord → List EndpointRecord
insert ep [] = ep ∷ []
insert ep (other ∷ others) =
    let later = insert ep others in if precedes other ep then other ∷ later else ep ∷ other ∷ others

-- `sort`, which is stable.
unfoldable pub rank : List EndpointRecord → List EndpointRecord
rank [] = []
rank (ep ∷ eps) = insert ep (rank eps)

unfoldable pub order_endpoints_for_attempt : List EndpointRecord → List String
order_endpoints_for_attempt eps = map (λ ep. ep.url) (rank eps)

abbrev pub max_poll_age : HealthConfig → ℕ
max_poll_age cfg = max (cfg.poll_interval_ms * 3) (cfg.poll_timeout_ms * 2)

abbrev pub is_not_syncing : Option Bool → Bool
is_not_syncing none = false
is_not_syncing (some s) = not s

abbrev pub within : ℕ → ℕ → Option ℕ → Bool
within now age none = false
within now age (some t) = leb (now - t) age

-- The head's own timestamp may lie a little ahead of the clock.
abbrev pub is_recent : HealthConfig → ℕ → Option ℕ → Bool
is_recent cfg now none = false
is_recent cfg now (some t) =
    leb (now - t) cfg.max_head_age_ms && leb (t - now) cfg.max_head_future_ms

abbrev pub has_height : Option ℕ → Bool
has_height none = false
has_height (some height) = true

unfoldable pub has_fresh_head : HealthConfig → ℕ → EndpointRecord → Bool
has_fresh_head cfg now ep =
    is_state ep.state up
    && is_not_syncing ep.syncing
    && has_height ep.last_height
    && within now (max_poll_age cfg) ep.last_verified_poll_at
    && is_recent cfg now ep.head_timestamp

unfoldable pub matches_identity : Option RpcIdentity → Option RpcIdentity → Bool
matches_identity none verified = true
matches_identity (some expected) none = false
matches_identity (some expected) (some verified) =
    str_eq verified.chain_id expected.chain_id && str_eq verified.genesis_hash expected.genesis_hash

unfoldable pub is_candidate : HealthConfig → Option RpcIdentity → ℕ → EndpointRecord → Bool
is_candidate cfg expected now ep =
    has_fresh_head cfg now ep && matches_identity expected ep.verified_identity

abbrev pub height_of : EndpointRecord → ℕ
height_of ep = get_or_else ep.last_height 0

unfoldable pub highest : List EndpointRecord → ℕ
highest [] = 0
highest (ep ∷ eps) = max (height_of ep) (highest eps)

abbrev pub keeps_up : HealthConfig → ℕ → EndpointRecord → Bool
keeps_up cfg top ep = leb (top - height_of ep) cfg.max_lag_blocks

unfoldable pub has_url : String → List EndpointRecord → Bool
has_url url [] = false
has_url url (ep ∷ eps) = str_eq ep.url url || has_url url eps

unfoldable pub ready_records :
    HealthConfig → Option RpcIdentity → ℕ → List EndpointRecord → List EndpointRecord
ready_records cfg expected now eps =
    let fresh = keep_if (is_candidate cfg expected now) eps in
    keep_if (keeps_up cfg (highest fresh)) fresh

unfoldable pub ready_endpoints_for_attempt :
    HealthConfig → Option RpcIdentity → ℕ → List EndpointRecord → List String
ready_endpoints_for_attempt cfg expected now eps =
    let ready = ready_records cfg expected now eps in
    keep_if (λ url. has_url url ready) (order_endpoints_for_attempt eps)

abbrev pub is_nonempty : List String → Bool
is_nonempty [] = false
is_nonempty (url ∷ urls) = true

unfoldable pub has_healthy_for_network :
    HealthConfig → Option RpcIdentity → ℕ → List EndpointRecord → Bool
has_healthy_for_network cfg expected now eps =
    is_nonempty (ready_endpoints_for_attempt cfg expected now eps)
