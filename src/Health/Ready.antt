-- ===== src/Health/Ready.antt =====
-- healthMonitor.ts: what readyEndpointsForAttempt answers.
use myqrlwallet_backend.Prelude.{
  ℕ, ◌+◌, ◌≤◌, ◌≡◌, ◌⊎◌, ◌↔◌, refl, sym, ap, ◌∙◌, inl, inr, String, Bool, true, false, ◌&&◌, ◌||◌,
  Option, List, [], ◌∷◌, map, str_eq, keep_if, arith, eq_iff, Bool-cases,
}
use myqrlwallet_backend.Health.Types.{EndpointRecord, RpcIdentity, HealthConfig}
use myqrlwallet_backend.Health.Routing.{
  insert, rank, order_endpoints_for_attempt, is_candidate, height_of, highest, keeps_up, has_url,
  ready_records, ready_endpoints_for_attempt,
}

abbrev pub In : EndpointRecord → List EndpointRecord → Type 0
In ep [] = ⊥
In ep (other ∷ eps) = (ep ≡ other) ⊎ In ep eps

abbrev pub lists : String → List String → Bool
lists url [] = false
lists url (u ∷ us) = str_eq u url || lists url us

In-keep_if :
    (p : EndpointRecord → Bool) (ep : EndpointRecord) (eps : List EndpointRecord)
    → In ep (keep_if p eps) ↔ (In ep eps × (p ep ≡ true))
unfolding keep_if
In-keep_if p ep [] = (λ h. absurd h, λ h. absurd h.0)
In-keep_if p ep (other ∷ eps) =
    let (from, to) = In-keep_if p ep eps in
    elim (Bool-cases (p other)) [
      | inl hit ↦
          rw (hit, keep_if)
            (
              λ h. elim h [ inl e ↦ (inl e, ap p e ∙ hit) | inr l ↦ (inr (from l).0, (from l).1) ],
              λ (h, q). elim h [ inl e ↦ inl e | inr l ↦ inr (to (l, q)) ],
            )
      | inr miss ↦
          rw (miss, keep_if)
            (λ l. (inr (from l).0, (from l).1), λ (h, q). elim h [ inl e ↦ cc | inr l ↦ to (l, q) ])
    ]

has_url_iff :
    (url : String) (eps : List EndpointRecord)
    → (has_url url eps ≡ true) ↔ ((ep : EndpointRecord) × In ep eps × (ep.url ≡ url))
unfolding has_url
has_url_iff url [] = (λ h. ground arith, λ h. absurd h.1)
has_url_iff url (other ∷ eps) =
    let (from, to) = has_url_iff url eps in
    let (read, write) = eq_iff other.url url in
    elim (Bool-cases (str_eq other.url url)) [
      | inl hit ↦ rw (hit, has_url) (λ h. (other, inl refl, read hit), λ h. refl)
      | inr miss ↦
          rw (miss, has_url)
            (
              λ h. let (ep, l, e) = from h in (ep, inr l, e),
              λ (ep, l, e). elim l [
                | inl same ↦
                    let eq = write (sym (ap (λ (x : EndpointRecord). x.url) same) ∙ e) in
                    ground (arith, eq, miss)
                | inr l ↦ to (ep, l, e)
              ],
            )
    ]

has_url-insert :
    (url : String) (ep : EndpointRecord) (eps : List EndpointRecord)
    → has_url url (insert ep eps) ≡ (str_eq ep.url url || has_url url eps)
unfolding has_url insert
has_url-insert url ep [] = refl
has_url-insert url ep (other ∷ eps) = ground (arith, has_url-insert url ep eps)

has_url-rank : (url : String) (eps : List EndpointRecord) → has_url url (rank eps) ≡ has_url url eps
unfolding has_url rank
has_url-rank url [] = refl
has_url-rank url (ep ∷ eps) = ground (arith, has_url-insert url ep (rank eps), has_url-rank url eps)

lists-map :
    (url : String) (eps : List EndpointRecord)
    → lists url (map (λ ep. ep.url) eps) ≡ has_url url eps
unfolding has_url
lists-map url [] = refl
lists-map url (ep ∷ eps) = ground (arith, lists-map url eps)

lists-keep_if :
    (q : String → Bool) (url : String) (us : List String)
    → lists url (keep_if q us) ≡ (q url && lists url us)
unfolding keep_if
lists-keep_if q url [] = ground arith
lists-keep_if q url (u ∷ us) = elim (Bool-cases (str_eq u url)) [
  | inl hit ↦
      let same = ap q ((eq_iff u url).0 hit) in ground (arith, lists-keep_if q url us, same, hit)
  | inr miss ↦ ground (arith, lists-keep_if q url us, miss)
]

height-highest :
    (ep : EndpointRecord) (eps : List EndpointRecord) → In ep eps → height_of ep ≤ highest eps
unfolding highest
height-highest ep [] h = absurd h
height-highest ep (other ∷ eps) (inl e) = let same = ap height_of e in omega (arith, same)
height-highest ep (other ∷ eps) (inr l) = omega (arith, height-highest ep eps l)

highest-least :
    (n : ℕ) (eps : List EndpointRecord)
    → ((ep : EndpointRecord) → In ep eps → height_of ep ≤ n)
    → highest eps ≤ n
unfolding highest
highest-least n [] h = omega arith
highest-least n (ep ∷ eps) h =
    omega (arith, h ep (inl refl), highest-least n eps λ other l. h other (inr l))

module _ (cfg : HealthConfig) (expected : Option RpcIdentity) (now : ℕ)
    (eps : List EndpointRecord) where
  -- A record that may be sent requests.
  pub record IsReady (ep : EndpointRecord) : Type 0 where
    pub known : In ep eps
    pub candidate : is_candidate cfg expected now ep ≡ true
    pub lag :
        (other : EndpointRecord)
        → In other eps
        → is_candidate cfg expected now other ≡ true
        → height_of other ≤ height_of ep + cfg.max_lag_blocks

  fresh : List EndpointRecord
  fresh = keep_if (is_candidate cfg expected now) eps

  ready_records-IsReady :
      (ep : EndpointRecord) → In ep (ready_records cfg expected now eps) ↔ IsReady ep
  unfolding ready_records fresh
  ready_records-IsReady ep =
      let (split, join) = In-keep_if (keeps_up cfg (highest fresh)) ep fresh in
      let (from, to) = In-keep_if (is_candidate cfg expected now) ep eps in
      (
        λ l.
            let (f, k) = split l in
            record {
              known = (from f).0;
              candidate = (from f).1;
              lag = λ other o c.
                  let top =
                    height-highest other fresh
                      ((In-keep_if (is_candidate cfg expected now) other eps).1 (o, c)) in
                  ground (arith, top, k);
            },
        λ r.
            let top = highest-least (height_of ep + cfg.max_lag_blocks) fresh λ other l.
              let (o, c) = (In-keep_if (is_candidate cfg expected now) other eps).0 l in
              r.lag other o c in
            join (to (r.known, r.candidate), ground (arith, top)),
      )

  -- A URL is offered exactly when an endpoint has it whose head is fresh and whose verified identity
  -- is the expected one, and which is no more than the allowed lag below any other such endpoint.
  pub offered_iff :
      (url : String)
      → (lists url (ready_endpoints_for_attempt cfg expected now eps) ≡ true)
        ↔ ((ep : EndpointRecord) × IsReady ep × (ep.url ≡ url))
  unfolding ready_endpoints_for_attempt order_endpoints_for_attempt
  offered_iff url =
      let ready = ready_records cfg expected now eps in
      let whole = lists-keep_if (λ u. has_url u ready) url (order_endpoints_for_attempt eps) in
      let listed = lists-map url (rank eps) ∙ has_url-rank url eps in
      let (from, to) = has_url_iff url ready in
      (
        λ h.
            let (ep, l, e) = from (ground (arith, h, whole)) in
            (ep, (ready_records-IsReady ep).0 l, e),
        λ (ep, r, e).
            let hit = to (ep, (ready_records-IsReady ep).1 r, e) in
            let any = (has_url_iff url eps).1 (ep, r.known, e) in
            ground (arith, hit, any, whole, listed),
      )
