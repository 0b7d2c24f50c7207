-- ===== src/Server/Limits/Windows.antt =====
-- relayServer.ts: how many requests of an address the rate limit lets through.
use myqrlwallet_backend.Prelude.{
  ℕ, suc, ◌+◌, ◌-◌, ◌*◌, ◌≤◌, ◌≡◌, ap, ◌∙◌, inl, inr, String, Bool, true, false, not, ◌&&◌, Option,
  none, some, List, [], ◌∷◌, ltb, leb, str_eq, if◌then◌else◌, All, arith, eq_iff, Bool-cases,
  Option-cases, Dict.Dict,
}
use myqrlwallet_backend.Prelude.Dict
use myqrlwallet_backend.Server.Limits.{
  Bucket, limit_of, Counts, count_in, bump, RateLimitEntry, fresh_entry, current_entry,
  check_rate_limit, drop_rate_limits, rate_limit_window_ms,
}

-- A check of a bucket for an address, or a run of the cleanup timer.
pub data LimitEvent : Type 0 where
  checks : ℕ → String → Bucket → LimitEvent
  tidies : ℕ → LimitEvent

abbrev pub time_of : LimitEvent → ℕ
time_of (checks now ip b) = now
time_of (tidies now) = now

abbrev pub same_bucket : Bucket → Bucket → Bool
same_bucket Bucket.by_connect Bucket.by_connect = true
same_bucket Bucket.by_handshake Bucket.by_handshake = true
same_bucket Bucket.by_message Bucket.by_message = true
same_bucket Bucket.by_join Bucket.by_join = true
same_bucket Bucket.by_control Bucket.by_control = true
same_bucket _ _ = false

-- The checks of the bucket for the address that are answered yes.
unfoldable pub allowed : String → Bucket → List LimitEvent → Dict RateLimitEntry → ℕ
allowed ip b [] limits = 0
allowed ip b (tidies now ∷ es) limits = allowed ip b es (drop_rate_limits now limits)
allowed ip b (checks now jp c ∷ es) limits =
    let x = check_rate_limit now jp c limits in
    let rest = allowed ip b es x.0 in
    if str_eq jp ip && same_bucket c b && x.1 then suc rest else rest

count_in-bump :
    (b c : Bucket) (n : Counts)
    → count_in b (bump c n) ≡ (if same_bucket c b then suc (count_in b n) else count_in b n)
count_in-bump b c n = ground arith

same_bucket-limit : (b c : Bucket) → same_bucket c b ≡ true → (limit_of c ≡ limit_of b) × (c ≡ b)
same_bucket-limit b c e = ground arith

-- The entry of an address after a check.
get-check :
    (now : ℕ) (jp ip : String) (c : Bucket) (limits : Dict RateLimitEntry)
    → Dict.get ip (check_rate_limit now jp c limits).0 ≡ (
        if str_eq jp ip
        then (let e = current_entry now (Dict.get ip limits) in
            some (record e { counts = bump c e.counts }))
        else Dict.get ip limits)
unfolding check_rate_limit
get-check now jp ip c limits =
    let e = current_entry now (Dict.get jp limits) in
    let found = Dict.get-put jp ip (record e { counts = bump c e.counts }) limits in
    elim (Bool-cases (str_eq jp ip)) [
      | inl hit ↦
          let same = (eq_iff jp ip).0 hit in
          ground (arith, found, hit, ap (λ x. current_entry now (Dict.get x limits)) same)
      | inr miss ↦ ground (arith, found, miss)
    ]

check-IsDistinct :
    (now : ℕ) (jp : String) (c : Bucket) (limits : Dict RateLimitEntry)
    → Dict.IsDistinct limits
    → Dict.IsDistinct (check_rate_limit now jp c limits).0
unfolding check_rate_limit
check-IsDistinct now jp c limits d =
    let e = current_entry now (Dict.get jp limits) in
    Dict.put-IsDistinct jp (record e { counts = bump c e.counts }) limits d

check-answer :
    (now : ℕ) (jp : String) (c : Bucket) (limits : Dict RateLimitEntry) (e : RateLimitEntry)
    → current_entry now (Dict.get jp limits) ≡ e
    → (check_rate_limit now jp c limits).1 ≡ leb (suc (count_in c e.counts)) (limit_of c)
unfolding check_rate_limit
check-answer now jp c limits e q = ground (arith, q, count_in-bump c c e.counts)

-- One check of the address in a window: what it lets through and what it leaves.
tally :
    (b c : Bucket) (n : Counts) (answer : Bool) (rest k : ℕ)
    → answer ≡ leb (suc (count_in c n)) (limit_of c)
    → rest ≤ limit_of b - count_in b (bump c n) + k
    → (if same_bucket c b && answer then suc rest else rest) ≤ limit_of b - count_in b n + k
tally b c n answer rest k a h = elim (Bool-cases (same_bucket c b)) [
  | inl same ↦
      let (limit, it) = same_bucket-limit b c same in
      let here = ap (λ x. count_in x n) it in
      ground (arith, same, count_in-bump b c n, a, h, limit, here)
  | inr other ↦ ground (arith, other, count_in-bump b c n, h)
]

module _ (ip : String) (b : Bucket) (end : ℕ) where
  -- In a window that lasts, what is left of the limit bounds what is let through.
  window_bound :
      (es : List LimitEvent) (limits : Dict RateLimitEntry) (e : RateLimitEntry)
      → Dict.IsDistinct limits
      → All (λ x. time_of x ≤ end) es
      → Dict.get ip limits ≡ some e
      → end ≤ e.reset_at
      → allowed ip b es limits ≤ limit_of b - count_in b e.counts
  unfolding allowed drop_rate_limits current_entry
  window_bound [] limits e d h q lasts = omega arith
  window_bound (tidies now ∷ es) limits e d h q lasts =
      let p = λ (x : RateLimitEntry). not (ltb x.reset_at now) in
      let kept = Dict.get-keep_values ip p limits d in
      window_bound es (drop_rate_limits now limits) e (Dict.keep_values-IsDistinct p limits d) h.1
        (ground (arith, kept, q, h.0, lasts)) lasts
  window_bound (checks now jp c ∷ es) limits e d h q lasts =
      let x = check_rate_limit now jp c limits in
      let step = get-check now jp ip c limits in
      let d' = check-IsDistinct now jp c limits d in
      elim (Bool-cases (str_eq jp ip)) [
        | inl hit ↦
            let same = ap (λ k. Dict.get k limits) ((eq_iff jp ip).0 hit) in
            let cur : current_entry now (Dict.get ip limits) ≡ e = ground (arith, q, h.0, lasts) in
            let here = ap (current_entry now) same ∙ cur in
            let e' : RateLimitEntry = record e { counts = bump c e.counts } in
            let found : Dict.get ip x.0 ≡ some e' = ground (
              arith,
              step,
              hit,
              ap (λ (y : RateLimitEntry). some (record y { counts = bump c y.counts })) cur,
            ) in
            let rest = window_bound es x.0 e' d' h.1 found lasts in
            ground (
              arith,
              hit,
              tally b c e.counts x.1 (allowed ip b es x.0) 0 (check-answer now jp c limits e here)
                  (omega (arith, rest)),
            )
        | inr miss ↦
            let found : Dict.get ip x.0 ≡ some e = ground (arith, step, miss, q) in
            ground (arith, miss, window_bound es x.0 e d' h.1 found lasts)
      ]

-- What is left of the limit in the window that an address has.
abbrev left : Bucket → Option RateLimitEntry → ℕ
left b none = 0
left b (some e) = limit_of b - count_in b e.counts

module _ (ip : String) (b : Bucket) (start : ℕ) where
  abbrev pub During : LimitEvent → Type 0
  During x = (start ≤ time_of x) × (time_of x ≤ start + rate_limit_window_ms)

  until :
      (es : List LimitEvent)
      → All During es
      → All (λ x. time_of x ≤ start + rate_limit_window_ms) es
  until [] h = tt
  until (x ∷ es) h = (h.0.1, until es h.1)

  -- A check that starts a window: the window lasts for the rest of the stretch.
  restart_bound :
      (now : ℕ) (c : Bucket) (e : RateLimitEntry) (es : List LimitEvent)
      (limits : Dict RateLimitEntry) (answer : Bool)
      → start ≤ now
      → e ≡ fresh_entry now
      → Dict.IsDistinct limits
      → All During es
      → Dict.get ip limits ≡ some (record e { counts = bump c e.counts })
      → answer ≡ leb (suc (count_in c e.counts)) (limit_of c)
      → (let rest = allowed ip b es limits in if same_bucket c b && answer then suc rest else rest)
        ≤ limit_of b
  restart_bound now c e es limits answer after new d h q a =
      let e' : RateLimitEntry = record e { counts = bump c e.counts } in
      let lasts : start + rate_limit_window_ms ≤ e'.reset_at = ground (arith, new, after) in
      let rest =
        window_bound ip b (start + rate_limit_window_ms) es limits e' d (until es h) q lasts in
      let whole = tally b c e.counts answer (allowed ip b es limits) 0 a (omega (arith, rest)) in
      omega (arith, whole)

  stretch_bound :
      (es : List LimitEvent) (limits : Dict RateLimitEntry)
      → Dict.IsDistinct limits
      → All During es
      → allowed ip b es limits ≤ left b (Dict.get ip limits) + limit_of b
  unfolding allowed drop_rate_limits current_entry
  stretch_bound [] limits d h = omega arith
  stretch_bound (tidies now ∷ es) limits d h =
      let p = λ (x : RateLimitEntry). not (ltb x.reset_at now) in
      let kept = Dict.get-keep_values ip p limits d in
      let later =
        stretch_bound es (drop_rate_limits now limits) (Dict.keep_values-IsDistinct p limits d)
          h.1 in
      elim (Option-cases (Dict.get ip limits)) [
        | inl q ↦ ground (arith, kept, q, later)
        | inr (e, q) ↦ elim (Bool-cases (p e)) [
          | inl live ↦ ground (arith, kept, q, live, later)
          | inr shut ↦ ground (arith, kept, q, shut, later)
        ]
      ]
  stretch_bound (checks now jp c ∷ es) limits d h =
      let x = check_rate_limit now jp c limits in
      let step = get-check now jp ip c limits in
      let d' = check-IsDistinct now jp c limits d in
      let later = stretch_bound es x.0 d' h.1 in
      elim (Bool-cases (str_eq jp ip)) [
        | inr miss ↦ ground (arith, miss, later, step)
        | inl hit ↦
            let same = ap (λ k. Dict.get k limits) ((eq_iff jp ip).0 hit) in
            let e = current_entry now (Dict.get ip limits) in
            let here = ap (current_entry now) same in
            let e' : RateLimitEntry = record e { counts = bump c e.counts } in
            let found : Dict.get ip x.0 ≡ some e' = ground (arith, step, hit) in
            let answer = check-answer now jp c limits e here in
            elim (Option-cases (Dict.get ip limits)) [
              | inl q ↦
                  let new : e ≡ fresh_entry now = ground (arith, q) in
                  ground
                    (arith, hit, restart_bound now c e es x.0 x.1 h.0.0 new d' h.1 found answer)
              | inr (f, q) ↦ elim (Bool-cases (ltb f.reset_at now)) [
                | inl over ↦
                    let new : e ≡ fresh_entry now = ground (arith, q, over) in
                    ground
                      (arith, hit, restart_bound now c e es x.0 x.1 h.0.0 new d' h.1 found answer)
                | inr lasts ↦
                    let old : e ≡ f = ground (arith, q, lasts) in
                    let kept = ap (λ (y : RateLimitEntry). count_in b y.counts) old in
                    let rest : allowed ip b es x.0
                        ≤ limit_of b - count_in b (bump c e.counts) + limit_of b =
                      ground (arith, later, found) in
                    ground (
                      arith,
                      hit,
                      q,
                      kept,
                      tally b c e.counts x.1 (allowed ip b es x.0) (limit_of b) answer rest,
                    )
              ]
            ]
      ]

-- In any 60 seconds, checks of other addresses and buckets and cleanups in between, a bucket lets at
-- most twice its limit through for an address; and at most its limit if the address has no window
-- when the 60 seconds start.
pub allowed_bound :
    (ip : String) (b : Bucket) (start : ℕ) (es : List LimitEvent) (limits : Dict RateLimitEntry)
    → Dict.IsDistinct limits
    → All (During ip b start) es
    → (allowed ip b es limits ≤ 2 * limit_of b)
      × (Dict.get ip limits ≡ none → allowed ip b es limits ≤ limit_of b)
allowed_bound ip b start es limits d h =
    let bound = stretch_bound ip b start es limits d h in
    (ground (arith, bound), λ q. ground (arith, bound, q))
