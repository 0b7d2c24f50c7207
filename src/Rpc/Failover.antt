-- ===== src/Rpc/Failover.antt =====
-- rpc.service.ts: the endpoints that executeRPC tries for a request.
pub mod Errors
use myqrlwallet_backend.Prelude.{
  ℕ, ◌≡◌, ◌⊎◌, refl, sym, ap, ◌∙◌, inl, inr, String, Bool, true, false, ◌||◌, Option, none, some,
  List, [], ◌∷◌, ◌==◌, str_eq, if◌then◌else◌, keep_if, arith, eq_iff, Bool-cases, Option-cases,
}
use myqrlwallet_backend.Patterns.{starts_with}
use myqrlwallet_backend.Value.{Value}
use myqrlwallet_backend.Rpc.Slots.{Slots}
use myqrlwallet_backend.Rpc.Call.{HttpError, CallResult, returned, threw}

unfoldable pub is_primary_only_method : String → Bool
is_primary_only_method method =
    starts_with "txpool_" method || starts_with "debug_" method || starts_with "admin_" method

abbrev pub first_two : List String → List String
first_two [] = []
first_two (a ∷ []) = a ∷ []
first_two (a ∷ b ∷ urls) = a ∷ b ∷ []

-- The endpoints for a method, from the ready ones and the first configured one.
unfoldable pub attempt_order : String → Option String → List String → List String
attempt_order method primary ready =
    if is_primary_only_method method
    then keep_if (λ url. elim primary [ none ↦ false | some p ↦ str_eq url p ]) ready
    else first_two ready

-- The outcome: a result with its endpoint, an error of admission, the error of the last endpoint
-- tried, or no endpoint to try.
pub data Attempted : Type 0 where
  chosen : String → Value → Attempted
  not_admitted : HttpError → Attempted
  all_failed : Option HttpError → Attempted
  no_endpoint : Attempted

abbrev pub is_admission : ℕ → Bool
is_admission status = status == 503 || status == 429

-- A call to an endpoint, with the slots before and after it.
abbrev pub EndpointCall : Type 0
EndpointCall = String → Slots → Slots × CallResult

-- The loop over the endpoints, with the last error.
unfoldable pub attempt : EndpointCall → List String → Option HttpError → Slots → Slots × Attempted
attempt call [] last slots = (slots, all_failed last)
attempt call (url ∷ urls) last slots =
    let (after, result) = call url slots in
    elim result [
      | returned v ↦ (after, chosen url v)
      | threw e ↦
          let rest = attempt call urls (some e) after in
          if is_admission e.status then (after, not_admitted e) else rest
    ]

abbrev pub attempt_any : EndpointCall → List String → Slots → Slots × Attempted
attempt_any call [] slots = (slots, no_endpoint)
attempt_any call (url ∷ urls) slots = attempt call (url ∷ urls) none slots

-- From the choice of endpoints on.
unfoldable pub attempt_rpc :
    EndpointCall → String → Option String → List String → Slots → Slots × Attempted
attempt_rpc call method primary ready slots =
    attempt_any call (attempt_order method primary ready) slots

abbrev pub Listed : String → List String → Type 0
Listed url [] = ⊥
Listed url (u ∷ us) = (url ≡ u) ⊎ Listed url us

-- An endpoint was asked and gave a value.
abbrev pub Gave : EndpointCall → String → Value → Type 0
Gave call url v = (slots : Slots) × ((call url slots).1 ≡ returned v)

attempt-chosen :
    (call : EndpointCall) (urls : List String) (last : Option HttpError) (slots : Slots)
    (url : String) (v : Value)
    → (attempt call urls last slots).1 ≡ chosen url v
    → Listed url urls × Gave call url v
unfolding attempt
attempt-chosen call [] last slots url v e = cc
attempt-chosen call (u ∷ urls) last slots url v e =
    by_call (λ err. attempt-chosen call urls (some err) (call u slots).0 url v) (call u slots).1
      refl e
  where
    by_call :
        ((err : HttpError)
          → (attempt call urls (some err) (call u slots).0).1 ≡ chosen url v
          → Listed url urls × Gave call url v)
        → (r : CallResult) → (call u slots).1 ≡ r
        → (elim r as (λ _. Slots × Attempted) [
          | returned w ↦ ((call u slots).0, chosen u w)
          | threw err ↦
              let rest = attempt call urls (some err) (call u slots).0 in
              if is_admission err.status then ((call u slots).0, not_admitted err) else rest
        ]).1
          ≡ chosen url v
        → Listed url (u ∷ urls) × Gave call url v
    by_call later (returned w) q h =
        let here : url ≡ u = cc in
        let value : w ≡ v = cc in
        (inl here, (slots, ap (λ x. (call x slots).1) here ∙ q ∙ ap returned value))
    by_call later (threw err) q h = elim (Bool-cases (is_admission err.status)) [
      | inl stop ↦ let wrong : not_admitted err ≡ chosen url v = rw stop at h in cc
      | inr go ↦ let (l, g) = later err (rw go at h) in (inr l, g)
    ]

attempt_any-chosen :
    (call : EndpointCall) (urls : List String) (slots : Slots) (url : String) (v : Value)
    → (attempt_any call urls slots).1 ≡ chosen url v
    → (attempt call urls none slots).1 ≡ chosen url v
attempt_any-chosen call [] slots url v e = cc
attempt_any-chosen call (u ∷ urls) slots url v e = e

Listed-keep_if :
    (p : String → Bool) (url : String) (urls : List String)
    → Listed url (keep_if p urls)
    → Listed url urls × (p url ≡ true)
unfolding keep_if
Listed-keep_if p url [] h = absurd h
Listed-keep_if p url (u ∷ urls) h = elim (Bool-cases (p u)) [
  | inl hit ↦ elim (rw (hit, keep_if) at h) [
    | inl e ↦ (inl e, cc)
    | inr l ↦ let (m, q) = Listed-keep_if p url urls l in (inr m, q)
  ]
  | inr miss ↦ let (m, q) = Listed-keep_if p url urls (rw (miss, keep_if) at h) in (inr m, q)
]

Listed-first_two :
    (url : String) (urls : List String) → Listed url (first_two urls) → Listed url urls
Listed-first_two url [] h = h
Listed-first_two url (a ∷ []) h = h
Listed-first_two url (a ∷ b ∷ urls) (inl e) = inl e
Listed-first_two url (a ∷ b ∷ urls) (inr (inl e)) = inr (inl e)
Listed-first_two url (a ∷ b ∷ urls) (inr (inr h)) = absurd h

-- A result comes from a ready endpoint that gave it; and a method that may only run on an own node
-- gets its result from the primary endpoint.
pub attempt_rpc-chosen :
    (call : EndpointCall) (method : String) (primary : Option String) (ready : List String)
    (slots : Slots) (url : String) (v : Value)
    → (attempt_rpc call method primary ready slots).1 ≡ chosen url v
    → Listed url ready
      × Gave call url v
      × ((is_primary_only_method method ≡ false) ⊎ (primary ≡ some url))
unfolding attempt_rpc attempt_order
attempt_rpc-chosen call method primary ready slots url v e =
    let (l, r) =
      attempt-chosen call (attempt_order method primary ready) none slots url v
        (attempt_any-chosen call (attempt_order method primary ready) slots url v e) in
    elim (Bool-cases (is_primary_only_method method)) [
      | inr other ↦ (Listed-first_two url ready (rw (other, attempt_order) at l), r, inl other)
      | inl own ↦
          let (m, q) = Listed-keep_if _ url ready (rw (own, attempt_order) at l) in
          elim (Option-cases primary) [
            | inl gone ↦ ground (arith, q, gone)
            | inr (p, is) ↦
                let hit : str_eq url p ≡ true = ground (arith, q, is) in
                (m, r, inr (is ∙ ap some (sym ((eq_iff url p).0 hit))))
          ]
    ]
