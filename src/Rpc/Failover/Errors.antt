-- ===== src/Rpc/Failover/Errors.antt =====
-- rpc.service.ts: the errors of the loop over the endpoints.
use myqrlwallet_backend.Prelude.{
  String, Option, none, some, List, [], ◌∷◌, if◌then◌else◌, if_either,
}
use myqrlwallet_backend.Rpc.Slots.{Slots}
use myqrlwallet_backend.Rpc.Call.{HttpError, CallResult, returned, threw}
use myqrlwallet_backend.Rpc.Call.Errors.{IsCallError, ThrowsWell}
use myqrlwallet_backend.Rpc.Failover.{
  Attempted, chosen, not_admitted, all_failed, no_endpoint, EndpointCall, attempt_rpc, attempt,
  attempt_any, attempt_order, is_admission,
}

-- The errors of a loop, and that it has one if it ends without a result.
abbrev pub FailsWell : Attempted → Type 0
FailsWell (chosen url v) = Unit
FailsWell (not_admitted e) = IsCallError e
FailsWell (all_failed (some e)) = IsCallError e
FailsWell (all_failed none) = ⊥
FailsWell no_endpoint = Unit

abbrev LastWell : Option HttpError → List String → Type 0
LastWell (some e) urls = IsCallError e
LastWell none [] = ⊥
LastWell none (url ∷ urls) = Unit

module _ (call : EndpointCall)
    (fails : (url : String) (st : Slots) → ThrowsWell (call url st).1) where
  attempt-FailsWell :
      (urls : List String) (last : Option HttpError) (st : Slots)
      → LastWell last urls
      → FailsWell (attempt call urls last st).1
  unfolding attempt
  attempt-FailsWell [] none st h = h
  attempt-FailsWell [] (some e) st h = h
  attempt-FailsWell (url ∷ urls) last st h =
      by_call (λ e. attempt-FailsWell urls (some e) (call url st).0) (call url st).1 (fails url st)
    where
      by_call :
          ((e : HttpError)
            → IsCallError e
            → FailsWell (attempt call urls (some e) (call url st).0).1)
          → (r : CallResult) → ThrowsWell r
          → FailsWell
              (elim r as (λ _. Slots × Attempted) [
                | returned v ↦ ((call url st).0, chosen url v)
                | threw e ↦
                    let rest = attempt call urls (some e) (call url st).0 in
                    if is_admission e.status then ((call url st).0, not_admitted e) else rest
              ]).1
      by_call later (returned v) t = tt
      by_call later (threw e) t =
          if_either (λ (x : Slots × Attempted). FailsWell x.1) (is_admission e.status) _ _ (λ _. t)
            (λ _. later e t)

  pub attempt_rpc-FailsWell :
      (method : String) (primary : Option String) (ready : List String) (st : Slots)
      → FailsWell (attempt_rpc call method primary ready st).1
  unfolding attempt_rpc
  attempt_rpc-FailsWell method primary ready st = by_order (attempt_order method primary ready)
    where
      by_order : (urls : List String) → FailsWell (attempt_any call urls st).1
      by_order [] = tt
      by_order (url ∷ urls) = attempt-FailsWell (url ∷ urls) none st tt
