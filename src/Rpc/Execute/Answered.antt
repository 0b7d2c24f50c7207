-- ===== src/Rpc/Execute/Answered.antt =====
-- rpc.service.ts: where the answers of executeRPC come from.
use myqrlwallet_backend.Prelude.{
  ℕ, ◌≡◌, ◌⊎◌, refl, sym, subst, inl, inr, String, true, false, ◌&&◌, Option, none, some, List, [],
  ◌∷◌, if◌then◌else◌, arith, Bool-cases, if_either,
}
use myqrlwallet_backend.Patterns.{is_one_of}
use myqrlwallet_backend.Value.{Value, field_of}
use myqrlwallet_backend.BoundedJson.{Decoding}
use myqrlwallet_backend.Health.Routing.{ready_endpoints_for_attempt}
use myqrlwallet_backend.Rpc.Slots.{Slots}
use myqrlwallet_backend.Rpc.Call.Errors.{IsCallError, make_rpc_call-ThrowsWell}
use myqrlwallet_backend.Rpc.Failover.Errors.{FailsWell, attempt_rpc-FailsWell}
use myqrlwallet_backend.Rpc.Failover.{
  Attempted, chosen, not_admitted, all_failed, no_endpoint, EndpointCall, attempt_rpc,
  is_primary_only_method, Listed, Gave, attempt_rpc-chosen,
}
use myqrlwallet_backend.Rpc.Execute.{
  CacheTools, ServiceConfig, Execution, Circumstances, Service, Answer, from_cache, from_endpoint,
  raised, unattempted, cached_response, is_nothing, is_result, settle_attempt, request_key, call_of,
  remember, fetch_rpc, find_cached, answer_ready, execute_rpc, cacheable_methods, is_network_name,
}

module _ {C D : Type 0} (cache : CacheTools C) (tools : Decoding D) (cfg : ServiceConfig) where
  -- All that the cache holds has a property.
  abbrev pub Holds : (String → Value → Type 0) → C → Type 0
  Holds P c = (t : ℕ) (k : String) (v : Value) → cache.get t k c ≡ some v → P k v

  -- What is found after an entry is set is that entry or was there before.
  abbrev pub Remembers : Type 0
  Remembers =
      (t u : ℕ) (k j : String) (v w : Value) (c : C)
      → cache.get t k (cache.set u j v c) ≡ some w
      → ((k ≡ j) × (w ≡ v)) ⊎ (cache.get t k c ≡ some w)

  abbrev pub ready_for : Execution → Circumstances C → List String
  ready_for e w = ready_endpoints_for_attempt cfg.health (cfg.expected e.network) w.now w.endpoints

  abbrev pub IsCacheable : Execution → Type 0
  IsCacheable e = is_one_of e.method cacheable_methods ≡ true

  -- What an answer promises, if the entries of the cache have a property.
  abbrev pub Answered : (String → Value → Type 0) → Execution → Circumstances C → Answer → Type 0
  Answered P e w (from_cache response) =
      (v : Value) × (response ≡ cached_response e.id v)
      × IsCacheable e
      × P (request_key cache tools cfg e) v
      × (url : String) × Listed url (ready_for e w)
  Answered P e w (from_endpoint url v) =
      Listed url (ready_for e w)
      × Gave (call_of cache tools cfg e w.exchange) url v
      × ((is_primary_only_method e.method ≡ false) ⊎ (cfg.primary e.network ≡ some url))
  Answered P e w (raised err) = (err.status ≡ 404) ⊎ IsCallError err
  Answered P e w unattempted = ⊥

  -- An entry of before, or the result of what the endpoint just gave.
  abbrev pub OldOrFresh : (String → Value → Type 0) → Execution → Answer → String → Value → Type 0
  OldOrFresh P e answer k v =
      P k v
      ⊎ ((url : String) × (envelope : Value) × (answer ≡ from_endpoint url envelope)
          × (is_result envelope ≡ true)
          × IsCacheable e
          × (k ≡ request_key cache tools cfg e)
          × (v ≡ field_of "result" envelope))

  module _ (P : String → Value → Type 0) (e : Execution) where
    kept-Holds : (answer : Answer) (c : C) → Holds P c → Holds (OldOrFresh P e answer) c
    kept-Holds answer c h t k v found = inl (h t k v found)

    remember-Holds :
        Remembers
        → (now : ℕ) (answer : Answer) (c : C) → Holds P c
        → Holds (OldOrFresh P e answer) (remember cache tools cfg now e answer c)
    unfolding remember
    remember-Holds keeps now (from_cache r) c h = kept-Holds _ c h
    remember-Holds keeps now (raised err) c h = kept-Holds _ c h
    remember-Holds keeps now unattempted c h = kept-Holds _ c h
    remember-Holds keeps now (from_endpoint url v) c h =
        if_either (Holds (OldOrFresh P e (from_endpoint url v)))
          (is_one_of e.method cacheable_methods && is_result v) _ _
          (λ yes t k x found.
            elim (keeps t now k (request_key cache tools cfg e) (field_of "result" v) x c found) [
              | inl (same, value) ↦
                  inr (url, v, refl, ground (arith, yes), ground (arith, yes), same, value)
              | inr old ↦ inl (h t k x old)
            ])
          (λ _. kept-Holds _ c h)

    module _ (w : Circumstances C) where
      abbrev Promise : Service C × Answer → Type 0
      Promise r = Answered P e w r.1 × Holds (OldOrFresh P e r.1) r.0.cache

      settle_attempt-Answered :
          (ready : List String) (st : Slots)
          → ready_for e w ≡ ready
          → Answered P e w (
              settle_attempt
                (attempt_rpc
                  (call_of cache tools cfg e w.exchange)
                  e.method
                  (cfg.primary e.network)
                  ready
                  st).1)
      settle_attempt-Answered ready st same = by_tried tried refl (
          attempt_rpc-FailsWell call
            (λ url slots. make_rpc_call-ThrowsWell tools cfg.limits e.client w.exchange _ slots)
            e.method (cfg.primary e.network) ready st)
        where
          call : EndpointCall
          call = call_of cache tools cfg e w.exchange

          tried : Attempted
          tried = (attempt_rpc call e.method (cfg.primary e.network) ready st).1

          by_tried : (a : Attempted) → tried ≡ a → FailsWell a → Answered P e w (settle_attempt a)
          by_tried (chosen url v) q f =
              let (l, g, own) =
                attempt_rpc-chosen call e.method (cfg.primary e.network) ready st url v q in
              (subst (Listed url) (sym same) l, g, own)
          by_tried (not_admitted err) q f = inr f
          by_tried (all_failed (some err)) q f = inr f
          by_tried (all_failed none) q f = f
          by_tried no_endpoint q f = inr (inr (inl refl))

      module _ (keeps : Remembers) (steady : (c : C) → Holds P c → Holds P (w.aside c)) where
        fetch_rpc-Promise :
            (ready : List String) (st : Service C)
            → ready_for e w ≡ ready
            → Holds P st.cache
            → Promise (fetch_rpc cache tools cfg e w ready st)
        unfolding fetch_rpc
        fetch_rpc-Promise ready st same h = (
          settle_attempt-Answered ready st.slots same,
          remember-Holds keeps w.later _ _ (steady st.cache h),
        )

        find_cached-Holds :
            (st : Service C) (v : Value)
            → Holds P st.cache
            → find_cached cache tools cfg w.now e st.cache ≡ some v
            → IsCacheable e × P (request_key cache tools cfg e) v
        find_cached-Holds st v h q = elim (Bool-cases (is_one_of e.method cacheable_methods)) [
          | inl ok ↦ (ok, h w.now (request_key cache tools cfg e) v (rw ok at q))
          | inr not_so ↦ let wrong : none ≡ some v = rw not_so at q in cc
        ]

        answer_ready-Promise :
            (ready : List String) (st : Service C)
            → ready_for e w ≡ ready
            → Holds P st.cache
            → Promise (answer_ready cache tools cfg e w ready st)
        unfolding answer_ready
        answer_ready-Promise [] st same h = (inr (inr (inl refl)), kept-Holds _ _ h)
        answer_ready-Promise (url ∷ urls) st same h =
            by_found (find_cached cache tools cfg w.now e st.cache) refl
          where
            by_found :
                (r : Option Value)
                → find_cached cache tools cfg w.now e st.cache ≡ r
                → Promise (elim r as (λ _. Service C × Answer) [
                  | some v ↦
                      let missed = fetch_rpc cache tools cfg e w (url ∷ urls) st in
                      if is_nothing v then missed else (st, from_cache (cached_response e.id v))
                  | none ↦ fetch_rpc cache tools cfg e w (url ∷ urls) st
                ])
            by_found none q = fetch_rpc-Promise (url ∷ urls) st same h
            by_found (some v) q =
                let (ok, p) = find_cached-Holds st v h q in
                if_either Promise (is_nothing v) _ _ (λ _. fetch_rpc-Promise (url ∷ urls) st same h)
                  (λ _. (
                    (v, refl, ok, p, url, subst (Listed url) (sym same) (inl refl)),
                    kept-Holds _ _ h,
                  ))

  -- If what is found in the cache after an entry is set is that entry or was there before, its
  -- entries have a property, and other requests keep that: an answer from the cache is the
  -- requester's own envelope around an entry with the property under the request's key, for a
  -- cacheable method and with an endpoint ready; an answer from an endpoint is what a ready endpoint
  -- gave, the primary one where the method demands it; an error has the status 404, 429, 502 or 503,
  -- and is never that of a loop that tried nothing; and each entry of the cache afterwards has the
  -- property, or is the result of the successful envelope that an endpoint has just given for a
  -- cacheable method, under the request's key.
  pub execute_rpc-Answered :
      (P : String → Value → Type 0) (e : Execution) (w : Circumstances C) (st : Service C)
      → Remembers
      → Holds P st.cache
      → ((c : C) → Holds P c → Holds P (w.aside c))
      → let (after, answer) = execute_rpc cache tools cfg e w st in
        Answered P e w answer × Holds (OldOrFresh P e answer) after.cache
  unfolding execute_rpc
  execute_rpc-Answered P e w st keeps h steady =
      if_either (Promise P e w) (is_network_name e.network) _ _
        (λ _. answer_ready-Promise P e w keeps steady (ready_for e w) st refl h)
        (λ _. (inl refl, kept-Holds P e _ _ h))
