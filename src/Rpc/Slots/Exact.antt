-- ===== src/Rpc/Slots/Exact.antt =====
-- rpc.service.ts: the slot counters over sequences of calls.
use myqrlwallet_backend.Prelude.{
  ℕ, suc, ◌+◌, ◌-◌, ◌*◌, ◌≤◌, ◌≡◌, ◌≢◌, refl, String, false, Option, none, some, List, [], ◌∷◌, ltb,
  leb, ◌==◌, str_eq, get_or_else, sum_by, length, arith, eq_iff, Dict.Dict, Bool-cases,
  Option-cases, ◌||◌, inl, inr, ap, ◌∙◌,
}
use myqrlwallet_backend.Prelude.Dict
use myqrlwallet_backend.Rpc.Slots.{
  SlotLimits, Slots, calls_of, client_is_full, count_client, acquire_rpc_call_slot, uncount_client,
  release_rpc_call_slot, Proxy, take_nth, CallEvent, starts, ends, step_call, run_calls, idle,
  is_of,
}

-- The counters are those of the open calls, and within the limits.
pub record IsExact (lim : SlotLimits) (p : Proxy) : Type 0 where
  pub calls : p.slots.active_rpc_calls ≡ length p.calls
  pub bytes : p.slots.reserved_rpc_response_bytes ≡ length p.calls * lim.max_response_bytes
  pub clients : (k : String) → calls_of k p.slots ≡ sum_by (is_of k) p.calls
  pub distinct : Dict.IsDistinct p.slots.active_rpc_calls_by_client
  pub few : length p.calls ≤ lim.max_concurrent
  pub small : length p.calls * lim.max_response_bytes ≤ lim.max_inflight_bytes
  pub fair : (k : String) → sum_by (is_of k) p.calls ≤ lim.max_concurrent_per_client

take_nth-length :
    (n : ℕ) (cs rest : List (Option String)) (found : Option String)
    → take_nth n cs ≡ some (found, rest)
    → (length cs ≡ suc (length rest))
      × ((k : String) → sum_by (is_of k) cs ≡ is_of k found + sum_by (is_of k) rest)
unfolding take_nth sum_by
take_nth-length n [] rest found e = cc
take_nth-length n (c ∷ cs) rest found e = elim (Bool-cases (n == 0)) [
  | inl z ↦ (ground (arith, z), λ k. ground (arith, z))
  | inr nz ↦ elim (Option-cases (take_nth (n - 1) cs)) [
    | inl q ↦ ground (arith, nz, q)
    | inr (x, q) ↦
        let (len, sums) = take_nth-length (n - 1) cs x.1 x.0 q in
        (ground (arith, nz, q, len), λ k. ground (arith, nz, q, sums k))
  ]
]

count_client-calls_of :
    (k : String) (client : Option String) (st : Slots)
    → get_or_else (Dict.get k (count_client client st)) 0 ≡ is_of k client + calls_of k st
count_client-calls_of k none st = omega arith
count_client-calls_of k (some j) st =
    let found = Dict.get-put j k (suc (calls_of j st)) st.active_rpc_calls_by_client in
    elim (Bool-cases (str_eq j k)) [
      | inl hit ↦
          let same = ap (λ x. calls_of x st) ((eq_iff j k).0 hit) in
          ground (arith, found, hit, same)
      | inr miss ↦ ground (arith, found, miss)
    ]

count_client-IsDistinct :
    (client : Option String) (st : Slots)
    → Dict.IsDistinct st.active_rpc_calls_by_client
    → Dict.IsDistinct (count_client client st)
count_client-IsDistinct none st d = d
count_client-IsDistinct (some j) st d =
    Dict.put-IsDistinct j (suc (calls_of j st)) st.active_rpc_calls_by_client d

-- A client that is not full has room for one more call.
client_room :
    (lim : SlotLimits) (client : Option String) (st : Slots) (k : String) (n : ℕ)
    → client_is_full lim client st ≡ false
    → calls_of k st ≡ n
    → n ≤ lim.max_concurrent_per_client
    → is_of k client + n ≤ lim.max_concurrent_per_client
client_room lim none st k n room same le = omega (arith, le)
client_room lim (some j) st k n room same le = elim (Bool-cases (str_eq j k)) [
  | inl hit ↦
      let eq = ap (λ x. calls_of x st) ((eq_iff j k).0 hit) in ground (arith, hit, eq, room, same)
  | inr miss ↦ ground (arith, miss, le)
]

pub start-IsExact :
    (lim : SlotLimits) (client : Option String) (p : Proxy)
    → IsExact lim p
    → IsExact lim (step_call lim (starts client) p)
unfolding step_call acquire_rpc_call_slot sum_by
start-IsExact lim client p h = elim (Bool-cases (client_is_full lim client p.slots)) [
  | inl full ↦ rw (full, step_call, acquire_rpc_call_slot) h
  | inr room ↦
      elim (Bool-cases (
        leb lim.max_concurrent p.slots.active_rpc_calls
        || ltb lim.max_inflight_bytes
            (p.slots.reserved_rpc_response_bytes + lim.max_response_bytes))) [
              | inl full ↦ rw (room, full, step_call, acquire_rpc_call_slot) h
              | inr free ↦
                  rw (room, free, step_call, acquire_rpc_call_slot)
                    (record {
                      calls = omega (arith, h.calls);
                      bytes = omega (arith, h.bytes);
                      clients = λ k.
                          count_client-calls_of k client p.slots
                          ∙ ap (λ n. is_of k client + n) (h.clients k);
                      distinct = count_client-IsDistinct client p.slots h.distinct;
                      few = ground (arith, free, h.calls);
                      small = ground (arith, free, h.bytes);
                      fair = λ k.
                          client_room lim client p.slots k (sum_by (is_of k) p.calls) room
                            (h.clients k) (h.fair k);
                    })
            ]
]

uncount_client-calls_of :
    (k : String) (client : Option String) (st : Slots) (n : ℕ)
    → Dict.IsDistinct st.active_rpc_calls_by_client
    → calls_of k st ≡ is_of k client + n
    → get_or_else (Dict.get k (uncount_client client st)) 0 ≡ n
uncount_client-calls_of k none st n d e = omega (arith, e)
uncount_client-calls_of k (some j) st n d e =
    let by = st.active_rpc_calls_by_client in
    let left = get_or_else (Dict.get j by) 1 - 1 in
    let found = Dict.get-put j k left by in
    elim (Bool-cases (str_eq j k)) [
      | inl hit ↦
          let same = (eq_iff j k).0 hit in
          let at_key = ap (λ x. Dict.get x by) same in
          let gone = Dict.get-delete_self k by d in
          let gone_j = ap (λ x. Dict.get k (Dict.delete x by)) same in
          ground (arith, found, hit, at_key, gone, gone_j, e)
      | inr miss ↦
          let ne : j ≢ k = λ same. ground (arith, (eq_iff j k).1 same, miss) in
          ground (arith, found, miss, Dict.get-delete_ne j k by ne, e)
    ]

uncount_client-IsDistinct :
    (client : Option String) (st : Slots)
    → Dict.IsDistinct st.active_rpc_calls_by_client
    → Dict.IsDistinct (uncount_client client st)
uncount_client-IsDistinct none st d = d
uncount_client-IsDistinct (some j) st d =
    let by = st.active_rpc_calls_by_client in
    let left = get_or_else (Dict.get j by) 1 - 1 in
    elim (Bool-cases (leb left 0)) [
      | inl gone ↦ rw gone (Dict.delete-IsDistinct j by d)
      | inr more ↦ rw more (Dict.put-IsDistinct j left by d)
    ]

pub end-IsExact :
    (lim : SlotLimits) (n : ℕ) (p : Proxy) → IsExact lim p → IsExact lim (step_call lim (ends n) p)
unfolding step_call release_rpc_call_slot
end-IsExact lim n p h = elim (Option-cases (take_nth n p.calls)) [
  | inl q ↦ rw (q, step_call) h
  | inr (x, q) ↦
      let (len, sums) = take_nth-length n p.calls x.1 x.0 q in
      let bytes : length p.calls * lim.max_response_bytes
          ≡ length x.1 * lim.max_response_bytes + lim.max_response_bytes =
        ap (λ m. m * lim.max_response_bytes) len ∙ omega arith in
      rw (q, step_call, release_rpc_call_slot)
        (record {
          calls = omega (arith, h.calls, len);
          bytes = omega (arith, h.bytes, bytes);
          clients = λ k.
              uncount_client-calls_of k x.0 p.slots (sum_by (is_of k) x.1) h.distinct
                (h.clients k ∙ sums k);
          distinct = uncount_client-IsDistinct x.0 p.slots h.distinct;
          few = omega (arith, h.few, len);
          small = omega (arith, h.small, bytes);
          fair = λ k. omega (arith, h.fair k, sums k);
        })
]

run_from-IsExact :
    (lim : SlotLimits) (es : List CallEvent) (p : Proxy)
    → IsExact lim p
    → IsExact lim (run_calls lim es p)
unfolding run_calls
run_from-IsExact lim [] p h = h
run_from-IsExact lim (starts client ∷ es) p h =
    run_from-IsExact lim es (step_call lim (starts client) p) (start-IsExact lim client p h)
run_from-IsExact lim (ends n ∷ es) p h =
    run_from-IsExact lim es (step_call lim (ends n) p) (end-IsExact lim n p h)

-- However calls start and end, the proxy's counters are those of the calls that are open: their
-- number, their reserved bytes, and their number for each client; and each is within its limit.
pub run_calls-IsExact :
    (lim : SlotLimits) (es : List CallEvent) → IsExact lim (run_calls lim es idle)
unfolding Dict.get sum_by
run_calls-IsExact lim es = run_from-IsExact lim es idle (record {
  calls = refl;
  bytes = omega arith;
  clients = λ k. idle_calls k;
  distinct = tt;
  few = omega arith;
  small = omega arith;
  fair = λ k. idle_fair k;
})
  where
    idle_calls : (k : String) → calls_of k idle.slots ≡ sum_by (is_of k) []
    idle_calls k = refl

    idle_fair : (k : String) → sum_by (is_of k) [] ≤ lim.max_concurrent_per_client
    idle_fair k = omega arith
