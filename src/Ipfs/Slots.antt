-- ===== src/Ipfs/Slots.antt =====
-- ipfs.routes.ts: the slots for requests that may be in progress at once.
use myqrlwallet_backend.Prelude.{
  ℕ, zero, suc, ◌+◌, ◌-◌, ◌*◌, ◌≤◌, ◌≡◌, Option, none, some, List, [], ◌∷◌, ltb, leb, ◌==◌, ◌||◌,
  if◌then◌else◌, arith, refl, inl, inr, Bool-cases,
}
use myqrlwallet_backend.Ipfs.Types.{IpfsConfig}

pub record FetchSlots : Type 0 where
  pub active_fetches : ℕ
  pub reserved_inflight_bytes : ℕ

unfoldable pub acquire_fetch_slot : IpfsConfig → FetchSlots → Option FetchSlots
acquire_fetch_slot cfg st =
    if leb cfg.max_concurrent st.active_fetches
      || ltb cfg.max_inflight_bytes (st.reserved_inflight_bytes + cfg.max_size_bytes)
    then none
    else some (record {
      active_fetches = suc st.active_fetches;
      reserved_inflight_bytes = st.reserved_inflight_bytes + cfg.max_size_bytes;
    })

-- What the returned function does on its first call; the handler calls it once, at its end.
unfoldable pub release_fetch_slot : IpfsConfig → FetchSlots → FetchSlots
release_fetch_slot cfg st = record {
  active_fetches = st.active_fetches - 1;
  reserved_inflight_bytes = st.reserved_inflight_bytes - cfg.max_size_bytes;
}

pub data FetchEvent : Type 0 where
  arrives ends : FetchEvent

-- The slots and the number of requests that hold one: a request that finds none is refused, and
-- ends at once.
unfoldable pub step_fetch : IpfsConfig → FetchEvent → FetchSlots × ℕ → FetchSlots × ℕ
step_fetch cfg arrives (st, open_requests) = elim (acquire_fetch_slot cfg st) [
  | none ↦ (st, open_requests)
  | some st' ↦ (st', suc open_requests)
]
step_fetch cfg ends (st, open_requests) =
    if open_requests == 0
    then (st, open_requests)
    else (release_fetch_slot cfg st, open_requests - 1)

unfoldable pub run_fetches : IpfsConfig → List FetchEvent → FetchSlots × ℕ → FetchSlots × ℕ
run_fetches cfg [] p = p
run_fetches cfg (e ∷ es) p = run_fetches cfg es (step_fetch cfg e p)

abbrev pub no_fetches : FetchSlots
no_fetches = record { active_fetches = 0; reserved_inflight_bytes = 0 }

-- The counters are those of the requests that hold a slot, and within the limits.
pub record IsCounted (cfg : IpfsConfig) (p : FetchSlots × ℕ) : Type 0 where
  pub fetches : p.0.active_fetches ≡ p.1
  pub reserved : p.0.reserved_inflight_bytes ≡ p.1 * cfg.max_size_bytes
  pub few : p.1 ≤ cfg.max_concurrent
  pub small : p.1 * cfg.max_size_bytes ≤ cfg.max_inflight_bytes

start-IsCounted :
    (cfg : IpfsConfig) (p : FetchSlots × ℕ)
    → IsCounted cfg p
    → IsCounted cfg (step_fetch cfg arrives p)
unfolding step_fetch acquire_fetch_slot
start-IsCounted cfg (st, n) h =
    elim (Bool-cases (
      leb cfg.max_concurrent st.active_fetches
      || ltb cfg.max_inflight_bytes (st.reserved_inflight_bytes + cfg.max_size_bytes))) [
        | inl full ↦ rw (full, step_fetch, acquire_fetch_slot) h
        | inr free ↦
            rw (free, step_fetch, acquire_fetch_slot)
              (record {
                fetches = omega (arith, h.fetches);
                reserved = omega (arith, h.reserved);
                few = ground (arith, free, h.fetches);
                small = ground (arith, free, h.reserved);
              })
      ]

one_less :
    (cfg : IpfsConfig) (n : ℕ) (st : FetchSlots)
    → st.reserved_inflight_bytes ≡ n * cfg.max_size_bytes
    → st.reserved_inflight_bytes - cfg.max_size_bytes ≡ (n - 1) * cfg.max_size_bytes
one_less cfg zero st h = omega (arith, h)
one_less cfg (suc n) st h =
    let whole : suc n * cfg.max_size_bytes ≡ n * cfg.max_size_bytes + cfg.max_size_bytes =
      omega arith in
    let less : suc n - 1 ≡ n = omega arith in rw less (omega (arith, h, whole))

end-IsCounted :
    (cfg : IpfsConfig) (p : FetchSlots × ℕ)
    → IsCounted cfg p
    → IsCounted cfg (step_fetch cfg ends p)
unfolding step_fetch release_fetch_slot
end-IsCounted cfg (st, n) h = elim (Bool-cases (n == 0)) [
  | inl none_open ↦ rw (none_open, step_fetch) h
  | inr open_one ↦
      rw (open_one, step_fetch, release_fetch_slot)
        (record {
          fetches = omega (arith, h.fetches);
          reserved = one_less cfg n st h.reserved;
          few = omega (arith, h.few);
          small = omega (
            arith,
            h.small,
            one_less cfg n (record st { reserved_inflight_bytes = n * cfg.max_size_bytes }) refl,
          );
        })
]

run_from-IsCounted :
    (cfg : IpfsConfig) (es : List FetchEvent) (p : FetchSlots × ℕ)
    → IsCounted cfg p
    → IsCounted cfg (run_fetches cfg es p)
unfolding run_fetches
run_from-IsCounted cfg [] p h = h
run_from-IsCounted cfg (arrives ∷ es) p h =
    run_from-IsCounted cfg es (step_fetch cfg arrives p) (start-IsCounted cfg p h)
run_from-IsCounted cfg (ends ∷ es) p h =
    run_from-IsCounted cfg es (step_fetch cfg ends p) (end-IsCounted cfg p h)

-- However requests arrive and end, the counters of the IPFS proxy are those of the requests that
-- hold a slot, whose number and reserved bytes are within the limits.
pub run_fetches-IsCounted :
    (cfg : IpfsConfig) (es : List FetchEvent) → IsCounted cfg (run_fetches cfg es (no_fetches, 0))
run_fetches-IsCounted cfg es =
    run_from-IsCounted cfg es (no_fetches, 0)
      (record { fetches = refl; reserved = omega arith; few = omega arith; small = omega arith })
