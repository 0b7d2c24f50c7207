-- ===== src/Rpc/Slots.antt =====
-- rpc.service.ts: the slots for calls to the upstream endpoints.
pub mod Exact
use myqrlwallet_backend.Prelude.{
  ℕ, suc, ◌+◌, ◌-◌, ◌*◌, ◌≤◌, ◌≡◌, ◌↔◌, refl, ap, ◌∙◌, inl, inr, String, Bool, true, false, Option,
  none, some, List, [], ◌∷◌, ltb, leb, ◌==◌, str_eq, if◌then◌else◌, ◌||◌, get_or_else, sum_by,
  length, arith, eq_iff, eq_refl, Dict.Dict, Bool-cases, Option-cases,
}
use myqrlwallet_backend.Prelude.Dict

pub record SlotLimits : Type 0 where
  pub max_response_bytes : ℕ
  pub max_concurrent : ℕ
  pub max_concurrent_per_client : ℕ
  pub max_inflight_bytes : ℕ

pub record Slots : Type 0 where
  pub active_rpc_calls : ℕ
  pub reserved_rpc_response_bytes : ℕ
  pub active_rpc_calls_by_client : Dict ℕ

pub data Acquired : Type 0 where
  granted : Slots → Acquired
  client_busy busy : Acquired

abbrev pub calls_of : String → Slots → ℕ
calls_of k st = get_or_else (Dict.get k st.active_rpc_calls_by_client) 0

abbrev pub client_is_full : SlotLimits → Option String → Slots → Bool
client_is_full lim none st = false
client_is_full lim (some k) st = leb lim.max_concurrent_per_client (calls_of k st)

abbrev pub count_client : Option String → Slots → Dict ℕ
count_client none st = st.active_rpc_calls_by_client
count_client (some k) st = Dict.put k (suc (calls_of k st)) st.active_rpc_calls_by_client

unfoldable pub acquire_rpc_call_slot : SlotLimits → Option String → Slots → Acquired
acquire_rpc_call_slot lim client st =
    if client_is_full lim client st
    then client_busy
    else if leb lim.max_concurrent st.active_rpc_calls
        || ltb lim.max_inflight_bytes (st.reserved_rpc_response_bytes + lim.max_response_bytes)
    then busy
    else granted (record {
      active_rpc_calls = suc st.active_rpc_calls;
      reserved_rpc_response_bytes = st.reserved_rpc_response_bytes + lim.max_response_bytes;
      active_rpc_calls_by_client = count_client client st;
    })

abbrev pub uncount_client : Option String → Slots → Dict ℕ
uncount_client none st = st.active_rpc_calls_by_client
uncount_client (some k) st =
    let remaining = get_or_else (Dict.get k st.active_rpc_calls_by_client) 1 - 1 in
    if leb remaining 0
    then Dict.delete k st.active_rpc_calls_by_client
    else Dict.put k remaining st.active_rpc_calls_by_client

-- What the returned function does on its first call; it does nothing on a later one.
unfoldable pub release_rpc_call_slot : SlotLimits → Option String → Slots → Slots
release_rpc_call_slot lim client st = record {
  active_rpc_calls = st.active_rpc_calls - 1;
  reserved_rpc_response_bytes = st.reserved_rpc_response_bytes - lim.max_response_bytes;
  active_rpc_calls_by_client = uncount_client client st;
}

-- The slots, and the clients of the calls that are open.
pub record Proxy : Type 0 where
  pub slots : Slots
  pub calls : List (Option String)

unfoldable pub take_nth : ℕ → List (Option String) → Option (Option String × List (Option String))
take_nth n [] = none
take_nth n (c ∷ cs) =
    let later = take_nth (n - 1) cs in
    if n == 0
    then some (c, cs)
    else elim later [ none ↦ none | some (found, rest) ↦ some (found, c ∷ rest) ]

-- A call starts, or the open call at a place ends, whether it has failed or not.
pub data CallEvent : Type 0 where
  starts : Option String → CallEvent
  ends : ℕ → CallEvent

unfoldable pub step_call : SlotLimits → CallEvent → Proxy → Proxy
step_call lim (starts client) p = elim (acquire_rpc_call_slot lim client p.slots) [
  | granted st ↦ record { slots = st; calls = client ∷ p.calls }
  | _ ↦ p
]
step_call lim (ends n) p = elim (take_nth n p.calls) [
  | none ↦ p
  | some (client, rest) ↦ record { slots = release_rpc_call_slot lim client p.slots; calls = rest }
]

unfoldable pub run_calls : SlotLimits → List CallEvent → Proxy → Proxy
run_calls lim [] p = p
run_calls lim (e ∷ es) p = run_calls lim es (step_call lim e p)

abbrev pub idle : Proxy
idle = record {
  slots = record {
    active_rpc_calls = 0;
    reserved_rpc_response_bytes = 0;
    active_rpc_calls_by_client = [];
  };
  calls = [];
}

abbrev pub is_of : String → Option String → ℕ
is_of k none = 0
is_of k (some j) = if str_eq j k then 1 else 0
