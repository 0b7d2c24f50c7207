-- ===== src/Rpc/Tests.antt =====
-- Requests on small inputs, and each theorem applied to one.
use myqrlwallet_backend.Prelude.{
  ℕ, ◌≡◌, ◌⊎◌, ◌↔◌, arith, refl, true, none, some, List, [], ◌∷◌, map,
}
use myqrlwallet_backend.Prelude.Dict
use myqrlwallet_backend.Patterns.{lower}
use myqrlwallet_backend.Value.{Value, Fields}
use myqrlwallet_backend.Rpc.Address.{has_valid_case, checksummed_body, upper}
use myqrlwallet_backend.Rpc.Address.Checksum.{Octet, body, byte, marked, has_valid_case_iff}
use myqrlwallet_backend.Rpc.Logs.Forwarded.{Forwarded}
use myqrlwallet_backend.Rpc.Params.{only}
use myqrlwallet_backend.Rpc.Slots.{SlotLimits, CallEvent, starts, ends, run_calls, idle}
use myqrlwallet_backend.Rpc.Slots.Exact.{IsExact, run_calls-IsExact}

abbrev digest : List ℕ → List ℕ
digest _ = 128 ∷ []

abbrev octets : List Octet
octets = record { high = 8; low = 0; first = b'a'; second = b'b' } ∷ []

lower-octets : map lower (b'A' ∷ b'b' ∷ []) ≡ body octets
unfolding body
lower-octets = refl

digest-octets : digest (body octets) ≡ map byte octets
digest-octets = refl

has_valid_case_iff_example :
    (checksummed_body digest (body octets) ≡ marked octets)
    × (has_valid_case digest (b'A' ∷ b'b' ∷ []) ≡ true
        ↔ (b'A' ∷ b'b' ∷ [] ≡ body octets)
          ⊎ (b'A' ∷ b'b' ∷ [] ≡ map upper (body octets))
          ⊎ (b'A' ∷ b'b' ∷ [] ≡ marked octets))
has_valid_case_iff_example =
    has_valid_case_iff digest octets (b'A' ∷ b'b' ∷ [])
      ((omega arith, omega arith, (refl, refl), (refl, refl)), tt) digest-octets lower-octets

abbrev range : Fields
range =
    Fields.field "fromBlock" (Value.str "0x10")
      (Fields.field "toBlock" (Value.str "0x20") Fields.no_fields)

abbrev request : Value
request = Value.obj (
    Fields.field "method" (Value.str "qrl_getLogs")
      (Fields.field "params" (only (Value.obj range)) Fields.no_fields))

abbrev limits : SlotLimits
limits = record {
  max_response_bytes = 100;
  max_concurrent = 4;
  max_concurrent_per_client = 1;
  max_inflight_bytes = 1000;
}

abbrev events : List CallEvent
events = starts (some "1.1.1.1") ∷ starts (some "1.1.1.1") ∷ starts none ∷ ends 0 ∷ []

run_calls-IsExact_example : IsExact limits (run_calls limits events idle)
run_calls-IsExact_example = run_calls-IsExact limits events
