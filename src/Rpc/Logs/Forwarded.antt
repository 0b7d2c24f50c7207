-- ===== src/Rpc/Logs/Forwarded.antt =====
-- rpc-security.ts: the filter of qrl_getLogs that is forwarded.
use myqrlwallet_backend.Prelude.{ℕ, ◌≡◌, true, List}
use myqrlwallet_backend.Prelude.Dict
use myqrlwallet_backend.Value.{Value, Fields, fields, field_of}
use myqrlwallet_backend.Rpc.Logs.{has_canonical_keys}
use myqrlwallet_backend.Rpc.Params.{only}
use myqrlwallet_backend.Rpc.Logs.Bounds.{IsBounded}

-- A request whose parameters are one filter, with canonical keys and bounded.
pub record Forwarded (shake256 : List ℕ → List ℕ) (body : Value) : Type 0 where
  pub filter : Fields
  pub alone : field_of "params" body ≡ only (Value.obj filter)
  pub keys : has_canonical_keys (fields filter) ≡ true
  pub bounded : IsBounded shake256 (Value.obj filter)
