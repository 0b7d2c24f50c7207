-- ===== src/Rpc/Params.antt =====
-- rpc-security.ts: rpcParamsValidator.
use myqrlwallet_backend.Prelude.{
  ℕ, ◌%◌, String, Bool, true, false, not, ◌&&◌, ◌||◌, Option, none, some, List, [], ◌∷◌, ltb, ◌==◌,
  str_eq, if◌then◌else◌, length,
}
use myqrlwallet_backend.Value.{
  Value, is_missing, Items, Fields, items, is_record, field_of, is_text,
}
use myqrlwallet_backend.Patterns.{is_hex, strip, every, count}
use myqrlwallet_backend.Rpc.Address.{is_qrl_address}
use myqrlwallet_backend.Rpc.Methods.{rpc_error, Passed, read_id}
use myqrlwallet_backend.Rpc.Logs.{is_hash, filter_problem, canonical_filter}

-- The parameters, when they are given.
abbrev pub list_of : Value → List Value
list_of (Value.arr vs) = items vs
list_of _ = []

-- `params?.[0]`
abbrev pub first_of : List Value → Value
first_of [] = Value.undefined
first_of (v ∷ vs) = v

abbrev pub is_list : Value → Bool
is_list (Value.arr vs) = true
is_list _ = false

abbrev pub is_string : Value → Bool
is_string (Value.str s) = true
is_string _ = false

-- `/^0x(?:[a-fA-F0-9]{2})+$/`
unfoldable pub is_hex_bytes : Value → Bool
is_hex_bytes (Value.str s) = elim (strip "0x" s) [
  | none ↦ false
  | some digits ↦ every is_hex digits && ltb 0 (count digits) && count digits % 2 == 0
]
is_hex_bytes _ = false

unfoldable pub account_problem : (List ℕ → List ℕ) → Value → Option String
account_problem shake256 address =
    if not (is_string address)
    then some "Invalid params: address required"
    else if is_qrl_address shake256 address
    then none
    else some "Invalid params: invalid address format"

unfoldable pub raw_problem : Value → Option String
raw_problem raw =
    if not (is_string raw)
    then some "Invalid params: signed transaction required"
    else if is_hex_bytes raw
    then none
    else some "Invalid params: transaction must be hex-encoded"

unfoldable pub hash_problem : Value → Option String
hash_problem hash =
    if not (is_string hash)
    then some "Invalid params: transaction hash required"
    else if is_hash hash
    then none
    else some "Invalid params: invalid transaction hash format"

-- The methods other than qrl_getLogs: what is wrong with the parameters.
unfoldable pub params_problem : (List ℕ → List ℕ) → Value → List Value → Option String
params_problem shake256 method params =
    if is_text "qrl_getBalance" method
      || is_text "qrl_getTransactionCount" method
      || is_text "qrl_getCode" method
    then account_problem shake256 (first_of params)
    else if is_text "qrl_sendRawTransaction" method
    then raw_problem (first_of params)
    else if is_text "qrl_maxPriorityFeePerGas" method
    then (if length params == 0 then none else some "Invalid params: no params expected")
    else if is_text "qrl_getTransactionByHash" method && not (length params == 1)
    then some "Invalid params: exactly one transaction hash required"
    else if is_text "qrl_getTransactionReceipt" method || is_text "qrl_getTransactionByHash" method
    then hash_problem (first_of params)
    else if is_text "qrl_call" method || is_text "qrl_estimateGas" method
    then (if is_record (first_of params)
        then none
        else some "Invalid params: transaction object required")
    else none

-- `{ ...body, name: value }`
unfoldable pub set_field : String → Value → Fields → Fields
set_field name value Fields.no_fields = Fields.field name value Fields.no_fields
set_field name value (Fields.field k v fs) =
    let rest = set_field name value fs in
    if str_eq k name then Fields.field k value fs else Fields.field k v rest

abbrev pub with_params : Value → Value → Value
with_params params (Value.obj fs) = Value.obj (set_field "params" params fs)
with_params params _ = Value.obj (Fields.field "params" params Fields.no_fields)

abbrev pub bad_params : Value → String → Passed Value
bad_params body message = Passed.reject (rpc_error 400 (read_id body) 32602 message)

abbrev pub only : Value → Value
only v = Value.arr (Items.item v Items.no_items)

unfoldable pub check_filter : (List ℕ → List ℕ) → Value → Fields → Passed Value
check_filter shake256 body fs = elim (filter_problem shake256 fs) [
  | none ↦ Passed.next (with_params (only (Value.obj (canonical_filter fs))) body)
  | some message ↦ bad_params body message
]

unfoldable pub check_logs : (List ℕ → List ℕ) → Value → List Value → Passed Value
check_logs shake256 body (Value.obj fs ∷ []) = check_filter shake256 body fs
check_logs shake256 body _ = bad_params body "Invalid params: exactly one filter object required"

-- The body is passed on; for qrl_getLogs its filter is built again from the fields checked.
unfoldable pub rpc_params_validator : (List ℕ → List ℕ) → Value → Passed Value
rpc_params_validator shake256 body =
    let method = field_of "method" body in
    let params = field_of "params" body in
    if not (is_missing params) && not (is_list params)
    then bad_params body "Invalid params: must be an array"
    else if is_text "qrl_getLogs" method
    then check_logs shake256 body (list_of params)
    else elim (params_problem shake256 method (list_of params)) [
      | none ↦ Passed.next body
      | some message ↦ bad_params body message
    ]
