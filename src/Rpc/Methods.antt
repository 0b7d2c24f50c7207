-- ===== src/Rpc/Methods.antt =====
-- rpc-security.ts: batches and the table of methods.
use Prim.Native.Char.{code}
use myqrlwallet_backend.Prelude.{
  ℕ, ◌+◌, ◌/◌, ◌%◌, ◌^◌, String, Bool, true, not, List, [], ◌∷◌, leb, ◌==◌, str_eq, if◌then◌else◌,
}
use myqrlwallet_backend.Patterns.{is_one_of}
use myqrlwallet_backend.Value.{Value, Number, is_record, field_of}

pub data RpcId : Type 0 where
  text_id : String → RpcId
  number_id : Number → RpcId
  null_id : RpcId

-- `length` of a string: its UTF-16 code units.
unfoldable pub units : String → ℕ
units String.[] = 0
units (String.◌∷◌ c s) = (if leb 65536 (code c) then 2 else 1) + units s

-- The exponent of a double's bit pattern is all ones in infinities and NaN.
unfoldable pub is_finite : Number → Bool
is_finite (Number.nat n) = true
is_finite (Number.neg n) = true
is_finite (Number.other bits) = not (bits / 2 ^ 52 % 2048 == 2047)

unfoldable pub normalize_rpc_id : Value → RpcId
normalize_rpc_id (Value.str s) = if leb (units s) 256 then RpcId.text_id s else RpcId.null_id
normalize_rpc_id (Value.num n) = if is_finite n then RpcId.number_id n else RpcId.null_id
normalize_rpc_id _ = RpcId.null_id

-- An error response; its JSON-RPC code is the negated `code`.
pub record RpcError : Type 0 where
  pub status : ℕ
  pub id : RpcId
  pub code : ℕ
  pub message : String

pub data MethodType : Type 0 where
  read write : MethodType

abbrev pub read_id : Value → RpcId
read_id body = if is_record body then normalize_rpc_id (field_of "id" body) else RpcId.null_id

abbrev pub allowed_rpc_methods : List String
allowed_rpc_methods =
    "qrl_getBalance" ∷ "qrl_getTransactionCount" ∷ "net_listening" ∷ "qrl_gasPrice"
    ∷ "qrl_maxPriorityFeePerGas" ∷ "qrl_estimateGas" ∷ "qrl_sendRawTransaction"
    ∷ "qrl_getTransactionReceipt" ∷ "qrl_getTransactionByHash" ∷ "qrl_getCode" ∷ "qrl_call"
    ∷ "qrl_getLogs" ∷ "qrl_chainId" ∷ "qrl_blockNumber" ∷ "qrl_getBlockByNumber" ∷ "net_version"
    ∷ []

abbrev pub write_methods : List String
write_methods = "qrl_sendRawTransaction" ∷ []

-- A middleware answers with an error or passes a result on.
pub data Passed (A : Type 0) : Type 0 where
  next : A → Passed A
  reject : RpcError → Passed A

abbrev pub rpc_error : ℕ → RpcId → ℕ → String → RpcError
rpc_error status id code message = record {
  status = status;
  id = id;
  code = code;
  message = message;
}

unfoldable pub rpc_batch_reject : Value → Passed Unit
rpc_batch_reject (Value.arr vs) =
    Passed.reject
      (rpc_error 400 RpcId.null_id 32600 "Batch requests are not supported on this endpoint.")
rpc_batch_reject _ = Passed.next tt

abbrev pub check_method : RpcId → String → Passed MethodType
check_method id method =
    if str_eq method ""
    then Passed.reject (rpc_error 400 id 32600 "Invalid Request: missing or invalid method")
    else if is_one_of method allowed_rpc_methods
    then Passed.next (if is_one_of method write_methods then MethodType.write else MethodType.read)
    else Passed.reject (rpc_error 403 id 32601 "Method not allowed")

unfoldable pub rpc_method_whitelist : Value → Passed MethodType
rpc_method_whitelist body = elim (field_of "method" body) [
  | Value.str method ↦ check_method (read_id body) method
  | _ ↦
      Passed.reject
        (rpc_error 400 (read_id body) 32600 "Invalid Request: missing or invalid method")
]
