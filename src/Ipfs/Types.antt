-- ===== src/Ipfs/Types.antt =====
-- ipfs.routes.ts: the records of the proxy and what it finds outside.
use myqrlwallet_backend.Prelude.{ℕ, String, Bool, Option, none, some, List, Dict.Dict}

-- The configured limits. `parse_date` is `Date.parse`, with a date before 1970 read as 0.
pub record IpfsConfig : Type 0 where
  pub max_size_bytes : ℕ
  pub max_concurrent : ℕ
  pub max_inflight_bytes : ℕ
  pub fallback_reserve_ms : ℕ
  pub server_error_window_ms : ℕ
  pub server_error_min_cids : ℕ
  pub max_cooldown_ms : ℕ
  pub parse_date : String → Option ℕ

pub record GatewayState : Type 0 where
  pub url : String
  pub origin : String
  pub cooldown_until : ℕ
  pub server_error_cids : Dict ℕ

pub record GatewayFailure : Type 0 where
  pub status : ℕ
  pub error : String
  pub upstream_status : Option ℕ

-- An error that a wait ends with: `timed_out` if the attempt was aborted, and whether the client
-- is gone when it is caught.
pub record AttemptError : Type 0 where
  pub timed_out : Bool
  pub client_disconnected : Bool

-- What a read of the upstream body gives, and, for bytes, how their write ends.
pub data Chunk : Type 0 where
  bytes : List ℕ → Option AttemptError → Chunk
  non_binary : Chunk
  failed : AttemptError → Chunk

-- An upstream response with a 2xx status. The declared size is `none` where it is no number.
pub record UpstreamResponse : Type 0 where
  pub declared_size : Option ℕ
  pub content_type : Option String
  pub body : Option (List Chunk)

-- How the response to the client ends.
pub data Closing : Type 0 where
  ended destroyed : Closing
  error_json : GatewayFailure → Option ℕ → Closing
  too_large : ℕ → Closing

pub record Headers : Type 0 where
  pub content_type : String
  pub is_attachment : Bool

-- The response to the client: the bytes written to it so far, and its end.
pub record Response : Type 0 where
  pub headers : Option Headers
  pub headers_sent : Bool
  pub written : List ℕ
  pub closing : Option Closing

abbrev pub no_response : Response
no_response = record {
  headers = none;
  headers_sent = Bool.false;
  written = List.[];
  closing = none;
}

-- A JSON error with a status, and with the `Retry-After` in seconds if there is one.
abbrev pub send_json : Closing → Response → Response
send_json c res = record res { headers_sent = Bool.true; closing = some c }
