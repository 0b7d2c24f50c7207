-- ===== src/Ipfs/Stream.antt =====
-- ipfs.routes.ts: a gateway's response is passed on to the client.
pub mod Passed
use myqrlwallet_backend.Prelude.{
  ℕ, ◌+◌, String, Bool, true, false, not, Option, none, some, List, [], ◌∷◌, ◌++◌, ltb, ◌==◌,
  if◌then◌else◌, length,
}
use myqrlwallet_backend.Ipfs.Types.{
  IpfsConfig, GatewayFailure, AttemptError, Chunk, bytes, non_binary, failed, UpstreamResponse,
  Closing, ended, destroyed, error_json, too_large, Headers, Response, send_json,
}
use myqrlwallet_backend.Ipfs.Paths.{is_inline_media_type}

abbrev pub plain_failure : ℕ → String → GatewayFailure
plain_failure status error = record { status = status; error = error; upstream_status = none }

abbrev pub close_response : Closing → Response → Response
close_response c res = record res { closing = some c }

-- The connection is cut if the response has begun.
unfoldable pub send_stream_error : ℕ → String → Response → Response
send_stream_error status error res =
    if res.headers_sent
    then close_response destroyed res
    else send_json (error_json (plain_failure status error) none) res

unfoldable pub refuse_size : ℕ → Response → Response
refuse_size size res =
    if res.headers_sent then close_response destroyed res else send_json (too_large size) res

-- Media outside the list are an attachment of no particular type.
unfoldable pub proxy_headers : Option String → Headers
proxy_headers none = record { content_type = "application/octet-stream"; is_attachment = true }
proxy_headers (some t) =
    if is_inline_media_type t
    then record { content_type = t; is_attachment = false }
    else record { content_type = "application/octet-stream"; is_attachment = true }

abbrev pub write_chunk : Headers → List ℕ → Response → Response
write_chunk h b res = record res {
  headers = some h;
  headers_sent = true;
  written = res.written ++ b;
}

abbrev pub end_response : Headers → Response → Response
end_response h res = record res { headers = some h; headers_sent = true; closing = some ended }

-- The loop over the chunks: the response, and the error that it ends with, if it throws.
unfoldable pub stream_chunks :
    IpfsConfig → Headers → List Chunk → Response → Response × Option AttemptError
stream_chunks cfg h [] res = (end_response h res, none)
stream_chunks cfg h (failed t ∷ cs) res = (res, some t)
stream_chunks cfg h (non_binary ∷ cs) res = (send_stream_error 502 "gateway stream error" res, none)
stream_chunks cfg h (bytes b write_error ∷ cs) res =
    let size = length res.written + length b in
    let next = if length b == 0 then res else write_chunk h b res in
    let rest = stream_chunks cfg h cs next in
    if ltb cfg.max_size_bytes size
    then (refuse_size size res, none)
    else if length b == 0
    then rest
    else elim write_error [ none ↦ rest | some t ↦ (next, some t) ]

abbrev pub exceeds : ℕ → Option ℕ → Bool
exceeds limit none = false
exceeds limit (some n) = ltb limit n

abbrev pub or_zero : Option ℕ → ℕ
or_zero none = 0
or_zero (some n) = n

unfoldable pub stream_gateway_response :
    IpfsConfig → UpstreamResponse → Response → Response × Option AttemptError
stream_gateway_response cfg up res =
    if exceeds cfg.max_size_bytes up.declared_size
    then (send_json (too_large (or_zero up.declared_size)) res, none)
    else elim up.body [
      | none ↦ (send_json (error_json (plain_failure 502 "gateway error") none) res, none)
      | some chunks ↦ stream_chunks cfg (proxy_headers up.content_type) chunks res
    ]
