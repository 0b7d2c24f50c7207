-- ===== src/BoundedJson.antt =====
-- utils/bounded-json.ts: the body of a response, read chunk by chunk under a limit and parsed.
pub mod Whole
pub mod Accepted
pub mod Tests
use myqrlwallet_backend.Prelude.{
  ℕ, ◌+◌, String, Bool, true, false, not, ◌&&◌, Option, none, some, List, [], ◌∷◌, ltb, ◌==◌,
  str_eq, if◌then◌else◌, length,
}
use myqrlwallet_backend.Patterns.{concat, is_digit, every, read_decimal}
use myqrlwallet_backend.Value.{Value}

pub data BoundedJsonFailure : Type 0 where
  too_large empty non_binary invalid_utf8 invalid_json stream_error : BoundedJsonFailure

-- What a read of the stream gives before its end: bytes, a value that is no `Uint8Array`, or an
-- error.
pub data BodyChunk : Type 0 where
  binary : List ℕ → BodyChunk
  no_binary broken : BodyChunk

-- A response of `fetch`: its declared length and its body.
pub record BodyResponse : Type 0 where
  pub content_length : Option String
  pub chunks : Option (List BodyChunk)

-- `TextDecoder` with its state between chunks, and `JSON.parse`.
pub record Decoding (D : Type 0) : Type 0 where
  pub start : D
  pub decode : D → List ℕ → Option (String × D)
  pub finish : D → Option String
  pub parse : String → Option Value

pub data ReadOutcome : Type 0 where
  parsed : Value → ReadOutcome
  unread : BoundedJsonFailure → ReadOutcome

-- The outcome, and whether the request was aborted.
pub record ReadResult : Type 0 where
  pub outcome : ReadOutcome
  pub aborted : Bool

-- The loop over the chunks ends early, or with the size and the text of the body.
pub data BodyText : Type 0 where
  stopped : BoundedJsonFailure → BodyText
  complete : ℕ → String → BodyText

unfoldable pub declared_body_is_oversize : Option String → ℕ → Bool
declared_body_is_oversize none max_bytes = false
declared_body_is_oversize (some value) max_bytes =
    not (str_eq value "") && every is_digit value && ltb max_bytes (read_decimal 0 value)

module _ {D : Type 0} (tools : Decoding D) (max_bytes : ℕ) where
  unfoldable pub end_body : ℕ → String → D → BodyText
  end_body received body state = elim (tools.finish state) [
    | none ↦ stopped invalid_utf8
    | some rest ↦ complete received (concat body rest)
  ]

  unfoldable pub read_body : List BodyChunk → ℕ → String → D → BodyText
  read_body [] received body state = end_body received body state
  read_body (broken ∷ chunks) received body state = stopped stream_error
  read_body (no_binary ∷ chunks) received body state = stopped non_binary
  read_body (binary bytes ∷ chunks) received body state =
      if ltb max_bytes (received + length bytes)
      then stopped too_large
      else elim (tools.decode state bytes) [
        | none ↦ stopped invalid_utf8
        | some (text, next) ↦ read_body chunks (received + length bytes) (concat body text) next
      ]

  abbrev pub abort_read : BoundedJsonFailure → ReadResult
  abort_read failure = record { outcome = unread failure; aborted = true }

  abbrev pub keep_read : ReadOutcome → ReadResult
  keep_read outcome = record { outcome = outcome; aborted = false }

  unfoldable pub parse_body : BodyText → ReadResult
  parse_body (stopped failure) = abort_read failure
  parse_body (complete received body) =
      if received == 0 then keep_read (unread empty) else elim (tools.parse body) [
        | none ↦ keep_read (unread invalid_json)
        | some v ↦ keep_read (parsed v)
      ]

  unfoldable pub read_bounded_json_response : BodyResponse → ReadResult
  read_bounded_json_response response =
      if declared_body_is_oversize response.content_length max_bytes
      then abort_read too_large
      else elim response.chunks [
        | none ↦ keep_read (unread empty)
        | some chunks ↦ parse_body (read_body chunks 0 "" tools.start)
      ]
