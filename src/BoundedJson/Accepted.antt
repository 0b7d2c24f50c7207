-- ===== src/BoundedJson/Accepted.antt =====
-- What the bounded reader accepts, in terms of the bytes of the whole body.
use myqrlwallet_backend.Prelude.{
  ℕ, ◌+◌, ◌<◌, ◌≤◌, ◌≡◌, ◌↔◌, refl, sym, ap, ◌∙◌, subst, inl, inr, String, false, Option, none,
  some, List, ◌==◌, length, arith, Bool-cases, Option-cases,
}
use myqrlwallet_backend.Patterns.{concat}
use myqrlwallet_backend.Value.{Value}
use myqrlwallet_backend.BoundedJson.{
  BodyChunk, BodyResponse, Decoding, BodyText, ReadResult, stopped, complete, empty, invalid_json,
  parsed, unread, read_body, read_bounded_json_response, parse_body, declared_body_is_oversize,
}
use myqrlwallet_backend.BoundedJson.Whole.{
  joined, decode_whole, Streams, read_as, read_body-joined, read_body-complete,
}

abbrev pub kept : Value → ReadResult
kept v = record { outcome = parsed v; aborted = false }

module _ {D : Type 0} (tools : Decoding D) (max_bytes : ℕ) where
  -- A body as the reader takes it: binary to its end, neither empty nor too large, and a text.
  abbrev pub IsAccepted : List BodyChunk → Value → Type 0
  IsAccepted chunks v =
      (bytes : List ℕ) × (text : String) × (joined chunks ≡ some bytes)
      × (0 < length bytes)
      × (length bytes ≤ max_bytes)
      × (decode_whole tools tools.start bytes ≡ some text)
      × (tools.parse text ≡ some v)

  parse_body-parsed :
      (r : BodyText) (v : Value)
      → parse_body tools max_bytes r ≡ kept v
      → (n : ℕ) × (text : String) × (r ≡ complete n text) × (0 < n) × (tools.parse text ≡ some v)
  unfolding parse_body
  parse_body-parsed (stopped f) v e = cc
  parse_body-parsed (complete n text) v e = elim (Bool-cases (n == 0)) [
    | inl nothing ↦
        let no : record { outcome = unread empty; aborted = false } ≡ kept v =
          rw (nothing, parse_body) at e in
        cc
    | inr filled ↦ elim (Option-cases (tools.parse text)) [
      | inl bad ↦
          let no : record { outcome = unread invalid_json; aborted = false } ≡ kept v =
            rw (filled, bad, parse_body) at e in
          cc
      | inr (w, good) ↦
          let same : kept w ≡ kept v = rw (filled, good, parse_body) at e in
          let value : w ≡ v = cc in (n, text, refl, ground (arith, filled), good ∙ ap some value)
    ]
  ]

  read_as-complete :
      (k n : ℕ) (o : Option String) (text : String)
      → read_as tools k "" o ≡ complete n text
      → o ≡ some text
  unfolding concat
  read_as-complete k n none text e = cc
  read_as-complete k n (some t) text e = cc

  taken :
      Streams tools
      → (chunks : List BodyChunk) (v : Value)
      → parse_body tools max_bytes (read_body tools max_bytes chunks 0 "" tools.start) ≡ kept v
      → IsAccepted chunks v
  taken laws chunks v e =
      let (n, text, end, filled, value) = parse_body-parsed _ v e in
      let (bytes, found, size, small) =
        read_body-complete tools max_bytes chunks 0 n "" text tools.start (omega arith) end in
      let whole =
        read_body-joined tools max_bytes laws chunks bytes 0 found (omega (arith, size, small)) ""
          tools.start in
      (
        bytes,
        text,
        found,
        omega (arith, size, filled),
        omega (arith, size, small),
        read_as-complete _ n _ text (sym whole ∙ end),
        value,
      )

  given :
      Streams tools
      → (chunks : List BodyChunk) (v : Value) → IsAccepted chunks v
      → parse_body tools max_bytes (read_body tools max_bytes chunks 0 "" tools.start) ≡ kept v
  unfolding parse_body concat
  given laws chunks v (bytes, text, found, filled, small, decoded, value) =
      let some_bytes : (0 + length bytes == 0) ≡ false = ground (arith, filled) in
      rw
        (
          read_body-joined tools max_bytes laws chunks bytes 0 found (omega (arith, small)) ""
              tools.start,
          decoded,
          some_bytes,
          value,
          parse_body,
        )
        refl

  IsAccepted-same :
      (chunks others : List BodyChunk) (v : Value)
      → some chunks ≡ some others
      → IsAccepted others v
      → IsAccepted chunks v
  IsAccepted-same chunks others v e ok =
      let same : others ≡ chunks = cc in subst (λ cs. IsAccepted cs v) same ok

  -- A response is read as a value exactly if its declared length is not too large and its body, taken
  -- as a whole and not chunk by chunk, has at least one byte and at most the limit, decodes, and
  -- parses to that value; then the request is not aborted.
  pub read_bounded_json_response-parsed :
      Streams tools
      → (response : BodyResponse) (v : Value)
      → (read_bounded_json_response tools max_bytes response ≡ kept v) ↔ (
          (declared_body_is_oversize response.content_length max_bytes ≡ false)
          × (chunks : List BodyChunk) × (response.chunks ≡ some chunks)
          × IsAccepted chunks v)
  unfolding read_bounded_json_response
  read_bounded_json_response-parsed laws response v =
      elim (Bool-cases (declared_body_is_oversize response.content_length max_bytes)) [
        | inl over ↦ rw over ((λ e. cc), λ (wrong, chunks, is, rest). cc)
        | inr fits ↦ elim (Option-cases response.chunks) [
          | inl no_body ↦ rw (fits, no_body) ((λ e. cc), λ (fine, chunks, is, rest). cc)
          | inr (chunks, is) ↦
              rw (fits, is)
                (
                  (λ e. (refl, chunks, refl, taken laws chunks v e)),
                  λ (fine, others, same, ok).
                      given laws chunks v (IsAccepted-same chunks others v same ok),
                )
        ]
      ]
