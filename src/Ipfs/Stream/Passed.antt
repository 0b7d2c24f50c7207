-- ===== src/Ipfs/Stream/Passed.antt =====
-- ipfs.routes.ts: what of a gateway's response reaches the client.
use myqrlwallet_backend.Prelude.{
  ℕ, ◌+◌, ◌≤◌, ◌≡◌, ◌≢◌, ◌⊎◌, refl, ap, sym, ◌∙◌, subst, inl, inr, Bool, true, false, Option, none,
  some, List, [], ◌∷◌, ◌++◌, ltb, ◌==◌, if◌then◌else◌, length, length-append, arith, Option-cases,
  if_either,
}
use myqrlwallet_backend.Ipfs.Types.{
  IpfsConfig, AttemptError, Chunk, bytes, non_binary, failed, UpstreamResponse, Closing, ended,
  destroyed, error_json, too_large, Headers, Response, no_response, send_json,
}
use myqrlwallet_backend.Ipfs.Stream.{
  send_stream_error, refuse_size, proxy_headers, write_chunk, stream_chunks, exceeds,
  stream_gateway_response, plain_failure,
}

-- The bytes of the chunks.
abbrev pub content : List Chunk → List ℕ
content [] = []
content (bytes b e ∷ cs) = b ++ content cs
content (non_binary ∷ cs) = content cs
content (failed t ∷ cs) = content cs

-- A response carries a first part of some bytes, within a limit, after what it carried before; it
-- has come to its regular end only if it carries all of them.
pub record Carries (limit : ℕ) (before all : List ℕ) (res : Response) : Type 0 where
  pub part : List ℕ
  pub left : List ℕ
  pub carried : res.written ≡ before ++ part
  pub whole : all ≡ part ++ left
  pub small : length res.written ≤ limit
  pub complete : res.closing ≡ some ended → left ≡ []

append_nil : (xs : List ℕ) → xs ++ [] ≡ xs
append_nil [] = refl
append_nil (x ∷ xs) = ap (λ ys. x ∷ ys) (append_nil xs)

append_assoc : (xs ys zs : List ℕ) → (xs ++ ys) ++ zs ≡ xs ++ (ys ++ zs)
append_assoc [] ys zs = refl
append_assoc (x ∷ xs) ys zs = ap (λ l. x ∷ l) (append_assoc xs ys zs)

-- A response to which nothing is written, and that does not end regularly.
stops-Carries :
    (limit : ℕ) (all : List ℕ) (res end : Response)
    → length res.written ≤ limit
    → end.written ≡ res.written
    → end.closing ≢ some ended
    → Carries limit res.written all end
stops-Carries limit all res end small same cut = record {
  part = [];
  left = all;
  carried = same ∙ sym (append_nil res.written);
  whole = refl;
  small = subst (λ w. length w ≤ limit) (sym same) small;
  complete = λ e. absurd (cut e);
}

-- A response that is cut off if it has begun, and is given an error otherwise.
cut_off :
    (limit : ℕ) (all : List ℕ) (res : Response)
    → length res.written ≤ limit
    → (begun : Bool) (c : Closing) → some c ≢ some ended
    → Carries limit res.written all
        (if begun then record res { closing = some destroyed } else send_json c res)
cut_off limit all res small true c error =
    stops-Carries limit all res (record res { closing = some destroyed }) small refl (λ e. cc e)
cut_off limit all res small false c error =
    stops-Carries limit all res (send_json c res) small refl error

no_bytes : (b : List ℕ) → (length b == 0) ≡ true → b ≡ []
no_bytes [] e = refl
no_bytes (x ∷ xs) e = ground (arith, e)

-- What comes after a write carries on from it.
then-Carries :
    (limit : ℕ) (before b all : List ℕ) (res : Response)
    → Carries limit (before ++ b) all res
    → Carries limit before (b ++ all) res
then-Carries limit before b all res c = record {
  part = b ++ c.part;
  left = c.left;
  carried = c.carried ∙ append_assoc before b c.part;
  whole = ap (λ l. b ++ l) c.whole ∙ sym (append_assoc b c.part c.left);
  small = c.small;
  complete = c.complete;
}

after_write :
    (cfg : IpfsConfig) (h : Headers) (cs : List Chunk) (next : Response) (e : Option AttemptError)
    (before b : List ℕ)
    → next.written ≡ before ++ b
    → next.closing ≡ none
    → length next.written ≤ cfg.max_size_bytes
    → Carries cfg.max_size_bytes next.written (content cs) (stream_chunks cfg h cs next).0
    → Carries cfg.max_size_bytes before
        (b ++ content cs)
        (elim e as (λ _. Response × Option AttemptError) [
          | none ↦ stream_chunks cfg h cs next
          | some t ↦ (next, some t)
        ]).0
after_write cfg h cs next none before b whole unclosed room later =
    then-Carries cfg.max_size_bytes before b (content cs) (stream_chunks cfg h cs next).0 (
      subst (λ w. Carries cfg.max_size_bytes w (content cs) (stream_chunks cfg h cs next).0) whole
        later)
after_write cfg h cs next (some t) before b whole unclosed room later =
    then-Carries cfg.max_size_bytes before b (content cs) next (
      subst (λ w. Carries cfg.max_size_bytes w (content cs) next) whole
        (stops-Carries cfg.max_size_bytes (content cs) next next room refl
          (λ q. cc (sym unclosed ∙ q))))

stream_chunks-Carries :
    (cfg : IpfsConfig) (h : Headers) (cs : List Chunk) (res : Response)
    → length res.written ≤ cfg.max_size_bytes
    → res.closing ≡ none
    → Carries cfg.max_size_bytes res.written (content cs) (stream_chunks cfg h cs res).0
unfolding stream_chunks send_stream_error refuse_size
stream_chunks-Carries cfg h [] res small fresh = record {
  part = [];
  left = [];
  carried = sym (append_nil res.written);
  whole = refl;
  small = small;
  complete = λ e. refl;
}
stream_chunks-Carries cfg h (failed t ∷ cs) res small fresh =
    stops-Carries cfg.max_size_bytes (content cs) res res small refl (λ e. cc (sym fresh ∙ e))
stream_chunks-Carries cfg h (non_binary ∷ cs) res small fresh =
    cut_off cfg.max_size_bytes (content cs) res small res.headers_sent
      (error_json (plain_failure 502 "gateway stream error") none) (λ e. cc e)
stream_chunks-Carries cfg h (bytes b e ∷ cs) res small fresh =
    let size = length res.written + length b in
    if_either
      (λ (x : Response × Option AttemptError).
        Carries cfg.max_size_bytes res.written (b ++ content cs) x.0)
      (ltb cfg.max_size_bytes size) _ _
      (λ big.
        cut_off cfg.max_size_bytes (b ++ content cs) res small res.headers_sent (too_large size)
          (λ q. cc q))
      (λ fits.
        if_either
          (λ (x : Response × Option AttemptError).
            Carries cfg.max_size_bytes res.written (b ++ content cs) x.0)
          (length b == 0) _ _
          (λ empty. rw (empty, no_bytes b empty) (stream_chunks-Carries cfg h cs res small fresh))
          (λ filled.
            let next = if length b == 0 then res else write_chunk h b res in
            let whole : next.written ≡ res.written ++ b = rw filled refl in
            let unclosed : next.closing ≡ none = rw filled fresh in
            let room : length next.written ≤ cfg.max_size_bytes =
              rw (whole, length-append res.written b) (ground (arith, fits)) in
            after_write cfg h cs next e res.written b whole unclosed room
              (stream_chunks-Carries cfg h cs next room unclosed)))

-- The response that nothing of a body is written to.
abbrev pub IsBare : Response → Type 0
IsBare res = (res.written ≡ []) × (res.closing ≢ some ended)

-- What a 2xx response of a gateway makes of a fresh response.
pub stream_gateway_response-Carries :
    (cfg : IpfsConfig) (up : UpstreamResponse)
    → let res = (stream_gateway_response cfg up no_response).0 in
      IsBare res
      ⊎ ((chunks : List Chunk) × (up.body ≡ some chunks)
          × Carries cfg.max_size_bytes [] (content chunks) res)
unfolding stream_gateway_response
stream_gateway_response-Carries cfg up =
    if_either
      (λ (x : Response × Option AttemptError).
        IsBare x.0
        ⊎ ((chunks : List Chunk) × (up.body ≡ some chunks)
            × Carries cfg.max_size_bytes [] (content chunks) x.0))
      (exceeds cfg.max_size_bytes up.declared_size) _ _ (λ big. inl (refl, λ q. cc q))
      (λ fits. elim (Option-cases up.body) [
        | inl q ↦ rw q (inl (refl, λ r. cc r))
        | inr (chunks, q) ↦ rw q (
            inr (
              chunks,
              refl,
              stream_chunks-Carries cfg (proxy_headers up.content_type) chunks no_response
                  (omega arith) refl,
            ))
      ])
