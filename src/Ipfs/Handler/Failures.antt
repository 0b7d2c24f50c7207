-- ===== src/Ipfs/Handler/Failures.antt =====
-- ipfs.routes.ts: what an attempt comes to is never a 503.
use myqrlwallet_backend.Prelude.{
  ℕ, ◌≡◌, ◌⊎◌, refl, inl, inr, String, Bool, true, false, ◌||◌, Option, none, some, List, [], ◌∷◌,
  ◌==◌, ltb, if◌then◌else◌, length, arith, if_either, Option-cases,
}
use myqrlwallet_backend.Ipfs.Types.{
  IpfsConfig, GatewayFailure, AttemptError, Chunk, bytes, non_binary, failed, UpstreamResponse,
  error_json, Headers, Response, no_response,
}
use myqrlwallet_backend.Ipfs.Stream.{
  send_stream_error, refuse_size, proxy_headers, write_chunk, stream_chunks,
  stream_gateway_response, exceeds,
}
use myqrlwallet_backend.Ipfs.Cooldown.{
  failure_priority, prefer_failure, cooling_down, thrown_failure, upstream_failure, is_server_error,
}
use myqrlwallet_backend.Ipfs.Handler.{
  GatewayReply, refused, served, unreachable, Verdict, goes_on, breaks, returns, catch_error, judge,
}

abbrev pub is_503 : GatewayFailure → Bool
is_503 f = f.status == 503

-- The response is a 503.
abbrev pub is_unavailable : Response → Bool
is_unavailable res = elim res.closing [ some (error_json f retry) ↦ is_503 f | _ ↦ false ]

-- What no 503 follows from.
abbrev pub Fine : Verdict → Type 0
Fine (goes_on g) = is_503 g ≡ false
Fine (breaks g) = is_503 g ≡ false
Fine (returns res) = is_unavailable res ≡ false

Available : Response × Option AttemptError → Type 0
Available x = is_unavailable x.0 ≡ false

send_stream_error-available :
    (status : ℕ) (error : String) (res : Response)
    → (status == 503) ≡ false
    → is_unavailable (send_stream_error status error res) ≡ false
unfolding send_stream_error
send_stream_error-available status error res h =
    if_either (λ r. is_unavailable r ≡ false) res.headers_sent _ _ (λ _. refl) (λ _. h)

stream_chunks-Available :
    (cfg : IpfsConfig) (h : Headers) (cs : List Chunk) (res : Response)
    → is_unavailable res ≡ false
    → Available (stream_chunks cfg h cs res)
unfolding stream_chunks refuse_size Available
stream_chunks-Available cfg h [] res fine = refl
stream_chunks-Available cfg h (failed t ∷ cs) res fine = fine
stream_chunks-Available cfg h (non_binary ∷ cs) res fine =
    send_stream_error-available 502 "gateway stream error" res refl
stream_chunks-Available cfg h (bytes b e ∷ cs) res fine =
    let next = if length b == 0 then res else write_chunk h b res in
    let fine_next : is_unavailable next ≡ false =
      if_either (λ r. is_unavailable r ≡ false) (length b == 0) _ _ (λ _. fine) (λ _. fine) in
    let later = stream_chunks-Available cfg h cs next fine_next in
    if_either Available (ltb cfg.max_size_bytes _) _ _
      (λ _. if_either (λ r. is_unavailable r ≡ false) res.headers_sent _ _ (λ _. refl) (λ _. refl))
      (λ _. if_either Available (length b == 0) _ _ (λ _. later) (λ _. by_write e fine_next later))
  where
    by_write :
        (o : Option AttemptError)
        → (let next = if length b == 0 then res else write_chunk h b res in
            is_unavailable next ≡ false
            → Available (stream_chunks cfg h cs next)
            → Available (elim o [ none ↦ stream_chunks cfg h cs next | some t ↦ (next, some t) ]))
    by_write none fine_next later = later
    by_write (some t) fine_next later = fine_next

stream_gateway_response-Available :
    (cfg : IpfsConfig) (up : UpstreamResponse)
    → Available (stream_gateway_response cfg up no_response)
unfolding stream_gateway_response Available
stream_gateway_response-Available cfg up =
    if_either Available (exceeds cfg.max_size_bytes up.declared_size) _ _ (λ _. refl)
      (λ _. elim (Option-cases up.body) [
        | inl q ↦ rw q refl
        | inr (chunks, q) ↦
            rw q
              (stream_chunks-Available cfg (proxy_headers up.content_type) chunks no_response refl)
      ])

-- The loop's failure so far: still that of its start, or no 503.
abbrev pub Started : GatewayFailure → Type 0
Started f = (f ≡ cooling_down) ⊎ (is_503 f ≡ false)

prefer_failure-fine :
    (f g : GatewayFailure) → Started f → is_503 g ≡ false → is_503 (prefer_failure f g) ≡ false
unfolding prefer_failure failure_priority
prefer_failure-fine f g (inl start) h = rw start (ground (arith, h))
prefer_failure-fine f g (inr fine) h =
    if_either (λ x. is_503 x ≡ false) (ltb (failure_priority f) (failure_priority g)) _ _ (λ _. h)
      (λ _. fine)

thrown_failure-fine : (b : Bool) (t : AttemptError) → is_503 (thrown_failure b t) ≡ false
thrown_failure-fine b t = if_either (λ x. is_503 x ≡ false) t.timed_out _ _ (λ _. refl) (λ _. refl)

catch_error-Fine :
    (b : Bool) (res : Response) (t : AttemptError) (f : GatewayFailure)
    → Started f
    → is_unavailable res ≡ false
    → Fine (catch_error b res t f)
unfolding catch_error
catch_error-Fine b res t f start fine =
    let failure = thrown_failure b t in
    let h = thrown_failure-fine b t in
    if_either Fine t.client_disconnected _ _ (λ _. fine)
      (λ _.
        if_either Fine res.headers_sent _ _
          (λ _. send_stream_error-available failure.status failure.error res h)
          (λ _. prefer_failure-fine f failure start h))

pub judge-Fine :
    (cfg : IpfsConfig) (r : GatewayReply) (f : GatewayFailure) → Started f → Fine (judge cfg r f)
unfolding judge Available
judge-Fine cfg (refused status retry_after now g) f start =
    let h : is_503 (upstream_failure status) ≡ false = ground arith in
    if_either Fine (status == 429 || is_server_error status) _ _
      (λ _. prefer_failure-fine f (upstream_failure status) start h) (λ _. h)
judge-Fine cfg (unreachable t) f start = catch_error-Fine false no_response t f start refl
judge-Fine cfg (served up) f start = by_end x.1 (stream_gateway_response-Available cfg up)
  where
    x : Response × Option AttemptError
    x = stream_gateway_response cfg up no_response

    by_end :
        (o : Option AttemptError)
        → Available x
        → Fine (elim o [ none ↦ returns x.0 | some t ↦ catch_error true x.0 t f ])
    by_end none h = h
    by_end (some t) h = catch_error-Fine true x.0 t f start h
