-- ===== src/Ipfs/Handler/Served.antt =====
-- ipfs.routes.ts: whose bytes the client gets.
use myqrlwallet_backend.Prelude.{
  ℕ, ◌≡◌, ◌⊎◌, refl, subst, inl, inr, ◌==◌, ◌||◌, String, Bool, true, false, not, Option, none,
  some, List, [], ◌∷◌, Any, arith, Option-cases, if_either,
}
use myqrlwallet_backend.Ipfs.Types.{
  IpfsConfig, GatewayState, GatewayFailure, AttemptError, Chunk, UpstreamResponse, Response,
  no_response,
}
use myqrlwallet_backend.Ipfs.Paths.{is_valid_cid, is_safe_path}
use myqrlwallet_backend.Ipfs.Slots.{FetchSlots, acquire_fetch_slot}
use myqrlwallet_backend.Ipfs.Stream.{send_stream_error, stream_gateway_response}
use myqrlwallet_backend.Ipfs.Stream.Passed.{
  content, Carries, IsBare, stream_gateway_response-Carries,
}
use myqrlwallet_backend.Ipfs.Cooldown.{cooling_down, is_server_error}
use myqrlwallet_backend.Ipfs.Handler.{
  GatewayReply, refused, served, unreachable, Attempt, Verdict, goes_on, breaks, returns,
  catch_error, is_cooling, judge, make_attempt, try_gateways, FinalTurn, report, conclude,
  ipfs_handler,
}

-- The response carries a first part of the body of the attempt's gateway, or all of it.
abbrev pub ServedBy : IpfsConfig → Response → Attempt → Type 0
ServedBy cfg res a =
    (up : UpstreamResponse) × (chunks : List Chunk) × (a.reply ≡ served up)
    × (up.body ≡ some chunks)
    × Carries cfg.max_size_bytes [] (content chunks) res

-- The response that a verdict gives, if it gives one.
abbrev pub Gives : (Response → Type 0) → Verdict → Type 0
Gives P (goes_on f) = Unit
Gives P (breaks f) = Unit
Gives P (returns res) = P res

send_stream_error-Carries :
    (limit : ℕ) (all : List ℕ) (status : ℕ) (error : String) (res : Response)
    → Carries limit [] all res
    → Carries limit [] all (send_stream_error status error res)
unfolding send_stream_error
send_stream_error-Carries limit all status error res c =
    if_either (Carries limit [] all) res.headers_sent _ _
      (λ h. record {
        part = c.part;
        left = c.left;
        carried = c.carried;
        whole = c.whole;
        small = c.small;
        complete = λ q. cc q;
      })
      (λ h. record {
        part = c.part;
        left = c.left;
        carried = c.carried;
        whole = c.whole;
        small = c.small;
        complete = λ q. cc q;
      })

send_stream_error-IsBare :
    (status : ℕ) (error : String) (res : Response)
    → IsBare res
    → IsBare (send_stream_error status error res)
unfolding send_stream_error
send_stream_error-IsBare status error res h =
    if_either IsBare res.headers_sent _ _ (λ b. (h.0, λ q. cc q)) (λ b. (h.0, λ q. cc q))

catch_error-Gives :
    (P : Response → Type 0) (reading_body : Bool) (res : Response) (t : AttemptError)
    (f : GatewayFailure)
    → P res
    → ((status : ℕ) (error : String) → P (send_stream_error status error res))
    → Gives P (catch_error reading_body res t f)
unfolding catch_error
catch_error-Gives P reading_body res t f h cut =
    if_either (Gives P) t.client_disconnected _ _ (λ b. h)
      (λ b. if_either (Gives P) res.headers_sent _ _ (λ b'. cut _ _) (λ b'. tt))

-- The end of a stream that has thrown, or not.
ended_stream-Gives :
    (P : Response → Type 0) (res : Response) (f : GatewayFailure)
    → P res
    → ((status : ℕ) (error : String) → P (send_stream_error status error res))
    → (o : Option AttemptError)
    → Gives P (elim o [ none ↦ returns res | some t ↦ catch_error true res t f ])
ended_stream-Gives P res f h cut none = h
ended_stream-Gives P res f h cut (some t) = catch_error-Gives P true res t f h cut

make_attempt-Gives :
    (cfg : IpfsConfig) (a : Attempt) (f : GatewayFailure)
    → Gives (λ res. IsBare res ⊎ ServedBy cfg res a) (make_attempt cfg a f)
unfolding make_attempt judge
make_attempt-Gives cfg a f =
    if_either (Gives P) a.client_disconnected _ _ (λ h. inl bare)
      (λ h.
        if_either (Gives P) a.out_of_time _ _ (λ h1. tt)
          (λ h1. if_either (Gives P) (is_cooling a) _ _ (λ h2. tt) (λ h2. by_reply a.reply refl)))
  where
    P : Response → Type 0
    P res = IsBare res ⊎ ServedBy cfg res a

    bare : IsBare no_response
    bare = (refl, λ q. cc q)

    by_reply : (r : GatewayReply) → a.reply ≡ r → Gives P (judge cfg r f)
    by_reply (refused status retry_after now g) q =
        if_either (Gives P) (status == 429 || is_server_error status) _ _ (λ h. tt) (λ h. tt)
    by_reply (unreachable t) q =
        catch_error-Gives P false no_response t f (inl bare)
          (λ status error. inl (send_stream_error-IsBare status error no_response bare))
    by_reply (served up) q = by_part (stream_gateway_response-Carries cfg up)
      where
        res : Response
        res = (stream_gateway_response cfg up no_response).0

        by_part :
            IsBare res
              ⊎ ((chunks : List Chunk) × (up.body ≡ some chunks)
                  × Carries cfg.max_size_bytes [] (content chunks) res)
            → Gives P (judge cfg (served up) f)
        by_part (inl none_of_it) =
            ended_stream-Gives P res f (inl none_of_it)
              (λ status error. inl (send_stream_error-IsBare status error res none_of_it))
              (stream_gateway_response cfg up no_response).1
        by_part (inr (chunks, body, c)) =
            ended_stream-Gives P res f (inr (up, chunks, q, body, c))
              (λ status error. inr (
                up,
                chunks,
                q,
                body,
                send_stream_error-Carries cfg.max_size_bytes (content chunks) status error res c,
              ))
              (stream_gateway_response cfg up no_response).1

report-IsBare : (e : FinalTurn) (f : GatewayFailure) → IsBare (report e f)
unfolding report
report-IsBare e f =
    if_either IsBare e.client_disconnected _ _ (λ h. (refl, λ q. cc q)) (λ h. (refl, λ q. cc q))

-- The handler's loop and its end.
try_gateways-ServedBy :
    (cfg : IpfsConfig) (cid : String) (attempts : List Attempt) (f : GatewayFailure) (e : FinalTurn)
    → let res = conclude e (try_gateways cfg cid attempts f).0 in
      IsBare res ⊎ Any (ServedBy cfg res) attempts
unfolding try_gateways conclude
try_gateways-ServedBy cfg cid [] f e = inl (report-IsBare e f)
try_gateways-ServedBy cfg cid (a ∷ later) f e =
    by_verdict (make_attempt cfg a f) refl (make_attempt-Gives cfg a f)
      (λ g. try_gateways-ServedBy cfg cid later g e)
  where
    res : Response
    res = conclude e (try_gateways cfg cid (a ∷ later) f).0

    Outcome : Response → Type 0
    Outcome x = IsBare x ⊎ Any (ServedBy cfg x) (a ∷ later)

    by_verdict :
        (v : Verdict)
        → make_attempt cfg a f ≡ v
        → Gives (λ x. IsBare x ⊎ ServedBy cfg x a) v
        → ((g : GatewayFailure)
            → let x = conclude e (try_gateways cfg cid later g).0 in
              IsBare x ⊎ Any (ServedBy cfg x) later)
        → IsBare res ⊎ Any (ServedBy cfg res) (a ∷ later)
    by_verdict (goes_on g) q h rest =
        let same : conclude e (try_gateways cfg cid later g).0 ≡ res = rw (q, try_gateways) refl in
        subst Outcome same (elim (rest g) [ inl b ↦ inl b | inr any ↦ inr (inr any) ])
    by_verdict (breaks g) q h rest =
        let same : report e g ≡ res = rw (q, try_gateways) refl in
        subst Outcome same (inl (report-IsBare e g))
    by_verdict (returns x) q h rest =
        let same : x ≡ res = rw (q, try_gateways) refl in
        subst Outcome same (elim h [ inl b ↦ inl b | inr one ↦ inr (inl one) ])

-- The response to a request for IPFS content carries nothing of a body, and has not ended
-- regularly; or the CID and the path are valid and its bytes are a first part of the body that one
-- of the gateways has served, within the size limit, and they are all of it if the response has
-- ended regularly.
pub ipfs_handler-ServedBy :
    (cfg : IpfsConfig) (cid rest : String) (slots : FetchSlots) (attempts : List Attempt)
    (e : FinalTurn)
    → let res = (ipfs_handler cfg cid rest slots attempts e).0 in
      IsBare res
      ⊎ ((is_valid_cid cid ≡ true) × (is_safe_path rest ≡ true) × Any (ServedBy cfg res) attempts)
unfolding ipfs_handler
ipfs_handler-ServedBy cfg cid rest slots attempts e =
    if_either P (not (is_valid_cid cid)) _ _ (λ h. inl (refl, λ q. cc q))
      (λ valid.
        if_either P (not (is_safe_path rest)) _ _ (λ h. inl (refl, λ q. cc q))
          (λ safe. elim (Option-cases (acquire_fetch_slot cfg slots)) [
            | inl q ↦ rw q (inl (refl, λ r. cc r))
            | inr (taken, q) ↦ rw q (elim (try_gateways-ServedBy cfg cid attempts cooling_down e) [
              | inl b ↦ inl b
              | inr any ↦ inr (ground (arith, valid), ground (arith, safe), any)
            ])
          ]))
  where
    P : Response × List GatewayState → Type 0
    P x =
        IsBare x.0
        ⊎ ((is_valid_cid cid ≡ true) × (is_safe_path rest ≡ true) × Any (ServedBy cfg x.0) attempts)
