-- ===== src/Ipfs/Handler/Unavailable.antt =====
-- ipfs.routes.ts: when a request is answered with 503.
use myqrlwallet_backend.Prelude.{
  ◌≡◌, ◌⊎◌, ◌↔◌, refl, sym, ap, ◌∙◌, subst, inl, inr, String, true, false, some, List, [], ◌∷◌, All,
  arith, if_either,
}
use myqrlwallet_backend.Ipfs.Types.{
  IpfsConfig, GatewayFailure, error_json, Response, no_response, send_json,
}
use myqrlwallet_backend.Ipfs.Cooldown.{cooling_down}
use myqrlwallet_backend.Ipfs.Handler.{
  Attempt, Verdict, goes_on, breaks, returns, is_cooling, make_attempt, try_gateways, FinalTurn,
  retry_seconds, report, conclude,
}
use myqrlwallet_backend.Ipfs.Handler.Failures.{is_503, is_unavailable, Fine, Started, judge-Fine}

-- The loop passes over a gateway that is cooling down.
abbrev pub Skipped : Attempt → Type 0
Skipped a = (a.client_disconnected ≡ false) × (a.out_of_time ≡ false) × (is_cooling a ≡ true)

make_attempt-cases :
    (cfg : IpfsConfig) (a : Attempt) (f : GatewayFailure)
    → Started f
    → (Skipped a × (make_attempt cfg a f ≡ goes_on f)) ⊎ Fine (make_attempt cfg a f)
unfolding make_attempt
make_attempt-cases cfg a f start =
    let Q = λ (v : Verdict). (Skipped a × (v ≡ goes_on f)) ⊎ Fine v in
    if_either Q a.client_disconnected _ _ (λ _. inr refl)
      (λ here.
        if_either Q a.out_of_time _ _ (λ _. inr refl)
          (λ timely.
            if_either Q (is_cooling a) _ _ (λ cool. inl ((here, timely, cool), refl))
              (λ _. inr (judge-Fine cfg a.reply f start))))

report-available :
    (e : FinalTurn) (f : GatewayFailure) → is_503 f ≡ false → is_unavailable (report e f) ≡ false
unfolding report
report-available e f h =
    if_either (λ r. is_unavailable r ≡ false) e.client_disconnected _ _ (λ _. refl)
      (λ _. if_either (λ x. is_503 x ≡ false) e.out_of_time _ _ (λ _. refl) (λ _. h))

-- At its end the handler is in time and the client is there.
abbrev pub InTime : FinalTurn → Type 0
InTime e = (e.client_disconnected ≡ false) × (e.out_of_time ≡ false)

module _ (cfg : IpfsConfig) (cid : String) (e : FinalTurn) where
  -- The handler's response from a turn of the loop on.
  abbrev pub loop_response : List Attempt → GatewayFailure → Response
  loop_response attempts f = conclude e (try_gateways cfg cid attempts f).0

  after_attempt :
      (a : Attempt) (later : List Attempt) (f : GatewayFailure)
      → ((g : GatewayFailure) → is_503 g ≡ false → is_unavailable (loop_response later g) ≡ false)
      → (v : Verdict) → make_attempt cfg a f ≡ v
      → Fine v
      → is_unavailable (loop_response (a ∷ later) f) ≡ false
  unfolding try_gateways conclude
  after_attempt a later f rest (goes_on g) q h = rw (q, try_gateways) (rest g h)
  after_attempt a later f rest (breaks g) q h = rw (q, try_gateways) (report-available e g h)
  after_attempt a later f rest (returns res) q h = rw (q, try_gateways) h

  loop_response-available :
      (attempts : List Attempt) (f : GatewayFailure)
      → is_503 f ≡ false
      → is_unavailable (loop_response attempts f) ≡ false
  unfolding try_gateways conclude
  loop_response-available [] f h = report-available e f h
  loop_response-available (a ∷ later) f h =
      after_attempt a later f (λ g. loop_response-available later g) (make_attempt cfg a f) refl
        (elim (make_attempt-cases cfg a f (inr h)) [
          | inl (skipped, q) ↦ subst Fine (sym q) h
          | inr fine ↦ fine
        ])

  skips_on :
      (a : Attempt) (later : List Attempt) (f : GatewayFailure)
      → make_attempt cfg a f ≡ goes_on f
      → loop_response (a ∷ later) f ≡ loop_response later f
  unfolding try_gateways
  skips_on a later f q = rw (q, try_gateways) refl

  loop_response-Skipped :
      (attempts : List Attempt)
      → is_unavailable (loop_response attempts cooling_down) ≡ true
      → All Skipped attempts
  loop_response-Skipped [] h = tt
  loop_response-Skipped (a ∷ later) h = elim (make_attempt-cases cfg a cooling_down (inl refl)) [
    | inl (skipped, q) ↦ (
      skipped,
      loop_response-Skipped later (ap is_unavailable (sym (skips_on a later cooling_down q)) ∙ h),
    )
    | inr fine ↦ ground (
      arith,
      h,
      after_attempt a later cooling_down (λ g. loop_response-available later g)
          (make_attempt cfg a cooling_down) refl fine,
    )
  ]

  loop_passes_on :
      (attempts : List Attempt)
      → All Skipped attempts
      → loop_response attempts cooling_down ≡ report e cooling_down
  unfolding try_gateways conclude make_attempt
  loop_passes_on [] h = refl
  loop_passes_on (a ∷ later) h =
      let (here, timely, cool) = h.0 in
      let q : make_attempt cfg a cooling_down ≡ goes_on cooling_down =
        rw (here, timely, cool, make_attempt) refl in
      skips_on a later cooling_down q ∙ loop_passes_on later h.1

  report-InTime : is_unavailable (report e cooling_down) ≡ true → InTime e
  unfolding report
  report-InTime h = ground (arith, h)

  report-cooling :
      InTime e
      → report e cooling_down
        ≡ send_json (error_json cooling_down (some (retry_seconds e))) no_response
  unfolding report
  report-cooling (client, timely) = rw (client, timely, report) refl

  -- The gateways' loop is answered with 503 exactly when every gateway was cooling down as the loop
  -- came to it, in time and with the client still there; and then the answer tells the seconds until
  -- the first of them is available again, which are at least one.
  pub loop_unavailable_iff :
      (attempts : List Attempt)
      → ((is_unavailable (loop_response attempts cooling_down) ≡ true)
          ↔ (All Skipped attempts × InTime e))
        × (All Skipped attempts × InTime e
            → loop_response attempts cooling_down
              ≡ send_json (error_json cooling_down (some (retry_seconds e))) no_response)
  loop_unavailable_iff attempts = ((there, λ h. ap is_unavailable (back h)), back)
    where
      there :
          is_unavailable (loop_response attempts cooling_down) ≡ true
          → All Skipped attempts × InTime e
      there h =
          let skipped = loop_response-Skipped attempts h in
          (skipped, report-InTime (ap is_unavailable (sym (loop_passes_on attempts skipped)) ∙ h))

      back :
          All Skipped attempts × InTime e
          → loop_response attempts cooling_down
            ≡ send_json (error_json cooling_down (some (retry_seconds e))) no_response
      back (skipped, in_time) = loop_passes_on attempts skipped ∙ report-cooling in_time
