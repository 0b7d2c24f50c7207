-- ===== src/BoundedJson/Whole.antt =====
-- The loop over the chunks, in terms of the bytes of the whole body.
use myqrlwallet_backend.Prelude.{
  ℕ, ◌+◌, ◌≤◌, ◌≡◌, refl, sym, ap, ◌∙◌, subst, inl, inr, String, false, Option, none, some, List,
  [], ◌∷◌, ◌++◌, ltb, length, length-append, arith, Bool-cases, Option-cases,
}
use myqrlwallet_backend.Patterns.{concat}
use myqrlwallet_backend.Patterns.Concat.{concat_assoc}
use myqrlwallet_backend.BoundedJson.{
  BodyChunk, Decoding, BodyText, stopped, too_large, complete, invalid_utf8, end_body, read_body,
}

abbrev pub after : List ℕ → Option (List ℕ) → Option (List ℕ)
after bytes none = none
after bytes (some more) = some (bytes ++ more)

-- The bytes of a body, if all its chunks are binary and its stream does not break.
unfoldable pub joined : List BodyChunk → Option (List ℕ)
joined [] = some []
joined (BodyChunk.binary bytes ∷ chunks) = after bytes (joined chunks)
joined (_ ∷ chunks) = none

abbrev pub before : String → Option String → Option String
before text none = none
before text (some rest) = some (concat text rest)

module _ {D : Type 0} (tools : Decoding D) where
  -- The text of bytes that are decoded at once.
  abbrev pub then_finish : Option (String × D) → Option String
  then_finish none = none
  then_finish (some (text, state)) = before text (tools.finish state)

  unfoldable pub decode_whole : D → List ℕ → Option String
  decode_whole state bytes = then_finish (tools.decode state bytes)

  abbrev pub extend : String → Option (String × D) → Option (String × D)
  extend text none = none
  extend text (some (more, next)) = some (concat text more, next)

  abbrev pub then_decode : List ℕ → Option (String × D) → Option (String × D)
  then_decode bytes none = none
  then_decode bytes (some (text, state)) = extend text (tools.decode state bytes)

  -- A decoder gives the same text however its input is cut.
  abbrev pub Streams : Type 0
  Streams =
      ((state : D) → tools.decode state [] ≡ some ("", state))
      × ((state : D) (a b : List ℕ)
          → tools.decode state (a ++ b) ≡ then_decode b (tools.decode state a))

  abbrev pub read_as : ℕ → String → Option String → BodyText
  read_as received body none = stopped invalid_utf8
  read_as received body (some text) = complete received (concat body text)

  read_as-before :
      (n : ℕ) (body text : String) (o : Option String)
      → read_as n (concat body text) o ≡ read_as n body (before text o)
  read_as-before n body text none = refl
  read_as-before n body text (some t) = ap (complete n) (concat_assoc body text t)

  before-before :
      (text more : String) (o : Option String)
      → before (concat text more) o ≡ before text (before more o)
  before-before text more none = refl
  before-before text more (some rest) = ap some (concat_assoc text more rest)

  then_finish-extend :
      (text : String) (o : Option (String × D))
      → then_finish (extend text o) ≡ before text (then_finish o)
  then_finish-extend text none = refl
  then_finish-extend text (some (more, next)) = before-before text more (tools.finish next)

  module _ (max_bytes : ℕ) where
    end_body-whole :
        Streams
        → (n : ℕ) (body : String) (state : D)
        → end_body tools max_bytes n body state ≡ read_as (n + 0) body (decode_whole state [])
    unfolding end_body decode_whole concat
    end_body-whole laws n body state = rw (laws.0 state) (by_rest (tools.finish state))
      where
        by_rest :
            (o : Option String)
            → (elim o [ none ↦ stopped invalid_utf8 | some rest ↦ complete n (concat body rest) ])
              ≡ read_as (n + 0) body (before "" o)
        by_rest none = refl
        by_rest (some rest) = ap (λ k. complete k (concat body rest)) (omega arith)

    -- The chunk's bytes are decoded before those that follow.
    read_body-binary :
        Streams
        → (b more : List ℕ) (chunks : List BodyChunk) (n : ℕ) (body : String) (state : D)
        → ((text : String) (next : D)
            → read_body tools max_bytes chunks (n + length b) text next
              ≡ read_as (n + length b + length more) text (decode_whole next more))
        → n + length b ≤ max_bytes
        → read_body tools max_bytes (BodyChunk.binary b ∷ chunks) n body state
          ≡ read_as (n + length b + length more) body (decode_whole state (b ++ more))
    unfolding read_body decode_whole
    read_body-binary laws b more chunks n body state ih h =
        let fits : ltb max_bytes (n + length b) ≡ false = ground (arith, h) in
        rw (fits, laws.1 state b more) (by_decode (tools.decode state b))
      where
        by_decode :
            (r : Option (String × D))
            → (elim r [
              | none ↦ stopped invalid_utf8
              | some (text, next) ↦
                  read_body tools max_bytes chunks (n + length b) (concat body text) next
            ])
              ≡ read_as (n + length b + length more) body (then_finish (then_decode more r))
        by_decode none = refl
        by_decode (some (text, next)) =
            ih (concat body text) next
            ∙ read_as-before _ body text _
            ∙ ap (read_as (n + length b + length more) body)
                (sym (then_finish-extend text (tools.decode next more)))

    abbrev pub ReadsAs : List BodyChunk → List ℕ → ℕ → Type 0
    ReadsAs chunks bytes n =
        (body : String) (state : D)
        → read_body tools max_bytes chunks n body state
          ≡ read_as (n + length bytes) body (decode_whole state bytes)

    pub read_body-joined :
        Streams
        → (chunks : List BodyChunk) (bytes : List ℕ) (n : ℕ) → joined chunks ≡ some bytes
        → n + length bytes ≤ max_bytes
        → ReadsAs chunks bytes n
    unfolding read_body joined
    read_body-joined laws [] bytes n e h =
        let same : [] ≡ bytes = cc in subst (λ x. ReadsAs [] x n) same (end_body-whole laws n)
    read_body-joined laws (BodyChunk.broken ∷ chunks) bytes n e h = cc
    read_body-joined laws (BodyChunk.no_binary ∷ chunks) bytes n e h = cc
    read_body-joined laws (BodyChunk.binary b ∷ chunks) bytes n e h =
        elim (Option-cases (joined chunks)) [
          | inl gone ↦ let no : after b none ≡ some bytes = rw gone at e in cc
          | inr (more, q) ↦
              let all : some (b ++ more) ≡ some bytes = rw q at e in
              let same : b ++ more ≡ bytes = cc in
              let fits : n + length b + length more ≤ max_bytes =
                omega (arith, h, length-append b more, ap length same) in
              let sized : n + length b + length more ≡ n + length (b ++ more) =
                omega (arith, length-append b more) in
              subst (λ x. ReadsAs (BodyChunk.binary b ∷ chunks) x n) same
                (λ body state.
                  read_body-binary laws b more chunks n body state
                    (read_body-joined laws chunks more (n + length b) q fits) (omega (arith, fits))
                  ∙ ap (λ k. read_as k body (decode_whole state (b ++ more))) sized)
        ]

    pub read_body-complete :
        (chunks : List BodyChunk) (n m : ℕ) (body text : String) (state : D)
        → n ≤ max_bytes
        → read_body tools max_bytes chunks n body state ≡ complete m text
        → (bytes : List ℕ) × (joined chunks ≡ some bytes) × (m ≡ n + length bytes) × (m ≤ max_bytes)
    unfolding read_body joined end_body
    read_body-complete [] n m body text state h e =
        let size : m ≡ n = by_end (tools.finish state) e in
        ([], refl, size ∙ omega arith, omega (arith, size, h))
      where
        by_end :
            (o : Option String)
            → (elim o [ none ↦ stopped invalid_utf8 | some rest ↦ complete n (concat body rest) ])
              ≡ complete m text
            → m ≡ n
        by_end none e = cc
        by_end (some rest) e = cc
    read_body-complete (BodyChunk.broken ∷ chunks) n m body text state h e = cc
    read_body-complete (BodyChunk.no_binary ∷ chunks) n m body text state h e = cc
    read_body-complete (BodyChunk.binary b ∷ chunks) n m body text state h e =
        elim (Bool-cases (ltb max_bytes (n + length b))) [
          | inl over ↦
              let no : stopped too_large ≡ complete m text = rw (over, read_body) at e in cc
          | inr fits ↦
              by_decode
                (λ t next.
                  read_body-complete chunks (n + length b) m t text next (ground (arith, fits)))
                (tools.decode state b) (rw (fits, read_body) at e)
        ]
      where
        by_decode :
            ((t : String) (next : D)
              → read_body tools max_bytes chunks (n + length b) t next ≡ complete m text
              → (more : List ℕ) × (joined chunks ≡ some more)
                × (m ≡ n + length b + length more)
                × (m ≤ max_bytes))
            → (r : Option (String × D))
            → (elim r [
              | none ↦ stopped invalid_utf8
              | some (t, next) ↦
                  read_body tools max_bytes chunks (n + length b) (concat body t) next
            ])
              ≡ complete m text
            → (bytes : List ℕ) × (after b (joined chunks) ≡ some bytes)
              × (m ≡ n + length bytes)
              × (m ≤ max_bytes)
        by_decode ih none q = cc
        by_decode ih (some (t, next)) q =
            let (more, found, size, small) = ih (concat body t) next q in
            (b ++ more, ap (after b) found, omega (arith, size, length-append b more), small)
