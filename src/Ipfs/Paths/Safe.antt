-- ===== src/Ipfs/Paths/Safe.antt =====
-- ipfs.routes.ts: what a request can make the proxy ask a gateway for.
use Prim.Native.Char.{Char, code}
use myqrlwallet_backend.Prelude.{
  ℕ, ◌≡◌, refl, String, Bool, true, false, ◌&&◌, ◌||◌, some, List, [], ◌∷◌, leb, ◌==◌, str_eq,
  arith, ap, inl, inr, eq_iff, Bool-cases, Option-cases,
}
use myqrlwallet_backend.Patterns.{is_digit, every, strip, is_exactly, concat, split, has_double}
use myqrlwallet_backend.Ipfs.Paths.{
  is_base58, is_base32, is_valid_cid, is_segment_char, all_segments, is_safe_path, gateway_path,
}

-- A letter or a digit.
abbrev pub is_alphanumeric : ℕ → Bool
is_alphanumeric c = leb b'A' c && leb c b'Z' || leb b'a' c && leb c b'z' || is_digit c

-- A character of a path below a gateway's URL.
abbrev pub is_path_char : ℕ → Bool
is_path_char c = is_segment_char c || c == b'/'

every-implies :
    (p q : ℕ → Bool)
    → ((c : ℕ) → p c ≡ true → q c ≡ true)
    → (s : String) → every p s ≡ true
    → every q s ≡ true
unfolding every
every-implies p q h String.[] e = refl
every-implies p q h (String.◌∷◌ c s) e = ground (arith, h (code c), every-implies p q h s, e)

every-concat :
    (p : ℕ → Bool) (s t : String)
    → every p s ≡ true
    → every p t ≡ true
    → every p (concat s t) ≡ true
unfolding every concat
every-concat p String.[] t e f = f
every-concat p (String.◌∷◌ c s) t e f = ground (arith, every-concat p s t, e, f)

every-strip :
    (p : ℕ → Bool) (s t rest : String)
    → strip s t ≡ some rest
    → every p s ≡ true
    → every p rest ≡ true
    → every p t ≡ true
unfolding every strip
every-strip p String.[] t rest q e f = ground (arith, q, f)
every-strip p (String.◌∷◌ c s) String.[] rest q e f = ground (arith, q)
every-strip p (String.◌∷◌ c s) (String.◌∷◌ d t) rest q e f =
    ground (arith, every-strip p s t rest, q, e, f)

-- A valid CID is letters and digits.
cid-every : (cid : String) → is_valid_cid cid ≡ true → every is_alphanumeric cid ≡ true
unfolding is_valid_cid every
cid-every cid h = elim (Bool-cases (is_exactly "Qm" is_base58 44 cid)) [
  | inl v0 ↦ elim (Option-cases (strip "Qm" cid)) [
    | inl q ↦ ground (arith, v0, q)
    | inr (rest, q) ↦ every-strip is_alphanumeric "Qm" cid rest q refl (
        every-implies is_base58 is_alphanumeric (λ c e. ground (arith, e)) rest
          (ground (arith, v0, q)))
  ]
  | inr no_v0 ↦ elim (Option-cases (strip "b" cid)) [
    | inl q ↦ ground (arith, h, no_v0, q)
    | inr (rest, q) ↦ every-strip is_alphanumeric "b" cid rest q refl (
        every-implies is_base32 is_alphanumeric (λ c e. ground (arith, e)) rest
          (ground (arith, h, no_v0, q)))
  ]
]

split-cases : (sep : ℕ) (s : String) → (p : String) × (ps : List String) × (split sep s ≡ p ∷ ps)
unfolding split
split-cases sep String.[] = ("", [], refl)
split-cases sep (String.◌∷◌ c s) =
    let (p, ps, q) = split-cases sep s in
    elim (Bool-cases (code c == sep)) [
      | inl hit ↦ ("", split sep s, ground (arith, hit))
      | inr miss ↦ (String.◌∷◌ c p, ps, ground (arith, miss, q))
    ]

str_eq-nonempty : (c : Char) (s : String) → str_eq (String.◌∷◌ c s) "" ≡ false
str_eq-nonempty c s = elim (Bool-cases (str_eq (String.◌∷◌ c s) "")) [
  | inl e ↦ cc ((eq_iff (String.◌∷◌ c s) "").0 e)
  | inr e ↦ e
]

-- If all pieces consist of segment characters, so does the whole, but for the slashes.
all_segments-every : (s : String) → all_segments (split b'/' s) ≡ true → every is_path_char s ≡ true
unfolding all_segments split every
all_segments-every String.[] h = refl
all_segments-every (String.◌∷◌ c s) h =
    let later = all_segments-every s in
    let (p, ps, q) = split-cases b'/' s in
    elim (Bool-cases (code c == b'/')) [
      | inl hit ↦ ground (arith, hit, h, later)
      | inr miss ↦
          let filled = str_eq-nonempty c p in
          let pieces = ap all_segments q in ground (arith, miss, q, h, later, filled, pieces)
    ]

alphanumeric_path : (c : ℕ) → is_alphanumeric c ≡ true → is_path_char c ≡ true
unfolding is_segment_char
alphanumeric_path c h = ground (arith, h)

has_double-skip :
    (x : ℕ) (c : Char) (s : String)
    → (code c == x) ≡ false
    → has_double x s ≡ false
    → has_double x (String.◌∷◌ c s) ≡ false
unfolding has_double
has_double-skip x c String.[] ne h = refl
has_double-skip x c (String.◌∷◌ d s) ne h = ground (arith, ne, h)

not_a_dot : (c : ℕ) → is_alphanumeric c ≡ true → (c == b'.') ≡ false
not_a_dot c h = ground (arith, h)

has_double-concat :
    (s t : String)
    → every is_alphanumeric s ≡ true
    → has_double b'.' t ≡ false
    → has_double b'.' (concat s t) ≡ false
unfolding every concat
has_double-concat String.[] t e h = h
has_double-concat (String.◌∷◌ c s) t e h =
    let (first, others) = both (is_alphanumeric (code c)) (every is_alphanumeric s) e in
    has_double-skip b'.' c (concat s t) (not_a_dot (code c) first) (has_double-concat s t others h)
  where
    both : (a b : Bool) → (a && b) ≡ true → (a ≡ true) × (b ≡ true)
    both a b q = ground (arith, q)

below_slash : (s : String) → has_double b'.' s ≡ false → has_double b'.' (concat "/" s) ≡ false
unfolding has_double concat
below_slash String.[] h = refl
below_slash (String.◌∷◌ c s) h = h

-- What the proxy asks a gateway for with a valid CID and a safe path consists of letters, digits,
-- dots, underscores, dashes and slashes, and has no two dots in a row.
pub gateway_path-safe :
    (cid rest : String)
    → is_valid_cid cid ≡ true
    → is_safe_path rest ≡ true
    → (every is_path_char (gateway_path cid rest) ≡ true)
      × (has_double b'.' (gateway_path cid rest) ≡ false)
unfolding gateway_path is_safe_path every concat has_double is_segment_char
gateway_path-safe cid rest valid safe =
    let letters = cid-every cid valid in
    let path = every-implies is_alphanumeric is_path_char alphanumeric_path cid letters in
    elim (Bool-cases (str_eq rest "")) [
      | inl bare ↦
          rw (bare, gateway_path)
            (every-concat is_path_char cid "" path refl, has_double-concat cid "" letters refl)
      | inr below ↦
          let (dots, pieces) = conditions below in
          rw (below, gateway_path)
            (
              every-concat is_path_char cid (concat "/" rest) path
                  (every-concat is_path_char "/" rest refl (all_segments-every rest pieces)),
              has_double-concat cid (concat "/" rest) letters (below_slash rest dots),
            )
    ]
  where
    conditions :
        str_eq rest "" ≡ false
        → (has_double b'.' rest ≡ false) × (all_segments (split b'/' rest) ≡ true)
    conditions below = ground (arith, below, safe)
