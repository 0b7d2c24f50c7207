-- ===== src/Rpc/Execute/Keys/Dashes.antt =====
-- Texts without a dash: what stands before a first dash, and the pins of an identity.
use Prim.Native.Char.{Char, code}
use myqrlwallet_backend.Prelude.{
  ℕ, zero, suc, ◌/◌, ◌%◌, ◌<◌, ◌≡◌, refl, sym, ap, ◌∙◌, inl, inr, String, Bool, true, not, ◌&&◌,
  ◌||◌, none, some, ltb, leb, ◌==◌, arith, Bool-cases, ==_iff, ◌-◌, if_either,
}
use myqrlwallet_backend.Patterns.{concat, every, is_hex, strip, lower_text, lower_char, char_at}
use myqrlwallet_backend.Hex.{hex_digit, hex_from}
use myqrlwallet_backend.Hex.Roundtrip.{all_below, all_below-holds}

abbrev pub not_dash : ℕ → Bool
not_dash c = not (c == b'-')

-- A text has no dash.
abbrev pub NoDash : String → Type 0
NoDash s = every not_dash s ≡ true

cons-injective : (c d : Char) (s t : String) → String.◌∷◌ c s ≡ String.◌∷◌ d t → (c ≡ d) × (s ≡ t)
cons-injective c d s t e = (cc, cc)

pub every_cons :
    (q : ℕ → Bool) (c : Char) (s : String)
    → every q (String.◌∷◌ c s) ≡ true
    → (q (code c) ≡ true) × (every q s ≡ true)
unfolding every
every_cons q c s h = (ground (arith, h), ground (arith, h))

no_dash : (d : Char) (b s t : String) → NoDash (String.◌∷◌ d b) → concat "-" s ≡ String.◌∷◌ d t → ⊥
unfolding concat
no_dash d b s t h e =
    let same : b'-' ≡ code d = ap code (cons-injective _ _ _ _ e).0 in
    ground (arith, same, (every_cons not_dash d b h).0)

-- What stands before the first dash, and what after it.
pub concat-injective :
    (a b s t : String)
    → NoDash a
    → NoDash b
    → concat a (concat "-" s) ≡ concat b (concat "-" t)
    → (a ≡ b) × (s ≡ t)
unfolding concat
concat-injective String.[] String.[] s t ha hb e = (refl, (cons-injective _ _ s t e).1)
concat-injective String.[] (String.◌∷◌ d b) s t ha hb e = absurd (no_dash d b s _ hb e)
concat-injective (String.◌∷◌ c a) String.[] s t ha hb e = absurd (no_dash c a t _ ha (sym e))
concat-injective (String.◌∷◌ c a) (String.◌∷◌ d b) s t ha hb e =
    let (head, rest) = cons-injective c d _ _ e in
    let (same, after) =
      concat-injective a b s t (every_cons not_dash c a ha).1 (every_cons not_dash d b hb).1 rest in
    (cc, after)

hex_digit_plain : (n : ℕ) → n < 16 → not_dash (code (hex_digit n)) ≡ true
unfolding char_at all_below
hex_digit_plain n h = all_below-holds (λ k. not_dash (code (hex_digit k))) 16 n refl h

pub hex_from-NoDash : (fuel n : ℕ) (acc : String) → NoDash acc → NoDash (hex_from fuel n acc)
unfolding hex_from every
hex_from-NoDash zero n acc h = h
hex_from-NoDash (suc fuel) n acc h =
    if_either NoDash (ltb n 16) _ _
      (λ small. ground (arith, h, hex_digit_plain n (ground (arith, small))))
      (λ _.
        hex_from-NoDash fuel (n / 16) _ (ground (arith, h, hex_digit_plain (n % 16) (omega arith))))

-- The characters of a hex text with its prefix.
abbrev pub is_hex_or_x : ℕ → Bool
is_hex_or_x c = is_hex c || c == b'x'

lower_char_plain : (c : Char) → is_hex_or_x (code c) ≡ true → not_dash (code (lower_char c)) ≡ true
unfolding char_at all_below
lower_char_plain c h = elim (Bool-cases (leb b'A' (code c) && leb (code c) b'Z')) [
  | inl upper ↦ rw upper (
      all_below-holds (λ k. not_dash (code (char_at k "abcdefghijklmnopqrstuvwxyz" c))) 26
        (code c - b'A') refl (ground (arith, upper)))
  | inr plain ↦ rw plain (ground (arith, h))
]

pub lower_text-NoDash : (s : String) → every is_hex_or_x s ≡ true → NoDash (lower_text s)
unfolding lower_text every
lower_text-NoDash String.[] h = refl
lower_text-NoDash (String.◌∷◌ c s) h = ground (arith, h, lower_char_plain c, lower_text-NoDash s)

pub strip-every :
    (q : ℕ → Bool) (p s rest : String)
    → strip p s ≡ some rest
    → every q p ≡ true
    → every q rest ≡ true
    → every q s ≡ true
unfolding strip every
strip-every q String.[] s rest e hp hr = let same : s ≡ rest = cc in ap (every q) same ∙ hr
strip-every q (String.◌∷◌ c p) String.[] rest e hp hr = cc
strip-every q (String.◌∷◌ c p) (String.◌∷◌ d s) rest e hp hr =
    elim (Bool-cases (code c == code d)) [
      | inl same ↦
          let left : strip p s ≡ some rest = rw (same, strip) at e in
          let tail = strip-every q p s rest left (ground (arith, hp)) hr in
          let head : q (code d) ≡ true =
            ap q (sym ((==_iff (code c) (code d)).0 same)) ∙ ground (arith, hp) in
          ground (arith, head, tail)
      | inr differ ↦ let wrong : none ≡ some rest = rw (differ, strip) at e in cc
    ]

pub every_weaker :
    (q r : ℕ → Bool)
    → ((c : ℕ) → q c ≡ true → r c ≡ true)
    → (s : String) → every q s ≡ true
    → every r s ≡ true
unfolding every
every_weaker q r weaker String.[] h = refl
every_weaker q r weaker (String.◌∷◌ c s) h =
    ground (arith, h, weaker (code c), every_weaker q r weaker s)
