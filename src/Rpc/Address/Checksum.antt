-- ===== src/Rpc/Address/Checksum.antt =====
-- src/crypto/qip55-checksum.ts: what the case of an address says of the digest.
use myqrlwallet_backend.Prelude.{
  ℕ, suc, ◌+◌, ◌-◌, ◌*◌, ◌/◌, ◌%◌, ◌<◌, ◌≡◌, ◌↔◌, ◌⊎◌, refl, sym, ap, ◌∙◌, subst, inl, inr, Bool,
  true, false, ◌&&◌, ◌||◌, List, [], ◌∷◌, map, leb, if◌then◌else◌, All, arith,
}
use myqrlwallet_backend.Patterns.{is_hex, lower}
use myqrlwallet_backend.Rpc.Address.{
  same_codes, upper, byte_at, nibble_at, cased, cased_from, checksummed_body, has_valid_case,
}

-- A byte of the digest in its two halves, with the two characters that it stands for.
pub record Octet : Type 0 where
  pub high : ℕ
  pub low : ℕ
  pub first : ℕ
  pub second : ℕ

-- A lower-case hex digit.
abbrev pub IsLowerHex : ℕ → Type 0
IsLowerHex c = (is_hex c ≡ true) × (lower c ≡ c)

abbrev pub IsOctet : Octet → Type 0
IsOctet o = (o.high < 16) × (o.low < 16) × IsLowerHex o.first × IsLowerHex o.second

abbrev pub byte : Octet → ℕ
byte o = 16 * o.high + o.low

unfoldable pub body : List Octet → List ℕ
body [] = []
body (o ∷ os) = o.first ∷ o.second ∷ body os

-- A letter is a capital exactly where the half byte is 8 or more.
abbrev pub mark : ℕ → ℕ → ℕ
mark half c = if leb b'a' c && leb 8 half then c - 32 else c

unfoldable pub marked : List Octet → List ℕ
marked [] = []
marked (o ∷ os) = mark o.high o.first ∷ mark o.low o.second ∷ marked os

cased-mark : (half c : ℕ) → IsLowerHex c → cased half c ≡ mark half c
unfolding cased
cased-mark half c h = ground (arith, h.0, h.1)

byte_at-suc : (i b : ℕ) (bs : List ℕ) → byte_at (suc i) (b ∷ bs) ≡ byte_at i bs
unfolding byte_at
byte_at-suc i b bs = ground arith

nibble_at-suc : (i b : ℕ) (bs : List ℕ) → nibble_at (suc (suc i)) (b ∷ bs) ≡ nibble_at i bs
unfolding nibble_at
nibble_at-suc i b bs =
    let half : suc (suc i) / 2 ≡ suc (i / 2) = omega arith in
    let parity : suc (suc i) % 2 ≡ i % 2 = omega arith in
    rw (half, parity, byte_at-suc (i / 2) b bs) refl

cased_from-suc :
    (i b : ℕ) (bs cs : List ℕ) → cased_from (b ∷ bs) (suc (suc i)) cs ≡ cased_from bs i cs
unfolding cased_from
cased_from-suc i b bs [] = refl
cased_from-suc i b bs (c ∷ cs) = rw (nibble_at-suc i b bs, cased_from-suc (suc i) b bs cs) refl

nibble_at-octet :
    (o : Octet) (bs : List ℕ)
    → o.high < 16
    → o.low < 16
    → (nibble_at 0 (byte o ∷ bs) ≡ o.high) × (nibble_at 1 (byte o ∷ bs) ≡ o.low)
unfolding nibble_at byte_at
nibble_at-octet o bs h l = (omega (arith, h, l), omega (arith, h, l))

cased_from-marked :
    (os : List Octet) → All IsOctet os → cased_from (map byte os) 0 (body os) ≡ marked os
unfolding cased_from body marked
cased_from-marked [] h = refl
cased_from-marked (o ∷ os) h =
    let (high, low, first, second) = h.0 in
    let (n, k) = nibble_at-octet o (map byte os) high low in
    rw
      (
        n,
        k,
        cased-mark o.high o.first first,
        cased-mark o.low o.second second,
        cased_from-suc 0 (byte o) (map byte os) (body os),
        cased_from-marked os h.1,
      )
      refl

same_codes_sound : (xs ys : List ℕ) → same_codes xs ys ≡ true → xs ≡ ys
unfolding same_codes
same_codes_sound [] [] h = refl
same_codes_sound [] (y ∷ ys) h = ground (arith, h)
same_codes_sound (x ∷ xs) [] h = ground (arith, h)
same_codes_sound (x ∷ xs) (y ∷ ys) h = ground (arith, h, same_codes_sound xs ys)

same_codes_self : (cs : List ℕ) → same_codes cs cs ≡ true
unfolding same_codes
same_codes_self [] = refl
same_codes_self (c ∷ cs) = ground (arith, same_codes_self cs)

same_codes_iff : (xs ys : List ℕ) → same_codes xs ys ≡ true ↔ xs ≡ ys
same_codes_iff xs ys =
    (same_codes_sound xs ys, λ e. subst (λ z. same_codes xs z ≡ true) e (same_codes_self xs))

upper-lower : (c : ℕ) → upper (lower c) ≡ upper c
upper-lower c = ground arith

map-upper-lower : (cs : List ℕ) → map upper (map lower cs) ≡ map upper cs
map-upper-lower [] = refl
map-upper-lower (c ∷ cs) = rw (upper-lower c, map-upper-lower cs) refl

any_of_three :
    {A B C : Type 0} {a b c : Bool}
    → a ≡ true ↔ A
    → b ≡ true ↔ B
    → c ≡ true ↔ C
    → (a || b || c) ≡ true ↔ A ⊎ B ⊎ C
any_of_three {a = true} x y z = (λ _. inl (x.0 refl), λ _. refl)
any_of_three {a = false} {b = true} x y z = (λ _. inr (inl (y.0 refl)), λ _. refl)
any_of_three {a = false} {b = false} x y z = (
  λ e. inr (inr (z.0 e)),
  λ p. elim p [
    | inl p ↦ ground (arith, x.1 p)
    | inr p ↦ elim p [ inl q ↦ ground (arith, y.1 q) | inr q ↦ z.1 q ]
  ],
)

-- For a lower-case hex body and the bytes of its digest: the checksummed form has a capital for
-- exactly the letters whose half byte is 8 or more, the high half of a byte before the low half. A
-- text with these digits is accepted if and only if it is all lower case, all upper case, or that
-- form.
pub has_valid_case_iff :
    (shake256 : List ℕ → List ℕ) (os : List Octet) (text : List ℕ)
    → All IsOctet os
    → shake256 (body os) ≡ map byte os
    → map lower text ≡ body os
    → (checksummed_body shake256 (body os) ≡ marked os)
      × (has_valid_case shake256 text ≡ true
          ↔ (text ≡ body os) ⊎ (text ≡ map upper (body os)) ⊎ (text ≡ marked os))
unfolding has_valid_case checksummed_body
has_valid_case_iff shake256 os text h digest same =
    let form : cased_from (shake256 (body os)) 0 (body os) ≡ marked os =
      rw digest (cased_from-marked os h) in
    let upper_form : map upper text ≡ map upper (body os) =
      sym (map-upper-lower text) ∙ ap (map upper) same in
    let lows = same_codes_iff text (body os) in
    let ups = same_codes_iff text (map upper (body os)) in
    let marks = same_codes_iff text (marked os) in
    (form, rw (same, upper_form, form) (any_of_three lows ups marks))
