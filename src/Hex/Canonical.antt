-- ===== src/Hex/Canonical.antt =====
-- A hex text without leading zeros is, but for its case, the one that is written for its number.
use Prim.Native.Char.{Char, code}
use myqrlwallet_backend.Prelude.{
  ℕ, zero, suc, ◌+◌, ◌*◌, ◌/◌, ◌%◌, ◌<◌, ◌≡◌, ◌↔◌, ◌&&◌, ◌||◌, not, ==_iff, refl, ap, sym, ◌∙◌,
  subst, inl, inr, String, Bool, true, false, ltb, ◌==◌, arith, Bool-cases,
}
use myqrlwallet_backend.Patterns.{
  hex_value, is_hex, is_positive_hex, lower, lower_eq, read_hex, every, concat, char_at,
}
use myqrlwallet_backend.Patterns.Concat.{concat_nil}
use myqrlwallet_backend.Hex.{hex_digit, hex_from, to_hex}
use myqrlwallet_backend.Hex.Roundtrip.{all_below, all_below-holds, read_hex-to_hex}

-- More fuel than the number changes nothing.
hex_from_fuel : (f g n : ℕ) (acc : String) → n < f → n < g → hex_from f n acc ≡ hex_from g n acc
unfolding hex_from
hex_from_fuel zero g n acc hf hg = elim hf [ ]
hex_from_fuel (suc f) zero n acc hf hg = elim hg [ ]
hex_from_fuel (suc f) (suc g) n acc hf hg = elim (Bool-cases (ltb n 16)) [
  | inl small ↦ rw small refl
  | inr large ↦
      rw large
        (hex_from_fuel f g (n / 16) _ (ground (arith, large, hf)) (ground (arith, large, hg)))
]

hex_from_large :
    (f n : ℕ) (acc : String)
    → ltb n 16 ≡ false
    → hex_from (suc f) n acc ≡ hex_from f (n / 16) (String.◌∷◌ (hex_digit (n % 16)) acc)
unfolding hex_from
hex_from_large f n acc large = rw large refl

abbrev hex_before : ℕ → String → String
hex_before n acc = hex_from (suc n) n acc

-- One more digit.
hex_before_step :
    (n v : ℕ) (acc : String)
    → 0 < n
    → v < 16
    → hex_before (n * 16 + v) acc ≡ hex_before n (String.◌∷◌ (hex_digit v) acc)
hex_before_step n v acc pos small =
    let quotient : (n * 16 + v) / 16 ≡ n = omega (arith, small) in
    let rest : (n * 16 + v) % 16 ≡ v = omega (arith, small) in
    hex_from_large (n * 16 + v) (n * 16 + v) acc (ground (arith, pos))
    ∙ ap (λ k. hex_from (n * 16 + v) k (String.◌∷◌ (hex_digit ((n * 16 + v) % 16)) acc)) quotient
    ∙ ap (λ k. hex_from (n * 16 + v) n (String.◌∷◌ (hex_digit k) acc)) rest
    ∙ hex_from_fuel (n * 16 + v) (suc n) n _ (omega (arith, pos)) (omega arith)

hex_value_small : (k : ℕ) → is_hex k ≡ true → hex_value k < 16
hex_value_small k h = ground (arith, h)

abbrev is_same_digit : ℕ → Bool
is_same_digit k = not (is_hex k) || lower k == code (hex_digit (hex_value k))

same_digits : all_below is_same_digit 103 ≡ true
unfolding all_below char_at
same_digits = refl

implied : (a b : Bool) → (not a || b) ≡ true → a ≡ true → b ≡ true
implied a b h k = ground (arith, h, k)

-- A hex digit is written for its value, in lower case.
same_digit : (k : ℕ) → is_hex k ≡ true → (lower k == code (hex_digit (hex_value k))) ≡ true
same_digit k h = implied _ _ (all_below-holds is_same_digit 103 k same_digits (ground (arith, h))) h

-- A number is written as a text, whatever follows.
Writes : ℕ → (String → String) → Type 0
Writes n w = (v acc : String) → lower_eq v acc ≡ true → lower_eq (w v) (hex_before n acc) ≡ true

digit-Writes : (c : Char) → is_hex (code c) ≡ true → Writes (hex_value (code c)) (String.◌∷◌ c)
unfolding Writes lower_eq hex_from
digit-Writes c h v acc e =
    let small : ltb (hex_value (code c)) 16 ≡ true = ground (arith, hex_value_small (code c) h) in
    rw small (both _ _ (same_digit (code c) h) e)
  where
    both : (a b : Bool) → a ≡ true → b ≡ true → a && b ≡ true
    both a b x y = ground (arith, x, y)

step-Writes :
    (n : ℕ) (w : String → String) (c : Char)
    → 0 < n
    → is_hex (code c) ≡ true
    → Writes n w
    → Writes (n * 16 + hex_value (code c)) (λ v. w (String.◌∷◌ c v))
unfolding Writes lower_eq
step-Writes n w c pos h k v acc e =
    subst (λ x. lower_eq (w (String.◌∷◌ c v)) x ≡ true)
      (sym (hex_before_step n (hex_value (code c)) acc pos (hex_value_small (code c) h)))
      (k _ _ (both _ _ (same_digit (code c) h) e))
  where
    both : (a b : Bool) → a ≡ true → b ≡ true → a && b ≡ true
    both a b x y = ground (arith, x, y)

read_hex-Writes :
    (s : String) (n : ℕ) (w : String → String)
    → 0 < n
    → every is_hex s ≡ true
    → Writes n w
    → Writes (read_hex n s) (λ v. w (concat s v))
unfolding read_hex every concat
read_hex-Writes String.[] n w pos h k = k
read_hex-Writes (String.◌∷◌ c s) n w pos h k =
    read_hex-Writes s (n * 16 + hex_value (code c)) (λ v. w (String.◌∷◌ c v)) (omega (arith, pos))
      (ground (arith, h)) (step-Writes n w c pos (ground (arith, h)) k)

positive-IsHex : (s : String) → is_positive_hex s ≡ true → every is_hex s ≡ true
unfolding is_positive_hex every
positive-IsHex String.[] h = cc
positive-IsHex (String.◌∷◌ c s) h = ground (arith, h)

written : (s : String) → is_positive_hex s ≡ true → lower_eq s (to_hex (read_hex 0 s)) ≡ true
unfolding is_positive_hex read_hex to_hex Writes lower_eq
written String.[] h = cc
written (String.◌∷◌ c s) h =
    let value : 0 * 16 + hex_value (code c) ≡ hex_value (code c) = omega arith in
    let all =
      read_hex-Writes s (hex_value (code c)) (String.◌∷◌ c) (ground (arith, h)) (ground (arith, h))
        (digit-Writes c (ground (arith, h))) "" "" refl in
    subst (λ k. lower_eq (String.◌∷◌ c s) (hex_before (read_hex k s) "") ≡ true) (sym value)
      (subst
        (λ x. lower_eq (String.◌∷◌ c x) (hex_before (read_hex (hex_value (code c)) s) "") ≡ true)
        (concat_nil s) all)

hex_value-lower : (k : ℕ) → is_hex k ≡ true → hex_value (lower k) ≡ hex_value k
hex_value-lower k h = ground (arith, h)

read_hex-lower_eq :
    (s t : String) (n : ℕ)
    → every is_hex s ≡ true
    → lower_eq s t ≡ true
    → read_hex n s ≡ read_hex n t
unfolding every lower_eq read_hex
read_hex-lower_eq String.[] String.[] n h e = refl
read_hex-lower_eq String.[] (String.◌∷◌ d t) n h e = cc
read_hex-lower_eq (String.◌∷◌ c s) String.[] n h e = cc
read_hex-lower_eq (String.◌∷◌ c s) (String.◌∷◌ d t) n h e =
    let same : lower (code c) ≡ code d = (==_iff _ _).0 (ground (arith, e)) in
    let value : hex_value (code c) ≡ hex_value (code d) =
      sym (hex_value-lower (code c) (ground (arith, h))) ∙ ap hex_value same in
    ap (λ v. read_hex (n * 16 + v) s) value
    ∙ read_hex-lower_eq s t _ (ground (arith, h)) (ground (arith, e))

-- A hex text without leading zeros is the text of a number exactly if it reads as that number.
pub lower_eq-to_hex :
    (s : String) (m : ℕ)
    → is_positive_hex s ≡ true
    → (lower_eq s (to_hex m) ≡ true) ↔ (read_hex 0 s ≡ m)
lower_eq-to_hex s m h = (
  (λ e. read_hex-lower_eq s (to_hex m) 0 (positive-IsHex s h) e ∙ (read_hex-to_hex m m).0),
  λ e. subst (λ k. lower_eq s (to_hex k) ≡ true) e (written s h),
)
