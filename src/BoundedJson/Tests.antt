-- ===== src/BoundedJson/Tests.antt =====
-- The bounded reader with a decoder of decimal digits.
use myqrlwallet_backend.Prelude.{
  ℕ, ◌-◌, ◌≡◌, ◌↔◌, refl, ap, ◌∙◌, inl, inr, String, false, Option, none, some, List, [], ◌∷◌, ◌++◌,
  if◌then◌else◌, Bool-cases,
}
use Prim.Native.Char.{nul}
use myqrlwallet_backend.Patterns.{concat, is_digit, char_at, read_decimal, every}
use myqrlwallet_backend.Value.{Value, Number}
use myqrlwallet_backend.BoundedJson.{
  BodyChunk, BodyResponse, Decoding, unread, too_large, declared_body_is_oversize,
  read_bounded_json_response,
}
use myqrlwallet_backend.BoundedJson.Whole.{Streams, then_decode, extend}
use myqrlwallet_backend.BoundedJson.Accepted.{IsAccepted, kept, read_bounded_json_response-parsed}

abbrev digit_in_front : ℕ → Option String → Option String
digit_in_front b none = none
digit_in_front b (some s) =
    if is_digit b then some (String.◌∷◌ (char_at (b - b'0') "0123456789" nul) s) else none

abbrev digits_text : List ℕ → Option String
digits_text [] = some ""
digits_text (b ∷ bs) = digit_in_front b (digits_text bs)

abbrev with_state : ℕ → Option String → Option (String × ℕ)
with_state state none = none
with_state state (some s) = some (s, state)

-- Its state is not used.
abbrev pub digits : Decoding ℕ
digits = record {
  start = 0;
  decode = λ state bytes. with_state state (digits_text bytes);
  finish = λ _. some "";
  parse = λ s. some (Value.num (Number.nat (read_decimal 0 s)));
}

abbrev text_after : Option String → Option String → Option String
text_after none t = none
text_after (some s) none = none
text_after (some s) (some t) = some (concat s t)

in_front-text_after :
    (b : ℕ) (s t : Option String)
    → digit_in_front b (text_after s t) ≡ text_after (digit_in_front b s) t
unfolding concat
in_front-text_after b none t = refl
in_front-text_after b (some s) none = elim (Bool-cases (is_digit b)) [
  | inl is ↦ rw is refl
  | inr no_digit ↦ rw no_digit refl
]
in_front-text_after b (some s) (some t) = elim (Bool-cases (is_digit b)) [
  | inl is ↦ rw is refl
  | inr no_digit ↦ rw no_digit refl
]

digits_text-append :
    (a b : List ℕ) → digits_text (a ++ b) ≡ text_after (digits_text a) (digits_text b)
unfolding concat
digits_text-append [] b = nothing_before (digits_text b)
  where
    nothing_before : (t : Option String) → t ≡ text_after (some "") t
    nothing_before none = refl
    nothing_before (some t) = refl
digits_text-append (x ∷ a) b =
    ap (digit_in_front x) (digits_text-append a b)
    ∙ in_front-text_after x (digits_text a) (digits_text b)

with_state-text_after :
    (state : ℕ) (s t : Option String)
    → with_state state (text_after s t)
      ≡ elim s [ none ↦ none | some x ↦ extend digits x (with_state state t) ]
with_state-text_after state none t = refl
with_state-text_after state (some s) none = refl
with_state-text_after state (some s) (some t) = refl

then_decode-with_state :
    (state : ℕ) (b : List ℕ) (s : Option String)
    → elim s [ none ↦ none | some x ↦ extend digits x (with_state state (digits_text b)) ]
      ≡ then_decode digits b (with_state state s)
then_decode-with_state state b none = refl
then_decode-with_state state b (some s) = refl

pub digits-Streams : Streams digits
digits-Streams = (
  (λ state. refl),
  λ state a b.
      ap (with_state state) (digits_text-append a b)
      ∙ with_state-text_after state (digits_text a) (digits_text b)
      ∙ then_decode-with_state state b (digits_text a),
)

abbrev pub number_response : BodyResponse
number_response = record {
  content_length = some "3";
  chunks = some (BodyChunk.binary (b'4' ∷ []) ∷ BodyChunk.binary (b'2' ∷ b'0' ∷ []) ∷ []);
}

too_long : (read_bounded_json_response digits 2 number_response).outcome ≡ unread too_large
unfolding read_bounded_json_response declared_body_is_oversize every read_decimal
too_long = refl

read_bounded_json_response-parsed_example :
    (read_bounded_json_response digits 3 number_response ≡ kept (Value.num (Number.nat 420))) ↔ (
      (declared_body_is_oversize (some "3") 3 ≡ false)
      × (chunks : List BodyChunk) × (number_response.chunks ≡ some chunks)
      × IsAccepted digits 3 chunks (Value.num (Number.nat 420)))
read_bounded_json_response-parsed_example =
    read_bounded_json_response-parsed digits 3 digits-Streams number_response
      (Value.num (Number.nat 420))
