-- ===== src/Patterns.antt =====
-- The tests of texts that the source writes as regular expressions.
pub mod Concat
use Prim.Native.Char.{Char, code}
use myqrlwallet_backend.Prelude.{
  ℕ, suc, ◌+◌, ◌-◌, ◌*◌, String, Bool, true, false, ◌&&◌, ◌||◌, Option, none, some, leb, ◌==◌,
  str_eq, if◌then◌else◌, List, [], ◌∷◌,
}

abbrev pub is_digit : ℕ → Bool
is_digit c = leb b'0' c && leb c b'9'

-- `[0-9a-fA-F]`
abbrev pub is_hex : ℕ → Bool
is_hex c = is_digit c || leb b'a' c && leb c b'f' || leb b'A' c && leb c b'F'

-- The number that a hex digit stands for.
abbrev pub hex_value : ℕ → ℕ
hex_value c = if is_digit c then c - b'0' else if leb b'a' c then c - 87 else c - 55

-- `toLowerCase` on an ASCII letter.
abbrev pub lower : ℕ → ℕ
lower c = if leb b'A' c && leb c b'Z' then c + 32 else c

unfoldable pub count : String → ℕ
count String.[] = 0
count (String.◌∷◌ c s) = suc (count s)

-- Every character is of a class.
unfoldable pub every : (ℕ → Bool) → String → Bool
every p String.[] = true
every p (String.◌∷◌ c s) = p (code c) && every p s

-- `s.toLowerCase() === t`, for an ASCII `s`.
unfoldable pub lower_eq : String → String → Bool
lower_eq String.[] String.[] = true
lower_eq (String.◌∷◌ c s) (String.◌∷◌ d t) = lower (code c) == code d && lower_eq s t
lower_eq _ _ = false

-- What follows a prefix.
unfoldable pub strip : String → String → Option String
strip String.[] s = some s
strip (String.◌∷◌ c p) String.[] = none
strip (String.◌∷◌ c p) (String.◌∷◌ d s) = if code c == code d then strip p s else none

abbrev pub starts_with : String → String → Bool
starts_with p s = elim (strip p s) [ none ↦ false | some _ ↦ true ]

-- `^<prefix>[class]{n}$`
abbrev pub is_exactly : String → (ℕ → Bool) → ℕ → String → Bool
is_exactly prefix p n s = elim (strip prefix s) [
  | none ↦ false
  | some rest ↦ every p rest && count rest == n
]

unfoldable pub read_hex : ℕ → String → ℕ
read_hex n String.[] = n
read_hex n (String.◌∷◌ c s) = read_hex (n * 16 + hex_value (code c)) s

-- `[1-9a-fA-F][0-9a-fA-F]*`
unfoldable pub is_positive_hex : String → Bool
is_positive_hex String.[] = false
is_positive_hex (String.◌∷◌ c s) =
    is_hex (code c) && (if code c == b'0' then false else every is_hex s)

-- Two texts one after the other.
unfoldable pub concat : String → String → String
concat String.[] t = t
concat (String.◌∷◌ c s) t = String.◌∷◌ c (concat s t)

abbrev pub max_safe_integer : ℕ
max_safe_integer = 9007199254740991

-- `0|[1-9a-fA-F][0-9a-fA-F]*`
abbrev pub is_hex_number : String → Bool
is_hex_number s = str_eq s "0" || is_positive_hex s

-- White space, as `trim` takes it.
abbrev pub is_space : ℕ → Bool
is_space c =
    leb 9 c && leb c 13
    || c == 32
    || c == 160
    || c == 5760
    || leb 8192 c && leb c 8202
    || c == 8232
    || c == 8233
    || c == 8239
    || c == 8287
    || c == 12288
    || c == 65279

unfoldable pub trim_start : String → String
trim_start String.[] = String.[]
trim_start (String.◌∷◌ c s) =
    let rest = trim_start s in if is_space (code c) then rest else String.◌∷◌ c s

-- All that follows is white space.
unfoldable pub trim_end : String → String
trim_end String.[] = String.[]
trim_end (String.◌∷◌ c s) =
    let rest = trim_end s in
    if is_space (code c) && str_eq rest "" then String.[] else String.◌∷◌ c rest

abbrev pub trim : String → String
trim s = trim_end (trim_start s)

unfoldable pub read_decimal : ℕ → String → ℕ
read_decimal n String.[] = n
read_decimal n (String.◌∷◌ c s) = read_decimal (n * 10 + (code c - b'0')) s

-- The pieces between the separators; there is always one more piece than separators.
unfoldable pub split : ℕ → String → List String
split sep String.[] = "" ∷ []
split sep (String.◌∷◌ c s) =
    let rest = split sep s in
    if code c == sep
    then "" ∷ rest
    else elim rest [ [] ↦ [] | piece ∷ pieces ↦ String.◌∷◌ c piece ∷ pieces ]

-- Two of a character, one right after the other.
unfoldable pub has_double : ℕ → String → Bool
has_double x String.[] = false
has_double x (String.◌∷◌ c s) =
    let rest = has_double x s in
    elim s [ String.[] ↦ false | String.◌∷◌ d s' ↦ code c == x && code d == x || rest ]

unfoldable pub char_at : ℕ → String → Char → Char
char_at i String.[] c = c
char_at i (String.◌∷◌ d s) c = let later = char_at (i - 1) s c in if i == 0 then d else later

abbrev pub lower_char : Char → Char
lower_char c =
    if leb b'A' (code c) && leb (code c) b'Z'
    then char_at (code c - b'A') "abcdefghijklmnopqrstuvwxyz" c
    else c

-- `toLowerCase` on an ASCII text.
unfoldable pub lower_text : String → String
lower_text String.[] = String.[]
lower_text (String.◌∷◌ c s) = String.◌∷◌ (lower_char c) (lower_text s)

abbrev pub is_one_of : String → List String → Bool
is_one_of s [] = false
is_one_of s (t ∷ ts) = str_eq s t || is_one_of s ts
