-- ===== src/Ipfs/Paths.antt =====
-- ipfs.routes.ts: the checks of a CID, of a path below it and of a media type.
pub mod Safe
use Prim.Native.Char.{Char, code}
use myqrlwallet_backend.Prelude.{
  ℕ, suc, ◌-◌, String, Bool, true, false, not, ◌&&◌, ◌||◌, none, some, List, [], ◌∷◌, leb, ◌==◌,
  str_eq, if◌then◌else◌,
}
use myqrlwallet_backend.Patterns.{
  lower_text, is_one_of, is_digit, every, count, strip, is_exactly, starts_with, concat, split,
  has_double, trim,
}

-- `[1-9A-HJ-NP-Za-km-z]`
abbrev pub is_base58 : ℕ → Bool
is_base58 c =
    leb b'1' c && leb c b'9'
    || leb b'A' c && leb c b'H'
    || leb b'J' c && leb c b'N'
    || leb b'P' c && leb c b'Z'
    || leb b'a' c && leb c b'k'
    || leb b'm' c && leb c b'z'

-- `[A-Za-z2-7]`
abbrev pub is_base32 : ℕ → Bool
is_base32 c = leb b'A' c && leb c b'Z' || leb b'a' c && leb c b'z' || leb b'2' c && leb c b'7'

-- `^b[A-Za-z2-7]{58,}$`
abbrev pub is_cid_v1 : String → Bool
is_cid_v1 s = elim (strip "b" s) [
  | none ↦ false
  | some rest ↦ every is_base32 rest && leb 58 (count rest)
]

unfoldable pub is_valid_cid : String → Bool
is_valid_cid cid = is_exactly "Qm" is_base58 44 cid || is_cid_v1 cid

-- `[A-Za-z0-9._-]`
unfoldable pub is_segment_char : ℕ → Bool
is_segment_char c =
    leb b'A' c && leb c b'Z'
    || leb b'a' c && leb c b'z'
    || is_digit c
    || c == b'.'
    || c == b'_'
    || c == b'-'

-- The empty pieces are dropped, the others consist of segment characters.
unfoldable pub all_segments : List String → Bool
all_segments [] = true
all_segments (s ∷ segments) = (str_eq s "" || every is_segment_char s) && all_segments segments

unfoldable pub is_safe_path : String → Bool
is_safe_path rest = str_eq rest "" || not (has_double b'.' rest) && all_segments (split b'/' rest)

-- What is asked of a gateway, after its URL.
unfoldable pub gateway_path : String → String → String
gateway_path cid rest = concat cid (if str_eq rest "" then "" else concat "/" rest)

-- A root CID, the same in either case of base32.
abbrev pub cid_key : String → String
cid_key cid = if starts_with "b" cid then lower_text cid else cid

abbrev pub inline_media_types : List String
inline_media_types =
    "image/png" ∷ "image/jpg" ∷ "image/jpeg" ∷ "image/gif" ∷ "image/webp" ∷ "image/avif"
    ∷ "image/bmp" ∷ "image/svg+xml" ∷ "video/mp4" ∷ "video/webm" ∷ "video/ogg" ∷ "audio/mpeg"
    ∷ "audio/mp3" ∷ "audio/ogg" ∷ "audio/wav" ∷ "audio/x-wav" ∷ "audio/webm" ∷ "audio/mp4"
    ∷ "audio/aac" ∷ "audio/flac" ∷ "application/json" ∷ []

unfoldable pub first_piece : List String → String
first_piece [] = ""
first_piece (s ∷ ss) = s

unfoldable pub is_inline_media_type : String → Bool
is_inline_media_type content_type =
    is_one_of (lower_text (trim (first_piece (split b';' content_type)))) inline_media_types
