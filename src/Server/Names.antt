-- ===== src/Server/Names.antt =====
-- dynamic-config-server/src/routes/names.rs: what may stand in a request's path.
use dynamic_config.Prelude.{
  ℕ, Bool, true, false, List, [], ◌∷◌, ◌&&◌, ◌||◌, ◌==◌, leb, not, length, is_empty,
}
use dynamic_config.Prelude.Text.{Text, split}
use dynamic_config.Prelude.Utf8.{utf8}
use dynamic_config.Prelude.Str.{is_ascii_digit}

-- `char::is_ascii_alphanumeric`
unfoldable pub is_ascii_alphanumeric : ℕ → Bool
unfolding is_ascii_digit
is_ascii_alphanumeric c =
    is_ascii_digit c || (leb b'a' c && leb c b'z') || (leb b'A' c && leb c b'Z')

-- `Iterator::all`
unfoldable pub all : (ℕ → Bool) → Text → Bool
all p [] = true
all p (c ∷ cs) = p c && all p cs

unfoldable pub is_name_char : ℕ → Bool
unfolding is_ascii_alphanumeric
is_name_char c = is_ascii_alphanumeric c || c == b'.' || c == b'_' || c == b'-'

-- `is_name`; the length is that of the bytes.
unfoldable pub is_name : Text → Bool
unfolding all is_name_char utf8
is_name [] = false
is_name (first ∷ rest) =
    is_ascii_alphanumeric first && leb (length (utf8 (first ∷ rest))) 64 && all is_name_char rest

unfoldable pub is_segment : Text → Bool
unfolding all is_ascii_alphanumeric
is_segment segment =
    not (is_empty segment) && all (λ c. is_ascii_alphanumeric c || c == b'_' || c == b'-') segment

unfoldable pub all_segments : List Text → Bool
unfolding is_segment
all_segments [] = true
all_segments (s ∷ ss) = is_segment s && all_segments ss

-- `is_key_path`
unfoldable pub is_key_path : Text → Bool
unfolding all_segments split utf8
is_key_path value =
    not (is_empty value) && leb (length (utf8 value)) 256 && all_segments (split b'.' value)
