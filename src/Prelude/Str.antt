-- ===== src/Prelude/Str.antt =====
-- Searching, cutting and trimming a text: the methods of Rust's `str` that the program calls.
pub mod Cut
use Prim.Native.Nat.{ℕ, zero, suc, ◌+◌, ◌-◌, compare}
use Prim.Native.Nat.Ordering.{eq}
use mathlib.Core.Bool.{Bool, true, false, ◌&&◌, ◌||◌}
use mathlib.Core.List.{[], ◌∷◌, ◌++◌}
use mathlib.Core.Option.{Option, none, some}
use dynamic_config.Prelude.Tests.{leb, ◌==◌, if◌then◌else◌, is_some}
use dynamic_config.Prelude.Lists.{length, is_empty}
use dynamic_config.Prelude.Text.{Text, text_eq}

-- `char::is_whitespace`: the code points with the property White_Space.
unfoldable pub is_whitespace : ℕ → Bool
is_whitespace c =
    (leb 9 c && leb c 13)
    || c == 32
    || c == 0x85
    || c == 0xa0
    || c == 0x1680
    || (leb 0x2000 c && leb c 0x200a)
    || c == 0x2028
    || c == 0x2029
    || c == 0x202f
    || c == 0x205f
    || c == 0x3000

-- `char::is_ascii_digit`
unfoldable pub is_ascii_digit : ℕ → Bool
is_ascii_digit c = leb b'0' c && leb c b'9'

unfoldable pub trim_start : Text → Text
unfolding is_whitespace
trim_start [] = []
trim_start (c ∷ cs) = elim (is_whitespace c) [ true ↦ trim_start cs | false ↦ c ∷ cs ]

unfoldable pub trim_end_cons : ℕ → Text → Text
trim_end_cons c [] = if is_whitespace c then [] else c ∷ []
trim_end_cons c (d ∷ ds) = c ∷ d ∷ ds

unfoldable pub trim_end : Text → Text
unfolding trim_end_cons is_whitespace
trim_end [] = []
trim_end (c ∷ cs) = trim_end_cons c (trim_end cs)

unfoldable pub trim : Text → Text
unfolding trim_start trim_end
trim s = trim_end (trim_start s)

-- `str::strip_prefix`
unfoldable pub strip_prefix : Text → Text → Option Text
strip_prefix [] s = some s
strip_prefix (p ∷ ps) [] = none
strip_prefix (p ∷ ps) (c ∷ cs) = elim (compare p c) [ eq ↦ strip_prefix ps cs | _ ↦ none ]

unfoldable pub starts_with : Text → Text → Bool
unfolding strip_prefix
starts_with s prefix = is_some (strip_prefix prefix s)

-- `str::contains` of a text
unfoldable pub contains : Text → Text → Bool
unfolding starts_with
contains [] needle = starts_with [] needle
contains (c ∷ cs) needle = starts_with (c ∷ cs) needle || contains cs needle

unfoldable before : ℕ → Option (Text × Text) → Option (Text × Text)
before c none = none
before c (some (head, tail)) = some (c ∷ head, tail)

-- `str::split_once` at a text
unfoldable pub split_once : Text → Text → Option (Text × Text)
unfolding strip_prefix before
split_once sep [] = elim (strip_prefix sep []) [ none ↦ none | some rest ↦ some ([], rest) ]
split_once sep (c ∷ cs) =
    let later = split_once sep cs in
    elim (strip_prefix sep (c ∷ cs)) [ none ↦ before c later | some rest ↦ some ([], rest) ]

-- `char::to_ascii_lowercase`
unfoldable pub to_ascii_lowercase : ℕ → ℕ
to_ascii_lowercase c = if leb b'A' c && leb c b'Z' then c + 32 else c

-- `str::eq_ignore_ascii_case`
unfoldable pub eq_ignore_ascii_case : Text → Text → Bool
unfolding to_ascii_lowercase
eq_ignore_ascii_case [] [] = true
eq_ignore_ascii_case [] (d ∷ ds) = false
eq_ignore_ascii_case (c ∷ cs) [] = false
eq_ignore_ascii_case (c ∷ cs) (d ∷ ds) =
    to_ascii_lowercase c == to_ascii_lowercase d && eq_ignore_ascii_case cs ds

-- `str::strip_suffix`
unfoldable pub strip_suffix : Text → Text → Option Text
strip_suffix suffix [] = if text_eq suffix [] then some [] else none
strip_suffix suffix (c ∷ cs) =
    if text_eq suffix (c ∷ cs)
    then some []
    else (elim (strip_suffix suffix cs) [ none ↦ none | some rest ↦ some (c ∷ rest) ])

-- `str::to_ascii_uppercase` of one character
unfoldable pub to_ascii_uppercase : ℕ → ℕ
to_ascii_uppercase c = if leb b'a' c && leb c b'z' then c - 32 else c

-- The text after its first characters that another one matches but for case, as many as that has.
unfoldable pub strip_prefix_ignoring_case : Text → Text → Option Text
unfolding to_ascii_lowercase
strip_prefix_ignoring_case name [] = some name
strip_prefix_ignoring_case [] (p ∷ ps) = none
strip_prefix_ignoring_case (c ∷ cs) (p ∷ ps) =
    if to_ascii_lowercase c == to_ascii_lowercase p then strip_prefix_ignoring_case cs ps else none

-- `str::replace`, on fuel: each round takes a character or more.
unfoldable pub replaced_in : ℕ → Text → Text → Text → Text
unfolding strip_prefix
replaced_in zero from to text = text
replaced_in (suc fuel) from to [] = elim (is_empty from) [ true ↦ to | false ↦ [] ]
replaced_in (suc fuel) from to (c ∷ cs) = elim (strip_prefix from (c ∷ cs)) [
  | none ↦ c ∷ replaced_in fuel from to cs
  | some rest ↦ elim (is_empty from) [
    | true ↦ to ++ c ∷ replaced_in fuel from to cs
    | false ↦ to ++ replaced_in fuel from to rest
  ]
]

unfoldable pub replace : Text → Text → Text → Text
unfolding replaced_in
replace text from to = replaced_in (length text + 1) from to text
