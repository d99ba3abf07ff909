-- ===== src/Dotenv.antt =====
-- dynamic-config/src/dotenv.rs: the entries of a `.env` file.
pub mod RoundTrip
pub mod Provider
mod Examples
use dynamic_config.Prelude.{
  ℕ, zero, suc, Bool, true, false, Option, none, some, List, [], ◌∷◌, ◌+◌, ◌==◌, ◌||◌, is_empty,
  if◌then◌else◌,
}
use dynamic_config.Prelude.Text.{Text, codes, split}
use dynamic_config.Prelude.Str.{trim, trim_start, strip_prefix, starts_with, split_once}
use dynamic_config.Prelude.Results.{Result, ok, err}
use dynamic_config.Map.{Map, insert}

-- `strip_suffix` of one character
unfoldable pub strip_suffix : ℕ → Text → Option Text
strip_suffix q [] = none
strip_suffix q (c ∷ []) = if c == q then some [] else none
strip_suffix q (c ∷ d ∷ cs) = elim (strip_suffix q (d ∷ cs)) [
  | none ↦ none
  | some rest ↦ some (c ∷ rest)
]

-- A line without the carriage return before its end.
unfoldable pub chomp : Text → Text
unfolding strip_suffix
chomp line = elim (strip_suffix b'\r' line) [ none ↦ line | some rest ↦ rest ]

-- The pieces between newlines, less an empty one after the last.
unfoldable pub drop_last_empty : List Text → List Text
unfolding chomp
drop_last_empty [] = []
drop_last_empty (l ∷ []) = if is_empty l then [] else chomp l ∷ []
drop_last_empty (l ∷ m ∷ ls) = chomp l ∷ drop_last_empty (m ∷ ls)

-- `str::lines`
unfoldable pub lines : Text → List Text
unfolding split drop_last_empty
lines text = drop_last_empty (split b'\n' text)

-- One quote of the loop of `unquote`.
unfoldable pub between : ℕ → Text → Option Text
unfolding strip_prefix strip_suffix
between quote value = elim (strip_prefix (quote ∷ []) value) [
  | none ↦ none
  | some v ↦ strip_suffix quote v
]

-- `unquote`
unfoldable pub unquote : Text → Text
unfolding between
unquote value = elim (between b'"' value) [
  | some inner ↦ inner
  | none ↦ elim (between b'\'' value) [ some inner ↦ inner | none ↦ value ]
]

-- What one line is: nothing, an entry, or a line that cannot be read.
pub data Line : Type 0 where
  skipped unreadable : Line
  entry : Text → Text → Line

-- The body of the loop of `parse`, up to the insert.
unfoldable pub read_line : Text → Line
unfolding trim trim_start strip_prefix starts_with split_once unquote
read_line raw =
    let line = trim raw in
    if is_empty line || starts_with line (codes "#")
    then skipped
    else let shell : Text = elim (strip_prefix (codes "export ") line) [
      | none ↦ line
      | some rest ↦ rest
    ] in
      elim (split_once (codes "=") (trim_start shell)) [
        | none ↦ unreadable
        | some (name, value) ↦
            if is_empty (trim name) then unreadable else entry (trim name) (unquote (trim value))
      ]

-- The loop of `parse`.
unfoldable pub parse_lines : ℕ → Map Text → List Text → Result ℕ (Map Text)
unfolding read_line insert
parse_lines number entries [] = ok entries
parse_lines number entries (l ∷ ls) = elim (read_line l) [
  | skipped ↦ parse_lines (number + 1) entries ls
  | unreadable ↦ err (number + 1)
  | entry name value ↦ parse_lines (number + 1) (insert name value entries) ls
]

-- `parse`: the entries, or the number of the line that could not be read.
unfoldable pub parse : Text → Result ℕ (Map Text)
unfolding lines parse_lines
parse text = parse_lines 0 [] (lines text)
