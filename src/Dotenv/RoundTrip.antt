-- ===== src/Dotenv/RoundTrip.antt =====
-- A `.env` file of quoted values reads back as its entries.
use mathlib.Core.List.{append_assoc}
use dynamic_config.Prelude.{
  ℕ, false, none, some, List, [], ◌∷◌, ◌++◌, ◌+◌, ◌≡◌, ◌≢◌, refl, sym, ap, ◌∙◌, arith, All,
  All-append, map,
}
use dynamic_config.Prelude.Text.{Text, codes, split, split-cons}
use dynamic_config.Prelude.Str.{
  trim, trim_start, trim_end, strip_prefix, starts_with, split_once, is_whitespace,
}
use dynamic_config.Prelude.Results.{ok}
use dynamic_config.Map.{Map, insert}
use dynamic_config.Dotenv.{
  strip_suffix, chomp, drop_last_empty, lines, between, unquote, entry, read_line, parse_lines,
  parse,
}

-- A character of a name: not blank, no `=` and no `#`.
abbrev pub NameChar : ℕ → Type 0
NameChar c = (is_whitespace c ≡ false) × (c ≢ b'=') × (c ≢ b'#')

-- An entry that a file can hold in one line.
abbrev pub Plain : Text × Text → Type 0
Plain ([], value) = ⊥
Plain (c ∷ cs, value) = All NameChar (c ∷ cs) × All (λ (d : ℕ). d ≢ b'\n') value

-- A line, `name="value"`, and the file.
abbrev pub print_line : Text × Text → Text
print_line (name, value) = name ++ (b'=' ∷ b'"' ∷ (value ++ (b'"' ∷ [])))

abbrev pub print : List (Text × Text) → Text
print [] = []
print (e ∷ es) = print_line e ++ (b'\n' ∷ print es)

-- What the entries are, put in one after the other.
abbrev pub insert_all : Map Text → List (Text × Text) → Map Text
insert_all m [] = m
insert_all m ((name, value) ∷ es) = insert_all (insert name value m) es

strip_suffix-snoc : (q : ℕ) (s : Text) → strip_suffix q (s ++ (q ∷ [])) ≡ some s
unfolding strip_suffix
strip_suffix-snoc q [] = ground arith
strip_suffix-snoc q (c ∷ []) = ground arith
strip_suffix-snoc q (c ∷ d ∷ s) = ground (arith, strip_suffix-snoc q (d ∷ s))

strip_suffix-other : (q e : ℕ) (s : Text) → e ≢ q → strip_suffix q (s ++ (e ∷ [])) ≡ none
unfolding strip_suffix
strip_suffix-other q e [] h = ground (arith, h)
strip_suffix-other q e (c ∷ []) h = ground (arith, h)
strip_suffix-other q e (c ∷ d ∷ s) h = ground (arith, strip_suffix-other q e (d ∷ s) h)

trim_end-snoc :
    (s : Text) (q : ℕ) → is_whitespace q ≡ false → trim_end (s ++ (q ∷ [])) ≡ s ++ (q ∷ [])
unfolding trim_end
trim_end-snoc [] q h = rw h refl
trim_end-snoc (c ∷ []) q h = rw h refl
trim_end-snoc (c ∷ d ∷ s) q h = rw (trim_end-snoc (d ∷ s) q h) refl

trim_end-solid : (s : Text) → All NameChar s → trim_end s ≡ s
unfolding trim_end
trim_end-solid [] a = refl
trim_end-solid (c ∷ []) a = let blank = a.0.0 in rw blank refl
trim_end-solid (c ∷ d ∷ s) a = rw (trim_end-solid (d ∷ s) a.1) refl

split_once-at :
    (sep : ℕ) (s r : Text)
    → All (λ (c : ℕ). c ≢ sep) s
    → split_once (sep ∷ []) (s ++ (sep ∷ r)) ≡ some (s, r)
unfolding split_once strip_prefix
split_once-at sep [] r a = ground arith
split_once-at sep (c ∷ s) r a = ground (arith, split_once-at sep s r a.1, a.0)

pub split-at :
    (sep : ℕ) (s r : Text)
    → All (λ (c : ℕ). c ≢ sep) s
    → split sep (s ++ (sep ∷ r)) ≡ s ∷ split sep r
unfolding split
split-at sep [] r a = ground arith
split-at sep (c ∷ s) r a = ground (arith, split-at sep s r a.1, a.0)

solid-ne-space : (d : ℕ) → is_whitespace d ≡ false → d ≢ b' '
unfolding is_whitespace
solid-ne-space d h e = ground (arith, h, e)

strip_prefix-word :
    (p name r : Text)
    → All (λ (c : ℕ). c ≢ b'=') p
    → All NameChar name
    → strip_prefix (p ++ (b' ' ∷ [])) (name ++ (b'=' ∷ r)) ≡ none
unfolding strip_prefix
strip_prefix-word [] [] r hp hn = refl
strip_prefix-word [] (d ∷ name) r hp hn = ground (arith, solid-ne-space d hn.0.0)
strip_prefix-word (c ∷ p) [] r hp hn = ground (arith, hp.0)
strip_prefix-word (c ∷ p) (d ∷ name) r hp hn = ground (arith, strip_prefix-word p name r hp.1 hn.1)

trim_start-solid : (c : ℕ) (s : Text) → is_whitespace c ≡ false → trim_start (c ∷ s) ≡ c ∷ s
unfolding trim_start
trim_start-solid c s h = ground (arith, h)

nothing : trim [] ≡ []
unfolding trim trim_start trim_end
nothing = refl

-- A text that begins and ends with something else than a blank is not trimmed.
trim-quoted :
    (c : ℕ) (s : Text) (q : ℕ)
    → is_whitespace c ≡ false
    → is_whitespace q ≡ false
    → trim (c ∷ (s ++ (q ∷ []))) ≡ c ∷ (s ++ (q ∷ []))
unfolding trim
trim-quoted c s q hc hq =
    ap trim_end (trim_start-solid c (s ++ (q ∷ [])) hc) ∙ trim_end-snoc (c ∷ s) q hq

trim-solid : (s : Text) → All NameChar s → trim s ≡ s
unfolding trim
trim-solid [] a = nothing
trim-solid (c ∷ s) a = ap trim_end (trim_start-solid c s a.0.0) ∙ trim_end-solid (c ∷ s) a

quote_is_solid : is_whitespace b'"' ≡ false
unfolding is_whitespace
quote_is_solid = refl

unquote-quoted : (value : Text) → unquote (b'"' ∷ (value ++ (b'"' ∷ []))) ≡ value
unfolding unquote between strip_prefix
unquote-quoted value = ground (arith, strip_suffix-snoc b'"' value)

-- A line without the blanks at its end.
line-snoc :
    (name value : Text)
    → name ++ (b'=' ∷ b'"' ∷ (value ++ (b'"' ∷ [])))
      ≡ (name ++ (b'=' ∷ b'"' ∷ value)) ++ (b'"' ∷ [])
line-snoc name value = sym (append_assoc name (b'=' ∷ b'"' ∷ value) (b'"' ∷ []))

no_equals : (name : Text) → All NameChar name → All (λ (c : ℕ). c ≢ b'=') name
no_equals [] a = tt
no_equals (c ∷ s) a = (a.0.1, no_equals s a.1)

comment : (c : ℕ) (s : Text) → c ≢ b'#' → starts_with (c ∷ s) (codes "#") ≡ false
unfolding starts_with strip_prefix
comment c s h = ground (arith, h)

read_line-print_line :
    (name value : Text)
    → Plain (name, value)
    → read_line (print_line (name, value)) ≡ entry name value
unfolding read_line
read_line-print_line [] value p = absurd p
read_line-print_line (c ∷ cs) value p =
    let solid = p.0.0.0 in
    let whole : Text = (c ∷ cs) ++ (b'=' ∷ b'"' ∷ (value ++ (b'"' ∷ []))) in
    let trimmed : trim whole ≡ whole =
      rw (line-snoc cs value)
        (trim-quoted c (cs ++ (b'=' ∷ b'"' ∷ value)) b'"' solid quote_is_solid) in
    let not_shell : strip_prefix (codes "export ") whole ≡ none =
      strip_prefix-word (codes "export") (c ∷ cs) (b'"' ∷ (value ++ (b'"' ∷ []))) (omega arith)
        p.0 in
    let starts : trim_start whole ≡ whole =
      trim_start-solid c (cs ++ (b'=' ∷ b'"' ∷ (value ++ (b'"' ∷ [])))) solid in
    let cut : split_once (codes "=") whole ≡ some (c ∷ cs, b'"' ∷ (value ++ (b'"' ∷ []))) =
      split_once-at b'=' (c ∷ cs) (b'"' ∷ (value ++ (b'"' ∷ []))) (no_equals (c ∷ cs) p.0) in
    let name_kept = trim-solid (c ∷ cs) p.0 in
    let value_kept = trim-quoted b'"' value b'"' quote_is_solid quote_is_solid in
    let inner = unquote-quoted value in
    ground (
      arith,
      trimmed,
      not_shell,
      starts,
      cut,
      name_kept,
      value_kept,
      inner,
      comment c (cs ++ (b'=' ∷ b'"' ∷ (value ++ (b'"' ∷ [])))) p.0.0.2,
    )

solid-ne-newline : (d : ℕ) → is_whitespace d ≡ false → d ≢ b'\n'
unfolding is_whitespace
solid-ne-newline d h e = ground (arith, h, e)

print_line-no_newline : (e : Text × Text) → Plain e → All (λ (c : ℕ). c ≢ b'\n') (print_line e)
print_line-no_newline ([], value) p = absurd p
print_line-no_newline (c ∷ cs, value) p =
    All-append (λ (d : ℕ). d ≢ b'\n') (c ∷ cs) (b'=' ∷ b'"' ∷ (value ++ (b'"' ∷ [])))
      (names (c ∷ cs) p.0)
      (
        (λ e. absurd (omega arith)),
        (
          (λ e. absurd (omega arith)),
          All-append (λ (d : ℕ). d ≢ b'\n') value (b'"' ∷ []) p.1 ((λ e. absurd (omega arith)), tt),
        ),
      )
  where
    names : (s : Text) → All NameChar s → All (λ (d : ℕ). d ≢ b'\n') s
    names [] a = tt
    names (d ∷ s) a = (solid-ne-newline d a.0.0, names s a.1)

drop_last_empty-cons :
    (l : Text) (ls : List Text) → ls ≢ [] → drop_last_empty (l ∷ ls) ≡ chomp l ∷ drop_last_empty ls
unfolding drop_last_empty
drop_last_empty-cons l [] h = absurd (h refl)
drop_last_empty-cons l (m ∷ ls) h = refl

chomp-print_line : (e : Text × Text) → chomp (print_line e) ≡ print_line e
unfolding chomp
chomp-print_line (name, value) =
    let whole = strip_suffix-other b'\r' b'"' (name ++ (b'=' ∷ b'"' ∷ value)) (omega arith) in
    ground (arith, whole, line-snoc name value)

empty : lines [] ≡ []
unfolding lines split drop_last_empty
empty = refl

cons-ne-nil : (l : Text) (ls : List Text) → l ∷ ls ≢ []
cons-ne-nil l ls h = cc

lines-print : (es : List (Text × Text)) → All Plain es → lines (print es) ≡ map print_line es
unfolding lines
lines-print [] a = empty
lines-print (e ∷ es) a =
    let (first, rest, shape) = split-cons b'\n' (print es) in
    let more : split b'\n' (print es) ≢ [] = λ q. cons-ne-nil first rest (sym shape ∙ q) in
    ap drop_last_empty (split-at b'\n' (print_line e) (print es) (print_line-no_newline e a.0))
    ∙ (drop_last_empty-cons (print_line e) (split b'\n' (print es)) more
        ∙ (ap (λ l. l ∷ drop_last_empty (split b'\n' (print es))) (chomp-print_line e)
            ∙ ap (λ ls. print_line e ∷ ls) (lines-print es a.1)))

parse_lines-map :
    (n : ℕ) (m : Map Text) (es : List (Text × Text))
    → All Plain es
    → parse_lines n m (map print_line es) ≡ ok (insert_all m es)
unfolding parse_lines
parse_lines-map n m [] a = refl
parse_lines-map n m ((name, value) ∷ es) a =
    rw (read_line-print_line name value a.0, parse_lines)
      (parse_lines-map (n + 1) (insert name value m) es a.1)

-- A file of lines `name="value"` reads back as its entries, the later of two under one name. A name
-- has at least one character and no blank, `=` or `#`; a value has any characters but a newline,
-- quotes, blanks at its ends and `#` included.
pub parse-print :
    (es : List (Text × Text)) → All Plain es → parse (print es) ≡ ok (insert_all [] es)
unfolding parse
parse-print es a = rw (lines-print es a) (parse_lines-map 0 [] es a)
