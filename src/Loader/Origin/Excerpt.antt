-- ===== src/Loader/Origin/Excerpt.antt =====
-- The lines of a document that a parser quotes in its error.
use dynamic_config.Prelude.{
  ℕ, Bool, true, false, Option, none, some, List, [], ◌∷◌, ◌++◌, ◌≡◌, ◌≢◌, refl, sym, ap, ◌∙◌,
  arith, All, keep, not,
}
use mathlib.Core.List.{append_assoc}
use mathlib.Core.List
use dynamic_config.Prelude.Text.{Text, codes, join, split, split-append, split-cons}
use dynamic_config.Error
use dynamic_config.Error.{with_origin}
use dynamic_config.Prelude.Str.{
  is_whitespace, is_ascii_digit, trim_start, trim_end, starts_with, strip_prefix,
}
use dynamic_config.Dotenv.{strip_suffix, chomp, drop_last_empty, lines}
use dynamic_config.Dotenv.RoundTrip.{split-at}
use dynamic_config.Figment.Provided.{
  FailureKind, Failure, invalid_type, invalid_value, missing_field, invalid_length,
  isize_out_of_range, usize_out_of_range, other_kind,
}
use dynamic_config.Loader.Origin.{
  trim_digits, is_gutter, refine_env, origin_or_unknown, error_path, prepend_all, kind_of_error,
  without_quoted_source, message_of, translate, convert,
}

-- One line of the excerpt that a parser prints: blanks, the number of a line, blanks, a bar and the
-- line itself.
abbrev pub excerpt : (before number after source : Text) → Text
excerpt before number after source = before ++ (number ++ (after ++ (b'|' ∷ source)))

abbrev pub IsBlank : ℕ → Type 0
IsBlank c = is_whitespace c ≡ true

abbrev pub IsNumber : Text → Type 0
IsNumber number = All (λ (c : ℕ). is_ascii_digit c ≡ true) number

chomp-cons : (c d : ℕ) (ds : Text) → chomp (c ∷ d ∷ ds) ≡ c ∷ chomp (d ∷ ds)
unfolding chomp strip_suffix
chomp-cons c d ds =
    elim (strip_suffix b'\r' (d ∷ ds))
      as (λ o.
        ◌≡◌ {A = Text}
          (elim (elim o as (λ _. Option Text) [ none ↦ none | some rest ↦ some (c ∷ rest) ])
            as (λ _. Text) [ none ↦ c ∷ d ∷ ds | some rest ↦ rest ])
          (c ∷ (elim o as (λ _. Text) [ none ↦ d ∷ ds | some rest ↦ rest ]))) [
            | none ↦ refl
            | some rest ↦ refl
          ]

chomp-bar : (source : Text) → (kept : Text) × (chomp (b'|' ∷ source) ≡ b'|' ∷ kept)
chomp-bar [] = ([], unfold chomp strip_suffix in refl)
chomp-bar (c ∷ cs) = (chomp (c ∷ cs), chomp-cons b'|' c cs)

chomp-append :
    (before source : Text) → chomp (before ++ (b'|' ∷ source)) ≡ before ++ chomp (b'|' ∷ source)
chomp-append [] source = refl
chomp-append (c ∷ []) source = chomp-cons c b'|' source
chomp-append (c ∷ d ∷ ds) source =
    chomp-cons c d (ds ++ (b'|' ∷ source)) ∙ ap (λ l. c ∷ l) (chomp-append (d ∷ ds) source)

trim_start-blank :
    (blank rest : Text) → All IsBlank blank → trim_start (blank ++ rest) ≡ trim_start rest
unfolding trim_start
trim_start-blank [] rest h = refl
trim_start-blank (c ∷ cs) rest h = ground (arith, h.0, trim_start-blank cs rest h.1)

trim_digits-number :
    (number rest : Text) → IsNumber number → trim_digits (number ++ rest) ≡ trim_digits rest
unfolding trim_digits
trim_digits-number [] rest h = refl
trim_digits-number (c ∷ cs) rest h = ground (arith, h.0, trim_digits-number cs rest h.1)

digit-IsSolid : (c : ℕ) → is_ascii_digit c ≡ true → is_whitespace c ≡ false
unfolding is_ascii_digit is_whitespace
digit-IsSolid c h = grind arith

blank-IsSolid : (c : ℕ) → is_whitespace c ≡ true → is_ascii_digit c ≡ false
unfolding is_ascii_digit is_whitespace
blank-IsSolid c h = grind arith

-- What stands before the bar is blank, so no digit is taken off it.
trim_digits-blank :
    (blank source : Text)
    → All IsBlank blank
    → trim_start (trim_digits (blank ++ (b'|' ∷ source))) ≡ b'|' ∷ source
trim_digits-blank [] source h = unfold trim_digits trim_start is_ascii_digit is_whitespace in refl
trim_digits-blank (c ∷ cs) source h =
    unfold trim_digits trim_start in
    ground (arith, blank-IsSolid c h.0, h.0, trim_start-blank cs (b'|' ∷ source) h.1)

trim_start-digit : (c : ℕ) (cs : Text) → is_ascii_digit c ≡ true → trim_start (c ∷ cs) ≡ c ∷ cs
unfolding trim_start
trim_start-digit c cs h = ground (arith, digit-IsSolid c h)

append_assoc3 : (a b c d : Text) → (a ++ (b ++ c)) ++ d ≡ a ++ (b ++ (c ++ d))
append_assoc3 a b c d = append_assoc a (b ++ c) d ∙ ap (λ l. a ++ l) (append_assoc b c d)

trim_digits-excerpt :
    (number after source : Text)
    → IsNumber number
    → All IsBlank after
    → trim_start (trim_digits (trim_start (number ++ (after ++ (b'|' ∷ source))))) ≡ b'|' ∷ source
unfolding trim_start
trim_digits-excerpt [] after source n h =
    ap (λ t. trim_start (trim_digits t)) (trim_start-blank after (b'|' ∷ source) h)
    ∙ trim_digits-blank [] source tt
trim_digits-excerpt (c ∷ cs) after source n h =
    ap (λ t. trim_start (trim_digits t)) (trim_start-digit c (cs ++ (after ++ (b'|' ∷ source))) n.0)
    ∙ (ap trim_start (trim_digits-number (c ∷ cs) (after ++ (b'|' ∷ source)) n)
        ∙ trim_digits-blank after source h)

-- A line of an excerpt is taken for one, with or without the end that `lines` takes off.
is_gutter-excerpt :
    (before number after source : Text)
    → All IsBlank before
    → IsNumber number
    → All IsBlank after
    → is_gutter (chomp (excerpt before number after source)) ≡ true
unfolding is_gutter starts_with strip_prefix
is_gutter-excerpt before number after source b n a =
    let (kept, bar) = chomp-bar source in
    let chomped : chomp (excerpt before number after source) ≡ excerpt before number after kept =
      ap chomp (sym (append_assoc3 before number after (b'|' ∷ source)))
      ∙ (chomp-append (before ++ (number ++ after)) source
          ∙ (ap (λ t. (before ++ (number ++ after)) ++ t) bar
              ∙ append_assoc3 before number after (b'|' ∷ kept))) in
    let shown : trim_start (trim_digits (trim_start (excerpt before number after kept)))
        ≡ b'|' ∷ kept =
      ap (λ t. trim_start (trim_digits t))
        (trim_start-blank before (number ++ (after ++ (b'|' ∷ kept))) b)
      ∙ trim_digits-excerpt number after kept n a in
    ap is_gutter chomped ∙ ap (λ t. starts_with t (codes "|")) shown

drop_last_empty-append :
    (xs ys : List Text) (y : Text)
    → drop_last_empty (xs ++ (y ∷ ys)) ≡ List.map chomp xs ++ drop_last_empty (y ∷ ys)
unfolding drop_last_empty
drop_last_empty-append [] ys y = refl
drop_last_empty-append (x ∷ []) ys y = refl
drop_last_empty-append (x ∷ x2 ∷ xs) ys y =
    ap (λ l. chomp x ∷ l) (drop_last_empty-append (x2 ∷ xs) ys y)

-- The lines of a text with a line in its middle.
lines-around :
    (top line bottom : Text)
    → All (λ (c : ℕ). c ≢ b'\n') line
    → (lines (top ++ (b'\n' ∷ (line ++ (b'\n' ∷ bottom))))
        ≡ List.map chomp (split b'\n' top) ++ (chomp line ∷ lines bottom))
      × (lines (top ++ (b'\n' ∷ bottom)) ≡ List.map chomp (split b'\n' top) ++ lines bottom)
unfolding lines drop_last_empty
lines-around top line bottom h =
    let (s, ss, shape) = split-cons b'\n' bottom in
    (
      ap drop_last_empty (
            split-append b'\n' top (line ++ (b'\n' ∷ bottom))
            ∙ ap (λ l. split b'\n' top ++ l) (split-at b'\n' line bottom h))
          ∙ rw shape (drop_last_empty-append (split b'\n' top) (s ∷ ss) line),
      ap drop_last_empty (split-append b'\n' top bottom)
          ∙ rw shape (drop_last_empty-append (split b'\n' top) ss s),
    )

keep-skip {ℓ} :
    {A : Type ℓ} (p : A → Bool) (xs : List A) (y : A) (ys : List A)
    → p y ≡ false
    → keep p (xs ++ (y ∷ ys)) ≡ keep p (xs ++ ys)
keep-skip p [] y ys h = rw h refl
keep-skip p (x ∷ xs) y ys h =
    ap (λ rest. elim (p x) [ true ↦ x ∷ rest | false ↦ rest ]) (keep-skip p xs y ys h)

without_quoted_source-excerpt :
    (top bottom before number after source : Text)
    → All IsBlank before
    → IsNumber number
    → All IsBlank after
    → All (λ (c : ℕ). c ≢ b'\n') (excerpt before number after source)
    → without_quoted_source
        (top ++ (b'\n' ∷ (excerpt before number after source ++ (b'\n' ∷ bottom))))
      ≡ without_quoted_source (top ++ (b'\n' ∷ bottom))
unfolding without_quoted_source
without_quoted_source-excerpt top bottom before number after source b n a one_line =
    let seen = is_gutter-excerpt before number after source b n a in
    let (with_line, without) =
      lines-around top (excerpt before number after source) bottom one_line in
    ap (λ l. trim_end (join (codes "\n") (keep (λ t. not (is_gutter t)) l))) with_line
    ∙ (ap (λ l. trim_end (join (codes "\n") l))
          (keep-skip (λ t. not (is_gutter t)) (List.map chomp (split b'\n' top))
            (chomp (excerpt before number after source)) (lines bottom) (ap not seen))
        ∙ ap (λ l. trim_end (join (codes "\n") (keep (λ t. not (is_gutter t)) l))) (sym without))

message_of-excerpt :
    (kind : FailureKind) (r s : Text)
    → without_quoted_source r ≡ without_quoted_source s
    → message_of kind r ≡ message_of kind s
unfolding message_of
message_of-excerpt (invalid_type actual expected) r s h = refl
message_of-excerpt (invalid_value actual expected) r s h = refl
message_of-excerpt (FailureKind.message text) r s h = h
message_of-excerpt (missing_field field) r s h = h
message_of-excerpt (invalid_length found expected) r s h = h
message_of-excerpt (isize_out_of_range found) r s h = h
message_of-excerpt (usize_out_of_range found) r s h = h
message_of-excerpt (other_kind carried) r s h = h

module _ (has_variable : Text → Bool) (nest : Text) where
  -- A line that a parser quotes from a document does not reach the error: a failure whose text has the
  -- line of an excerpt between two other lines becomes the error that it would become without it,
  -- whatever kind of failure it is.
  pub convert-excerpt :
      (failure : Failure) (top bottom before number after source : Text)
      → All IsBlank before
      → IsNumber number
      → All IsBlank after
      → All (λ (c : ℕ). c ≢ b'\n') (excerpt before number after source)
      → convert has_variable nest (record failure {
        rendered = top ++ (b'\n' ∷ (excerpt before number after source ++ (b'\n' ∷ bottom)));
      })
        ≡ convert has_variable nest (record failure { rendered = top ++ (b'\n' ∷ bottom) })
  unfolding convert translate
  convert-excerpt failure top bottom before number after source b n a one_line =
      ap
        (λ text.
          with_origin
            (refine_env has_variable (origin_or_unknown failure.metadata)
              (error_path failure.kind failure.path) nest)
            (prepend_all (error_path failure.kind failure.path)
              (Error.new (kind_of_error failure.kind failure.path) text)))
        (message_of-excerpt failure.kind
          (top ++ (b'\n' ∷ (excerpt before number after source ++ (b'\n' ∷ bottom))))
          (top ++ (b'\n' ∷ bottom))
          (without_quoted_source-excerpt top bottom before number after source b n a one_line))
