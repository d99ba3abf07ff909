-- ===== src/Units/Loop.antt =====
-- The loop of `duration::parse` ends, whatever the text, and what it returns fits a `Duration`.
use dynamic_config.Prelude.{
  ℕ, zero, suc, Bool, some, [], ◌∷◌, ◌+◌, ◌<◌, ◌≤◌, ◌≡◌, refl, arith, length, is_empty, inl, inr,
  Bool-cases,
}
use dynamic_config.Prelude.Text.{Text, codes}
use dynamic_config.Prelude.Str.{trim, trim_start, trim_end, is_ascii_digit, trim_end_cons}
use dynamic_config.Prelude.Results.{Result, ok, err}
use dynamic_config.Units.{
  span, split_unit, add_duration, parse_component, parse_loop, parse_duration, duration_mod,
  not_digit,
}

length-trim_start : (s : Text) → length (trim_start s) ≤ length s
unfolding trim_start
length-trim_start [] = omega arith
length-trim_start (c ∷ cs) = ground (arith, length-trim_start cs)

length-trim_end_cons : (c : ℕ) (s : Text) → length (trim_end_cons c s) ≤ length s + 1
unfolding trim_end_cons
length-trim_end_cons c [] = ground arith
length-trim_end_cons c (d ∷ ds) = omega arith

length-trim_end : (s : Text) → length (trim_end s) ≤ length s
unfolding trim_end
length-trim_end [] = omega arith
length-trim_end (c ∷ cs) = omega (arith, length-trim_end_cons c (trim_end cs), length-trim_end cs)

length-trim : (s : Text) → length (trim s) ≤ length s
unfolding trim
length-trim s = omega (arith, length-trim_start s, length-trim_end (trim_start s))

length-span : (p : ℕ → Bool) (s : Text) → length (span p s).0 + length (span p s).1 ≡ length s
unfolding span
length-span p [] = omega arith
length-span p (c ∷ cs) = ground (arith, length-span p cs)

split_unit_shorter :
    (s : Text) (value : ℕ) (tail : Text) → split_unit s ≡ ok (value, tail) → length tail < length s
unfolding split_unit
split_unit_shorter s value tail h = ground (
  arith,
  length-trim s,
  length-span is_ascii_digit (trim s),
  length-trim (span is_ascii_digit (trim s)).1,
)

parse_component_shorter :
    (total : ℕ) (s : Text) (total' : ℕ) (rest : Text)
    → parse_component total s ≡ ok (total', rest)
    → (length rest < length s) × (total' < duration_mod)
unfolding parse_component add_duration
parse_component_shorter total s total' rest h = from (split_unit s) refl
  where
    from :
        (r : Result Text (ℕ × Text))
        → split_unit s ≡ r
        → (length rest < length s) × (total' < duration_mod)
    from (err e) q = absurd (ground (arith, h, q))
    from (ok (value, tail)) q =
        let shorter = split_unit_shorter s value tail q in
        ground (arith, h, q, shorter, length-span not_digit tail)

-- What `duration::parse` may return: an error, or a duration that its type holds.
unfoldable pub Fits : Result Text ℕ → Type 0
Fits (ok d) = d < duration_mod
Fits (err e) = Unit

parse_loop_total :
    (fuel total : ℕ) (s : Text)
    → length s ≤ fuel
    → total < duration_mod
    → (r : Result Text ℕ) × (parse_loop fuel total s ≡ some r) × Fits r
unfolding parse_loop Fits
parse_loop_total fuel total [] b t = (ok total, refl, t)
parse_loop_total zero total (c ∷ cs) b t = absurd (omega arith)
parse_loop_total (suc fuel) total (c ∷ cs) b t =
    step (parse_component total (c ∷ cs)) refl (λ total' rest. parse_loop_total fuel total' rest)
  where
    step :
        (m : Result Text (ℕ × Text))
        → parse_component total (c ∷ cs) ≡ m
        → ((total' : ℕ) (rest : Text)
            → length rest ≤ fuel
            → total' < duration_mod
            → (r : Result Text ℕ) × (parse_loop fuel total' rest ≡ some r) × Fits r)
        → (r : Result Text ℕ) × (parse_loop (suc fuel) total (c ∷ cs) ≡ some r) × Fits r
    step (err e) q ih = (err e, rw (q, parse_loop), tt)
    step (ok (total', rest)) q ih =
        let (shorter, fits) = parse_component_shorter total (c ∷ cs) total' rest q in
        let (r, done, within) = ih total' rest (omega arith) fits in
        (r, rw (q, parse_loop) done, within)

-- The parser returns on every text, and what it returns is an error or a duration that a
-- `Duration` holds.
parse_duration_total : (text : Text) → (r : Result Text ℕ) × (parse_duration text ≡ some r) × Fits r
unfolding parse_duration Fits
parse_duration_total text = elim (Bool-cases (is_empty (trim text))) [
  | inl e ↦ (err (codes "an empty string is not a duration"), rw e refl, tt)
  | inr e ↦
      let (r, done, within) =
        parse_loop_total (length (trim text)) 0 (trim text) (omega arith) (omega arith) in
      (r, rw e done, within)
]
