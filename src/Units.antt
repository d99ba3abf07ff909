-- ===== src/Units.antt =====
-- dynamic-config/src/units.rs: durations and byte counts as text. A `Duration` is its nanoseconds;
-- it holds a `u64` of seconds and a part of one more.
pub mod Loop
pub mod RoundTrip
pub mod Bytes
mod Examples
use dynamic_config.Prelude.{
  ℕ, zero, suc, Bool, true, false, Option, none, some, List, [], ◌∷◌, ◌++◌, ◌+◌, ◌-◌, ◌*◌, ◌/◌, ◌%◌,
  ◌^◌, ltb, ◌==◌, is_empty, map, if◌then◌else◌, length,
}
use dynamic_config.Prelude.Text.{Text, codes, text_eq}
use dynamic_config.Prelude.Str.{trim, is_ascii_digit, to_ascii_lowercase}
use dynamic_config.Prelude.Results.{Result, ok, err, ◌>>=◌}

-- `u64::MAX + 1`
abbrev pub u64_mod : ℕ
u64_mod = 2 ^ 64

abbrev pub second : ℕ
second = 1_000_000_000

abbrev pub milli : ℕ
milli = 1_000_000

-- One more than the nanoseconds of `Duration::MAX`.
abbrev pub duration_mod : ℕ
duration_mod = u64_mod * second

-- The text up to the first character of which `p` is not true, and the rest.
unfoldable pub span : (ℕ → Bool) → Text → Text × Text
span p [] = ([], [])
span p (c ∷ cs) =
    let (head, tail) = span p cs in elim (p c) [ true ↦ (c ∷ head, tail) | false ↦ ([], c ∷ cs) ]

-- The value of decimal digits, read on from `n`.
unfoldable pub digits_value : ℕ → Text → ℕ
digits_value n [] = n
digits_value n (c ∷ cs) = digits_value (n * 10 + (c - b'0')) cs

-- `split_unit`: `parse::<u64>` fails above `u64::MAX` only, since the text is all digits.
unfoldable pub split_unit : Text → Result Text (ℕ × Text)
unfolding span digits_value trim is_ascii_digit
split_unit text =
    let (digits, rest) = span is_ascii_digit (trim text) in
    if is_empty digits
    then err (codes "expected a number first, as in `30s`")
    else if ltb (digits_value 0 digits) u64_mod
    then ok (digits_value 0 digits, trim rest)
    else err (codes "the number is too large for a 64-bit count")

-- `duration::checked`
unfoldable pub checked : ℕ → ℕ → Result Text ℕ
checked value seconds_per_unit =
    if ltb (value * seconds_per_unit) u64_mod
    then ok (value * seconds_per_unit)
    else err (codes "a component overflows a 64-bit second count")

-- The `match` on a component's unit.
unfoldable pub component : Text → ℕ → Result Text ℕ
unfolding checked
component unit value =
    if text_eq unit (codes "ms")
    then ok (value * milli)
    else if text_eq unit (codes "s")
    then ok (value * second)
    else if text_eq unit (codes "m")
    then (do s ← checked value 60; ok (s * second))
    else if text_eq unit (codes "h")
    then (do s ← checked value (60 * 60); ok (s * second))
    else if text_eq unit (codes "d")
    then (do s ← checked value (24 * 60 * 60); ok (s * second))
    else if is_empty unit
    then err (codes "a component has no unit; expected one of ms, s, m, h, d")
    else err (codes "unknown duration unit; expected one of ms, s, m, h, d")

-- `Duration::checked_add`, with the error of its `ok_or_else`.
unfoldable pub add_duration : ℕ → ℕ → Result Text ℕ
add_duration total part =
    if ltb (total + part) duration_mod
    then ok (total + part)
    else err (codes "the total is longer than a `Duration` can hold")

unfoldable pub not_digit : ℕ → Bool
not_digit c = elim (is_ascii_digit c) [ true ↦ false | false ↦ true ]

-- The body of the loop of `duration::parse`: the new total, and what is left to read.
unfoldable pub parse_component : ℕ → Text → Result Text (ℕ × Text)
unfolding split_unit component add_duration not_digit span trim is_ascii_digit
parse_component total rest = do
  (value, tail) ← split_unit rest
  let cut = span not_digit tail
  part ← component (trim cut.0) value
  total' ← add_duration total part
  ok (total', cut.1)

-- The loop, on fuel; `none` means that the fuel ran out.
unfoldable pub parse_loop : (fuel : ℕ) → ℕ → Text → Option (Result Text ℕ)
unfolding parse_component
parse_loop fuel total [] = some (ok total)
parse_loop zero total (c ∷ cs) = none
parse_loop (suc fuel) total (c ∷ cs) = elim (parse_component total (c ∷ cs)) [
  | err e ↦ some (err e)
  | ok (total', rest) ↦ parse_loop fuel total' rest
]

-- `duration::parse`; each round reads a digit at least.
unfoldable pub parse_duration : Text → Option (Result Text ℕ)
unfolding parse_loop trim
parse_duration text =
    let rest = trim text in
    if is_empty rest
    then some (err (codes "an empty string is not a duration"))
    else parse_loop (length rest) 0 rest

-- The decimal digits of a number, most significant first, before `acc`.
unfoldable pub decimal_loop : (fuel : ℕ) → ℕ → Text → Text
decimal_loop zero n acc = acc
decimal_loop (suc fuel) n acc =
    let more = decimal_loop fuel (n / 10) ((b'0' + n % 10) ∷ acc) in
    if ltb n 10 then (b'0' + n) ∷ acc else more

-- A number as `format!` prints it.
unfoldable pub decimal : ℕ → Text
unfolding decimal_loop
decimal n = decimal_loop (suc n) n []

-- `duration::serialize`: the text is `{}ms` of `as_millis`.
unfoldable pub serialize_duration : ℕ → Text
unfolding decimal
serialize_duration d = decimal (d / milli) ++ codes "ms"

-- The `match` of `bytes::parse` on the lower-case unit.
unfoldable pub multiplier : Text → Option ℕ
multiplier unit =
    if is_empty unit
    then some 1
    else if text_eq unit (codes "b")
    then some 1
    else if text_eq unit (codes "k")
    then some (2 ^ 10)
    else if text_eq unit (codes "kib")
    then some (2 ^ 10)
    else if text_eq unit (codes "m")
    then some (2 ^ 20)
    else if text_eq unit (codes "mib")
    then some (2 ^ 20)
    else if text_eq unit (codes "g")
    then some (2 ^ 30)
    else if text_eq unit (codes "gib")
    then some (2 ^ 30)
    else if text_eq unit (codes "t")
    then some (2 ^ 40)
    else if text_eq unit (codes "tib")
    then some (2 ^ 40)
    else if text_eq unit (codes "kb")
    then some 1_000
    else if text_eq unit (codes "mb")
    then some 1_000_000
    else if text_eq unit (codes "gb")
    then some 1_000_000_000
    else if text_eq unit (codes "tb")
    then some 1_000_000_000_000
    else none

-- `bytes::parse`
unfoldable pub parse_bytes : Text → Result Text ℕ
unfolding split_unit multiplier to_ascii_lowercase trim
parse_bytes text = do
  (value, unit) ← split_unit text
  elim (multiplier (map to_ascii_lowercase (trim unit))) [
    | none ↦ err (codes "unknown size unit; expected one of B, KiB, MiB, GiB, TiB, KB, MB, GB, TB")
    | some m ↦
        if ltb (value * m) u64_mod
        then ok (value * m)
        else err (codes "the size overflows a 64-bit byte count")
  ]
