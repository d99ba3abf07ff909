-- ===== src/Units/RoundTrip.antt =====
-- What `duration::serialize` writes, `duration::parse` reads back to the millisecond.
use dynamic_config.Prelude.{
  ℕ, zero, suc, true, false, some, [], ◌∷◌, ◌++◌, ◌+◌, ◌*◌, ◌/◌, ◌%◌, ◌<◌, ◌≡◌, refl, arith, ap,
  subst, ◌∙◌, length, ltb, inl, inr, Bool-cases, All, if◌then◌else◌,
}
use dynamic_config.Prelude.Text.{Text, codes, cmp}
use dynamic_config.Prelude.Str.{
  trim, trim_start, trim_end, is_ascii_digit, is_whitespace, trim_end_cons,
}
use dynamic_config.Prelude.Results.{ok, err}
use dynamic_config.Units.{
  span, split_unit, component, add_duration, parse_component, parse_loop, parse_duration,
  digits_value, decimal_loop, decimal, serialize_duration, u64_mod, milli,
}

IsDigit : ℕ → Type 0
IsDigit c = is_ascii_digit c ≡ true

-- Reading on from `acc` the digits of `n` gives what reading `acc` from `n` gives.
digits_value-decimal_loop :
    (fuel n : ℕ) (acc : Text)
    → n < fuel
    → digits_value 0 (decimal_loop fuel n acc) ≡ digits_value n acc
unfolding decimal_loop digits_value
digits_value-decimal_loop zero n acc b = absurd (omega arith)
digits_value-decimal_loop (suc fuel) n acc b = elim (Bool-cases (ltb n 10)) [
  | inl e ↦ rw e (ap (λ v. digits_value v acc) (omega arith))
  | inr e ↦ rw e (
      digits_value-decimal_loop fuel (n / 10) ((b'0' + n % 10) ∷ acc) (ground arith)
      ∙ ap (λ v. digits_value v acc) (omega arith))
]

IsDigit-char : (n : ℕ) → n < 10 → IsDigit (b'0' + n)
unfolding IsDigit is_ascii_digit
IsDigit-char n b = ground arith

decimal_loop-digits :
    (fuel n : ℕ) (acc : Text) → All IsDigit acc → All IsDigit (decimal_loop fuel n acc)
unfolding decimal_loop
decimal_loop-digits zero n acc a = a
decimal_loop-digits (suc fuel) n acc a = elim (Bool-cases (ltb n 10)) [
  | inl e ↦ rw e (IsDigit-char n (ground arith), a)
  | inr e ↦ rw e (
      decimal_loop-digits fuel (n / 10) ((b'0' + n % 10) ∷ acc)
        (IsDigit-char (n % 10) (omega arith), a))
]

-- A number is written with a first digit.
decimal_loop-cons :
    (fuel n : ℕ) (acc : Text) → (c : ℕ) × (cs : Text) × (decimal_loop (suc fuel) n acc ≡ c ∷ cs)
unfolding decimal_loop
decimal_loop-cons zero n acc = elim (Bool-cases (ltb n 10)) [
  | inl e ↦ (b'0' + n, acc, rw e refl)
  | inr e ↦ (b'0' + n % 10, acc, rw e refl)
]
decimal_loop-cons (suc fuel) n acc = elim (Bool-cases (ltb n 10)) [
  | inl e ↦ (b'0' + n, acc, rw e refl)
  | inr e ↦
      let (c, cs, q) = decimal_loop-cons fuel (n / 10) ((b'0' + n % 10) ∷ acc) in (c, cs, rw e q)
]

span-append :
    (xs : Text) (c : ℕ) (cs : Text)
    → All IsDigit xs
    → is_ascii_digit c ≡ false
    → span is_ascii_digit (xs ++ c ∷ cs) ≡ (xs, c ∷ cs)
unfolding span IsDigit
span-append [] c cs a e = ground (arith, e)
span-append (x ∷ xs) c cs a e = ground (arith, a, span-append xs c cs a.1 e)

trim_end-append :
    (xs : Text) (b c : ℕ) → is_whitespace c ≡ false → trim_end (xs ++ b ∷ c ∷ []) ≡ xs ++ b ∷ c ∷ []
unfolding trim_end trim_end_cons
trim_end-append [] b c e = rw e refl
trim_end-append (x ∷ []) b c e = rw e refl
trim_end-append (x ∷ y ∷ ys) b c e = rw (trim_end-append (y ∷ ys) b c e) refl

digit-not_space : (c : ℕ) → IsDigit c → is_whitespace c ≡ false
unfolding IsDigit is_ascii_digit is_whitespace
digit-not_space c h = ground arith

-- Digits followed by `ms` are what a trim leaves alone.
trim-ms :
    (ds : Text) (c : ℕ) (cs : Text)
    → ds ≡ c ∷ cs
    → IsDigit c
    → trim (ds ++ codes "ms") ≡ ds ++ codes "ms"
unfolding trim trim_start
trim-ms ds c cs q h =
    rw (q, digit-not_space c h, trim_start) (trim_end-append (c ∷ cs) b'm' b's' refl)

split_unit-ms :
    (ds : Text) (c : ℕ) (cs : Text)
    → ds ≡ c ∷ cs
    → All IsDigit ds
    → split_unit (ds ++ codes "ms") ≡ (
        if ltb (digits_value 0 ds) u64_mod
        then ok (digits_value 0 ds, codes "ms")
        else err (codes "the number is too large for a 64-bit count"))
unfolding split_unit
split_unit-ms ds c cs q a =
    rw (trim-ms ds c cs q (subst (All IsDigit) q a).0, span-append ds b'm' (codes "s") a refl, q)
      refl

parse_component-ms :
    (n : ℕ) (ds : Text)
    → split_unit (ds ++ codes "ms") ≡ (
        if ltb n u64_mod
        then ok (n, codes "ms")
        else err (codes "the number is too large for a 64-bit count"))
    → parse_component 0 (ds ++ codes "ms") ≡ (
        if ltb n u64_mod
        then ok (n * milli, [])
        else err (codes "the number is too large for a 64-bit count"))
unfolding parse_component component add_duration cmp
parse_component-ms n ds h = elim (Bool-cases (ltb n u64_mod)) [
  | inl e ↦ rw (h, e) (ground arith)
  | inr e ↦ rw (h, e) refl
]

parse_loop-nil : (fuel total : ℕ) → parse_loop fuel total [] ≡ some (ok total)
unfolding parse_loop
parse_loop-nil zero total = refl
parse_loop-nil (suc fuel) total = refl

parse_loop-last :
    (fuel c : ℕ) (cs : Text) (total : ℕ)
    → parse_component 0 (c ∷ cs) ≡ ok (total, [])
    → parse_loop (suc fuel) 0 (c ∷ cs) ≡ some (ok total)
unfolding parse_loop
parse_loop-last fuel c cs total h = rw (h, parse_loop) (parse_loop-nil fuel total)

parse_loop-err :
    (fuel c : ℕ) (cs e : Text)
    → parse_component 0 (c ∷ cs) ≡ err e
    → parse_loop (suc fuel) 0 (c ∷ cs) ≡ some (err e)
unfolding parse_loop
parse_loop-err fuel c cs e h = rw (h, parse_loop) refl

parse_duration-ms :
    (n c : ℕ) (cs : Text)
    → trim (c ∷ cs) ≡ c ∷ cs
    → parse_component 0 (c ∷ cs) ≡ (
        if ltb n u64_mod
        then ok (n * milli, [])
        else err (codes "the number is too large for a 64-bit count"))
    → parse_duration (c ∷ cs) ≡ (
        if ltb n u64_mod
        then some (ok (n * milli))
        else some (err (codes "the number is too large for a 64-bit count")))
unfolding parse_duration parse_loop
parse_duration-ms n c cs t h = elim (Bool-cases (ltb n u64_mod)) [
  | inl e ↦ rw (t, e) (parse_loop-last (length cs) c cs (n * milli) (rw e at h))
  | inr e ↦ rw (t, e) (parse_loop-err (length cs) c cs _ (rw e at h))
]

-- A duration is written as its whole milliseconds. Reading that back gives the duration cut to
-- whole milliseconds, if their count fits a `u64`; from `2 ^ 64` milliseconds on it is an error.
pub parse_duration-serialize_duration :
    (d : ℕ)
    → parse_duration (serialize_duration d) ≡ (
        if ltb (d / milli) u64_mod
        then some (ok (d / milli * milli))
        else some (err (codes "the number is too large for a 64-bit count")))
unfolding parse_duration serialize_duration decimal
parse_duration-serialize_duration d =
    let n = d / milli in
    let digits = decimal n in
    let (c, cs, q) = decimal_loop-cons n n [] in
    let a = decimal_loop-digits (suc n) n [] tt in
    read n digits c cs q a (digits_value-decimal_loop (suc n) n [] (omega arith))
  where
    read :
        (n : ℕ) (ds : Text) (c : ℕ) (cs : Text)
        → ds ≡ c ∷ cs
        → All IsDigit ds
        → digits_value 0 ds ≡ n
        → parse_duration (ds ++ codes "ms") ≡ (
            if ltb n u64_mod
            then some (ok (n * milli))
            else some (err (codes "the number is too large for a 64-bit count")))
    read n ds c cs q a v =
        let t = trim-ms ds c cs q (subst (All IsDigit) q a).0 in
        let h = parse_component-ms n ds (rw (v) at (split_unit-ms ds c cs q a)) in
        rw q (parse_duration-ms n c (cs ++ codes "ms") (rw q at t) (rw q at h))
