-- ===== src/Cell/Hooks.antt =====
-- Registration: tokens are not used twice, and dropping a guard takes away its own hook and no other.
use dynamic_config.Prelude.{
  ℕ, List, [], ◌∷◌, ◌++◌, ◌+◌, ◌%◌, ◌^◌, ◌<◌, ◌≡◌, refl, arith, not, ◌==◌, All, keep, length, ◌∙◌,
  ap, sym,
}
use mathlib.Core.List.{append-nil, append_assoc}
use dynamic_config.Cell.{ConfigCell, Callback, Registered, hooks_of, register, unregister}

-- Every token in the list was handed out before `n`.
abbrev pub Below : ℕ → List Registered → Type 0
Below n hooks = All (λ (r : Registered). r.token < n) hooks

-- The registrations of `callbacks` from the token `n` on.
abbrev pub tagged : ℕ → List Callback → List Registered
tagged n [] = []
tagged n (callback ∷ rest) = record { token = n; callback = callback } ∷ tagged (n + 1) rest

keep-append :
    (t : ℕ) (xs ys : List Registered)
    → keep (λ r. not (r.token == t)) (xs ++ ys)
      ≡ keep (λ r. not (r.token == t)) xs ++ keep (λ r. not (r.token == t)) ys
keep-append t [] ys = refl
keep-append t (x ∷ xs) ys = ground (arith, keep-append t xs ys)

keep-Below : (t : ℕ) (xs : List Registered) → Below t xs → keep (λ r. not (r.token == t)) xs ≡ xs
keep-Below t [] b = refl
keep-Below t (x ∷ xs) b = ground (arith, keep-Below t xs b.1, b.0)

keep-tagged :
    (t n : ℕ) (callbacks : List Callback)
    → t < n
    → keep (λ r. not (r.token == t)) (tagged n callbacks) ≡ tagged n callbacks
keep-tagged t n [] b = refl
keep-tagged t n (x ∷ xs) b = ground (arith, keep-tagged t (n + 1) xs)

module _ {T : Type 0} where
  -- Several registrations, one after the other.
  unfoldable pub register_all : List Callback → ConfigCell T → ConfigCell T
  unfolding register
  register_all [] c = c
  register_all (callback ∷ rest) c = register_all rest (register callback c).0

  hooks-register_all :
      (callbacks : List Callback) (c : ConfigCell T)
      → c.next_token + length callbacks < 2 ^ 64
      → hooks_of (register_all callbacks c) ≡ hooks_of c ++ tagged c.next_token callbacks
  unfolding register_all
  hooks-register_all [] c b = sym (append-nil (hooks_of c))
  hooks-register_all (x ∷ xs) c b =
      let wrap : (c.next_token + 1) % 2 ^ 64 ≡ c.next_token + 1 = omega arith in
      hooks-register_all xs (register x c).0 (omega arith) ∙ rw wrap (append_assoc (hooks_of c) _ _)

  hooks-unregister :
      (t : ℕ) (c : ConfigCell T)
      → hooks_of (unregister t c) ≡ keep (λ r. not (r.token == t)) (hooks_of c)
  unfolding unregister
  hooks-unregister t c = ground arith

  -- If every token in use is below the next one and the tokens do not wrap around: the guard of a
  -- hook, dropped after any number of other registrations, takes that hook out and
  -- leaves the ones before and after it, in their order.
  pub unregister-register :
      (c : ConfigCell T) (callback : Callback) (later : List Callback)
      → Below c.next_token (hooks_of c)
      → c.next_token + 1 + length later < 2 ^ 64
      → hooks_of (unregister (register callback c).1 (register_all later (register callback c).0))
        ≡ hooks_of c ++ tagged (c.next_token + 1) later
  unfolding register
  unregister-register c callback later b h =
      let t : ℕ = c.next_token in
      let c' : ConfigCell T = (register callback c).0 in
      let mine : List Registered = record { token = t; callback = callback } ∷ [] in
      let wrap : (t + 1) % 2 ^ 64 ≡ t + 1 = omega arith in
      let gone : keep (λ r. not (r.token == t)) mine ≡ [] = ground arith in
      let p : ℕ → List Registered = λ n. (hooks_of c ++ mine) ++ tagged n later in
      hooks-unregister t (register_all later c')
      ∙ ap (keep (λ r. not (r.token == t))) (hooks-register_all later c' (omega arith) ∙ ap p wrap)
      ∙ keep-append t (hooks_of c ++ mine) (tagged (t + 1) later)
      ∙ rw (
        keep-append t (hooks_of c) mine,
        keep-Below t (hooks_of c) b,
        keep-tagged t (t + 1) later (omega arith),
        gone,
        append-nil,
      )
