-- ===== src/Aliases/Acyclic.antt =====
-- `add` keeps the aliases free of cycles, and its loop ends.
use dynamic_config.Prelude.{
  ℕ, zero, suc, Bool, true, false, Option, none, some, ◌≡◌, ◌≢◌, ◌≤◌, ◌<◌, ◌+◌, refl, sym, arith,
  if◌then◌else◌, length, Bool-cases, inl, inr, ltb, ◌||◌,
}
use dynamic_config.Prelude.Text.{Text, cmp_refl, eq_of_cmp, text_eq, text_eq_iff}
use dynamic_config.Prelude.Results.{Result, ok, err, ◌>>◌}
use dynamic_config.Error.{Error}
use dynamic_config.Map.{Map, get, insert}
use dynamic_config.Map.Laws.{get-insert}
use dynamic_config.Aliases.{
  add, check_alias, comes_back, check_old_path, qualified, itself, closes_cycle,
}
use dynamic_config.Layer.{check_path, section}
use dynamic_config.Prelude.Str.{contains}

-- The chain of renames from a path comes to a path that has no alias.
pub data Ends (m : Map Text) : Text → Type 0 where
  last : {k : Text} → get m k ≡ none → Ends m k
  hop : {k j : Text} → get m k ≡ some j → Ends m j → Ends m k

-- Every chain ends: there is no cycle.
pub record IsAcyclic (m : Map Text) : Type 0 where
  pub ends : (k : Text) → Ends m k

comes_back-Ends :
    (fuel : ℕ) (m : Map Text) (from to cursor : Text) (hops : ℕ)
    → comes_back fuel m from cursor hops ≡ some false
    → cursor ≢ from
    → Ends (insert from to m) cursor
unfolding comes_back
comes_back-Ends zero m from to cursor hops h d = absurd (cc)
comes_back-Ends (suc fuel) m from to cursor hops h d =
    at (get m cursor) refl (λ next. comes_back-Ends fuel m from to next (hops + 1))
  where
    kept : get (insert from to m) cursor ≡ get m cursor
    kept = ground (arith, get-insert from to m cursor, eq_of_cmp cursor from, d)

    at :
        (o : Option Text)
        → get m cursor ≡ o
        → ((next : Text)
            → comes_back fuel m from next (hops + 1) ≡ some false
            → next ≢ from
            → Ends (insert from to m) next)
        → Ends (insert from to m) cursor
    at none q ih = last (ground (arith, kept, q))
    at (some next) q ih = hop (ground (arith, kept, q)) (ih next (goes_on next q) (other next q))
      where
        goes_on :
            (next : Text)
            → get m cursor ≡ some next
            → comes_back fuel m from next (hops + 1) ≡ some false
        goes_on next q = ground (arith, h, q)

        other : (next : Text) → get m cursor ≡ some next → next ≢ from
        other next q e = ground (arith, h, q, (text_eq_iff next from).1 e)

Ends-insert :
    (m : Map Text) (from to k : Text)
    → Ends (insert from to m) to
    → Ends m k
    → Ends (insert from to m) k
Ends-insert m from to k t (last q) = elim (Bool-cases (text_eq k from)) [
  | inl same ↦ hop (at_from ((text_eq_iff k from).0 same)) t
  | inr other ↦ last (ground (arith, get-insert from to m k, q, other))
]
  where
    at_from : k ≡ from → get (insert from to m) k ≡ some to
    at_from e = ground (arith, get-insert from to m k, e, cmp_refl from)
Ends-insert m from to k t (hop {j} q later) = elim (Bool-cases (text_eq k from)) [
  | inl same ↦ hop (at_from ((text_eq_iff k from).0 same)) t
  | inr other ↦
      hop (ground (arith, get-insert from to m k, q, other)) (Ends-insert m from to j t later)
]
  where
    at_from : k ≡ from → get (insert from to m) k ≡ some to
    at_from e = ground (arith, get-insert from to m k, e, cmp_refl from)

-- The last step of a chain that passed has passed.
last_passed : (a b c d : Result Error (Unit {0})) → (a >> (b >> (c >> d))) ≡ ok tt → d ≡ ok tt
last_passed (ok u) (ok v) (ok w) d h = h
last_passed (err e) b c d h = absurd (cc)
last_passed (ok u) (err e) c d h = absurd (cc)
last_passed (ok u) (ok v) (err e) d h = absurd (cc)

check_alias-ne : (from to : Text) → check_alias from to ≡ ok tt → to ≢ from
unfolding check_alias
check_alias-ne from to h e =
    let differ =
      last_passed (check_old_path from) (if contains to section then err (qualified to) else ok tt)
        (check_path to) (if text_eq from to then err (itself from) else ok tt) h in
    ground (arith, differ, (text_eq_iff from to).1 (sym e))

-- An alias that is added is the new one of its old path, leaves the others, and keeps the aliases
-- free of cycles.
pub add-IsAcyclic :
    (from to : Text) (m n : Map Text)
    → IsAcyclic m
    → add from to m ≡ some (ok n)
    → (n ≡ insert from to m) × IsAcyclic n
unfolding add check_alias
add-IsAcyclic from to m n a h =
    at (check_alias from to) refl (comes_back (length m + 3) m from to 0) refl
  where
    chain :
        comes_back (length m + 3) m from to 0 ≡ some false
        → to ≢ from
        → n ≡ insert from to m
        → IsAcyclic n
    chain c d e =
        let ends = comes_back-Ends (length m + 3) m from to to 0 c d in
        rw e (record { ends = λ k. Ends-insert m from to k ends (a.ends k) })

    at :
        (r : Result Error (Unit {0}))
        → check_alias from to ≡ r
        → (o : Option Bool) → comes_back (length m + 3) m from to 0 ≡ o
        → (n ≡ insert from to m) × IsAcyclic n
    at (err e) q o c = absurd (ground (arith, h, q))
    at (ok u) q none c = absurd (ground (arith, h, q, c))
    at (ok u) q (some true) c = absurd (ground (arith, h, q, c))
    at (ok u) q (some false) c =
        let same : n ≡ insert from to m = ground (arith, h, q, c) in
        (same, chain c (check_alias-ne from to q) same)

comes_back_total :
    (fuel : ℕ) (m : Map Text) (from cursor : Text) (hops : ℕ)
    → length m + 2 < fuel + hops
    → hops ≤ length m + 1
    → comes_back fuel m from cursor hops ≢ none
unfolding comes_back
comes_back_total zero m from cursor hops f b h = absurd (omega arith)
comes_back_total (suc fuel) m from cursor hops f b h =
    at (get m cursor) refl (λ next. comes_back_total fuel m from next (hops + 1))
  where
    at :
        (o : Option Text)
        → get m cursor ≡ o
        → ((next : Text)
            → length m + 2 < fuel + (hops + 1)
            → hops + 1 ≤ length m + 1
            → comes_back fuel m from next (hops + 1) ≢ none)
        → ⊥
    at none q ih = absurd (ground (arith, h, q))
    at (some next) q ih = elim (Bool-cases (text_eq next from || ltb (length m) hops)) [
      | inl stop ↦ absurd (ground (arith, h, q, stop))
      | inr on ↦ ih next (omega arith) (ground (arith, on)) (ground (arith, h, q, on))
    ]

-- The loop of `add` gives up by itself: its fuel never runs out, whatever the aliases are.
add_total :
    (from to : Text) (m : Map Text) → (r : Result Error (Map Text)) × (add from to m ≡ some r)
unfolding add
add_total from to m = at (check_alias from to) refl (comes_back (length m + 3) m from to 0) refl
  where
    at :
        (r : Result Error (Unit {0}))
        → check_alias from to ≡ r
        → (o : Option Bool) → comes_back (length m + 3) m from to 0 ≡ o
        → (a : Result Error (Map Text)) × (add from to m ≡ some a)
    at (err e) q o c = (err e, ground (arith, q))
    at (ok u) q none c =
        absurd (comes_back_total (length m + 3) m from to 0 (omega arith) (omega arith) c)
    at (ok u) q (some true) c = (err (closes_cycle from to), ground (arith, q, c))
    at (ok u) q (some false) c = (ok (insert from to m), ground (arith, q, c))
