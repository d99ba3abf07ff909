-- ===== src/Aliases/Pass.antt =====
-- The pass over the aliases ends, and leaves no gap that an alias could fill.
use mathlib.Core.List.{append_assoc}
use dynamic_config.Prelude.{
  ℕ, zero, suc, Bool, true, false, Option, none, some, List, [], ◌∷◌, ◌++◌, ◌≡◌, ◌≤◌, ◌<◌, ◌+◌, ◌⊎◌,
  refl, sym, ap, subst, arith, length, inl, inr, if◌then◌else◌, All,
}
use dynamic_config.Prelude.Text.{Text, text_eq_iff}
use dynamic_config.Aliases.{Gaps, Filling, has, try_alias, round, rounds, apply_aliases}

-- How many aliases point at a path that no alias has filled.
abbrev open_ends : List (Text × Text) → List Text → ℕ
open_ends [] filled = 0
open_ends ((from, to) ∷ pairs) filled = (if has to filled then 0 else 1) + open_ends pairs filled

open_ends-cons :
    (pairs : List (Text × Text)) (to : Text) (filled : List Text)
    → open_ends pairs (to ∷ filled) ≤ open_ends pairs filled
unfolding has
open_ends-cons [] to filled = omega arith
open_ends-cons ((from, t) ∷ pairs) to filled = ground (arith, open_ends-cons pairs to filled)

open_ends-fill :
    (before : List (Text × Text)) (from to : Text) (after : List (Text × Text)) (filled : List Text)
    → has to filled ≡ false
    → open_ends (before ++ ((from, to) ∷ after)) (to ∷ filled)
      < open_ends (before ++ ((from, to) ∷ after)) filled
unfolding has
open_ends-fill [] from to after filled h =
    ground (arith, h, (text_eq_iff to to).1 refl, open_ends-cons after to filled)
open_ends-fill ((f, t) ∷ before) from to after filled h =
    ground (arith, open_ends-fill before from to after filled h)

open_ends-le-length :
    (pairs : List (Text × Text)) (filled : List Text) → open_ends pairs filled ≤ length pairs
open_ends-le-length [] filled = omega arith
open_ends-le-length ((from, to) ∷ pairs) filled = ground (arith, open_ends-le-length pairs filled)

module _ {F V : Type 0} (gaps : Gaps F V) where
  -- Nothing is left to fill for an alias.
  abbrev pub IsSettled : Filling F → Text × Text → Type 0
  IsSettled s (from, to) =
      (has to s.filled ≡ true)
      ⊎ (gaps.supplied s.figment to ≡ true)
      ⊎ (gaps.value_at s.figment from ≡ none)

  -- One alias either fills its path, which was not filled, or changes nothing and is settled.
  try_alias-cases :
      (from to : Text) (s : Filling F)
      → ((has to s.filled ≡ false)
          × ((try_alias gaps from to s).filled ≡ to ∷ s.filled)
          × ((try_alias gaps from to s).progressed ≡ true))
        ⊎ ((try_alias gaps from to s ≡ s) × IsSettled s (from, to))
  unfolding try_alias
  try_alias-cases from to s =
      at (has to s.filled) refl (gaps.supplied s.figment to) refl (gaps.value_at s.figment from)
        refl
    where
      at :
          (h : Bool)
          → has to s.filled ≡ h
          → (p : Bool) → gaps.supplied s.figment to ≡ p
          → (v : Option V) → gaps.value_at s.figment from ≡ v
          → ((has to s.filled ≡ false)
              × ((try_alias gaps from to s).filled ≡ to ∷ s.filled)
              × ((try_alias gaps from to s).progressed ≡ true))
            ⊎ ((try_alias gaps from to s ≡ s) × IsSettled s (from, to))
      at true q p r v w = inr (ground (arith, q), inl q)
      at false q true r v w = inr (ground (arith, q, r), inr (inl r))
      at false q false r none w = inr (ground (arith, q, r, w), inr (inr w))
      at false q false r (some value) w = inl (q, ground (arith, q, r, w), ground (arith, q, r, w))

  round-le :
      (all pairs : List (Text × Text)) (s : Filling F)
      → (open_ends all (round gaps pairs s).filled ≤ open_ends all s.filled)
        × (s.progressed ≡ true → (round gaps pairs s).progressed ≡ true)
  unfolding round
  round-le all [] s = (omega arith, (λ p. p))
  round-le all ((from, to) ∷ pairs) s =
      let next = try_alias gaps from to s in
      let (fewer, keeps) = round-le all pairs next in
      elim (try_alias-cases from to s) [
        | inl (h, f, p) ↦
            let shrinks = open_ends-cons all to s.filled in
            let filled : open_ends all next.filled ≡ open_ends all (to ∷ s.filled) =
              ap (open_ends all) f in
            (omega (arith, fewer, shrinks, filled), (λ q. keeps p))
        | inr (e, settled) ↦
            let same : open_ends all next.filled ≡ open_ends all s.filled =
              ap (λ (w : Filling F). open_ends all w.filled) e in
            (
              omega (arith, fewer, same),
              (λ q. keeps (subst (λ (w : Filling F). w.progressed ≡ true) (sym e) q)),
            )
      ]

  -- A round that fills nothing finds every alias settled, and any other leaves less to fill.
  round-cases :
      (before pairs : List (Text × Text)) (s : Filling F)
      → ((round gaps pairs s ≡ s) × All (IsSettled s) pairs)
        ⊎ (((round gaps pairs s).progressed ≡ true)
            × (open_ends (before ++ pairs) (round gaps pairs s).filled
                < open_ends (before ++ pairs) s.filled))
  unfolding round
  round-cases before [] s = inl (refl, tt)
  round-cases before ((from, to) ∷ pairs) s = elim (try_alias-cases from to s) [
    | inl (h, f, p) ↦
        let next = try_alias gaps from to s in
        let all : List (Text × Text) = before ++ ((from, to) ∷ pairs) in
        let (fewer, keeps) = round-le all pairs next in
        let shrinks = open_ends-fill before from to pairs s.filled h in
        let filled : open_ends all next.filled ≡ open_ends all (to ∷ s.filled) =
          ap (open_ends all) f in
        inr (keeps p, omega (arith, fewer, shrinks, filled))
    | inr (e, settled) ↦
        let shape : round gaps ((from, to) ∷ pairs) s ≡ round gaps pairs s =
          ap (round gaps pairs) e in
        elim (round-cases (before ++ ((from, to) ∷ [])) pairs s) [
          | inl (same, later) ↦ inl (rw shape same, (settled, later))
          | inr (p, less) ↦
              let regroup = append_assoc before ((from, to) ∷ []) pairs in
              inr (rw shape p, rw shape (rw regroup at less))
        ]
  ]

  rounds_total :
      (fuel : ℕ) (pairs : List (Text × Text)) (f : F) (filled : List Text)
      → open_ends pairs filled < fuel
      → (s : Filling F) × (rounds gaps fuel pairs f filled ≡ some s) × All (IsSettled s) pairs
  unfolding rounds
  rounds_total zero pairs f filled h = absurd (omega arith)
  rounds_total (suc fuel) pairs f filled h =
      at (round gaps pairs (first)) refl (round-cases [] pairs first)
        (λ (s : Filling F). rounds_total fuel pairs s.figment s.filled)
    where
      first : Filling F
      first = record { figment = f; filled = filled; progressed = false }

      at :
          (r : Filling F)
          → round gaps pairs first ≡ r
          → ((round gaps pairs first ≡ first) × All (IsSettled first) pairs)
            ⊎ (((round gaps pairs first).progressed ≡ true)
                × (open_ends pairs (round gaps pairs first).filled < open_ends pairs filled))
          → ((s : Filling F)
              → open_ends pairs s.filled < fuel
              → (t : Filling F) × (rounds gaps fuel pairs s.figment s.filled ≡ some t)
                × All (IsSettled t) pairs)
          → (s : Filling F) × (rounds gaps (suc fuel) pairs f filled ≡ some s)
            × All (IsSettled s) pairs
      at r q (inl (e, settled)) ih = (first, ground (arith, e), settled)
      at r q (inr (p, less)) ih =
          let (t, runs, settled) = ih (round gaps pairs first) (omega (arith, less, h)) in
          (t, rw (p, rounds) runs, settled)

  -- The pass over the aliases ends within one round more than there are aliases, whatever figment
  -- answers. Then no alias has a gap left to fill: its new path was filled by an alias, or something
  -- above the defaults supplies it, or there is no value at its old path.
  pub apply_aliases_total :
      (pairs : List (Text × Text)) (f : F)
      → (s : Filling F) × (apply_aliases gaps pairs f ≡ some s) × All (IsSettled s) pairs
  unfolding apply_aliases
  apply_aliases_total pairs f =
      rounds_total (length pairs + 1) pairs f [] (omega (arith, open_ends-le-length pairs []))
