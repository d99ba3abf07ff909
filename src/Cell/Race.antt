-- ===== src/Cell/Race.antt =====
-- Several calls of `store_with` that overlap: each thread makes its atomic steps in order, and a
-- schedule says which thread moves next. The compare-and-swap of the metadata numbers an install
-- and publishes the number in one step.
pub mod Consistent
use dynamic_config.Reload.{ReloadReason}
use dynamic_config.Cell.{ConfigCell, generation, store_with}
use dynamic_config.Prelude.{
  map, ℕ, zero, suc, Option, none, some, List, [], ◌∷◌, ◌+◌, ◌≤◌, ◌≡◌, ◌≢◌, refl, arith, All,
}

-- Where a thread stands in `store_with`.
pub data Phase : Type 0 where
  -- before `get_or_init`, with the snapshot that it installs
  fresh : ℕ → Phase
  -- between `get_or_init` and `swap`
  ready : ℕ → Phase
  -- between `swap` and `rcu`
  swapped : ℕ → Phase
  -- past `rcu`, with the generation that it was given
  numbered : ℕ → ℕ → Phase

-- What the threads share: the slot, and the generation of the metadata (0 for none).
pub record Slot : Type 0 where
  pub inner : Option ℕ
  pub generation : ℕ

-- One atomic step of a thread.
unfoldable pub advance : Phase → Slot → Phase × Slot
advance (fresh a) s =
    (ready a, record s { inner = elim s.inner [ none ↦ some a | some b ↦ some b ] })
advance (ready a) s = (swapped a, record s { inner = some a })
advance (swapped a) s = (numbered a (s.generation + 1), record s { generation = s.generation + 1 })
advance (numbered a g) s = (numbered a g, s)

-- The thread at an index moves.
unfoldable pub move : ℕ → List Phase → Slot → List Phase × Slot
unfolding advance
move i [] s = ([], s)
move zero (p ∷ ps) s = let (q, s') = advance p s in (q ∷ ps, s')
move (suc i) (p ∷ ps) s = let (qs, s') = move i ps s in (p ∷ qs, s')

unfoldable pub schedule : List ℕ → List Phase → Slot → List Phase × Slot
unfolding move
schedule [] ps s = (ps, s)
schedule (i ∷ is) ps s = let (qs, s') = move i ps s in schedule is qs s'

-- How many installs have their number.
abbrev pub numbers : List Phase → ℕ
numbers [] = 0
numbers (numbered a g ∷ ps) = suc (numbers ps)
numbers (_ ∷ ps) = numbers ps

-- Two installs do not have one number.
abbrev pub Differ : Phase → Phase → Type 0
Differ (numbered a g) (numbered b h) = g ≢ h
Differ _ _ = Unit

abbrev pub AllDiffer : List Phase → Type 0
AllDiffer [] = Unit
AllDiffer (p ∷ ps) = All (Differ p) ps × AllDiffer ps

-- A number that was given was published.
abbrev pub Within : ℕ → Phase → Type 0
Within n (numbered a g) = g ≤ n
Within n _ = Unit

pub record IsConsistent (start : ℕ) (ps : List Phase) (s : Slot) : Type 0 where
  pub published : s.generation ≡ start + numbers ps
  pub within : All (Within s.generation) ps
  pub differ : AllDiffer ps

module _ {T : Type 0} where
  -- What the threads share of a cell.
  unfoldable pub slot_of : ConfigCell T → Slot
  unfolding generation
  slot_of c = record {
    inner = elim c.inner [ none ↦ none | some s ↦ some s.address ];
    generation = generation c;
  }

  -- One thread that makes its three steps undisturbed leaves in the slot what `store_with`, run
  -- alone, leaves in its cell, and is given the generation that `store_with` gives.
  pub schedule-store_with :
      (value : T) (reason : ReloadReason) (now : ℕ) (c : ConfigCell T)
      → schedule (0 ∷ 0 ∷ 0 ∷ []) (fresh c.allocated ∷ []) (slot_of c) ≡ (
        numbered c.allocated (generation c + 1) ∷ [],
        slot_of (store_with value reason now c).cell,
      )
  unfolding schedule slot_of store_with generation
  schedule-store_with value reason now c = refl
