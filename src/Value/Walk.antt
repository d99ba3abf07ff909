-- ===== src/Value/Walk.antt =====
-- The walk of `Value::get` down a path, one step at a time.
use dynamic_config.Prelude.{Option, none, some, List, ◌∷◌, ◌≡◌, arith}
use dynamic_config.Prelude.Text.{Text}
use dynamic_config.Tree.{Tree, Table, table, get}
use dynamic_config.Value.{step, walk}

module _ {L : Type 0} where
  -- The rest of a walk after a step.
  abbrev pub walk_from : Option (Tree L) → List Text → Option (Tree L)
  walk_from none ss = none
  walk_from (some v) ss = walk v ss

  pub walk-cons :
      (v : Tree L) (s : Text) (ss : List Text) → walk v (s ∷ ss) ≡ walk_from (step v s) ss
  unfolding walk
  walk-cons v s ss = ground arith

  pub walk-table :
      (t : Table L) (s : Text) (ss : List Text) → walk (table t) (s ∷ ss) ≡ walk_from (get t s) ss
  unfolding walk
  walk-table t s ss = ground arith
