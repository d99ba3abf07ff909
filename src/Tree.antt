-- ===== src/Tree.antt =====
-- The tree of a configuration, generic in its leaves: a leaf, a sequence, or a table, which is a
-- `BTreeMap<String, _>` kept as its entries in key order. dynamic-config/src/value.rs and the
-- `figment` values that layer.rs works on are trees of two kinds of leaf.
pub mod Laws
use dynamic_config.Prelude.{Option, none, some, Bool, true, false, lt, eq, gt, List, [], ◌∷◌}
use dynamic_config.Prelude.Text.{Text, cmp}

mutual
  pub data Tree (L : Type 0) : Type 0 where
    leaf : L → Tree L
    array : Items L → Tree L
    table : Table L → Tree L

  pub data Items (L : Type 0) : Type 0 where
    nil : Items L
    cons : Tree L → Items L → Items L

  pub data Table (L : Type 0) : Type 0 where
    end : Table L
    entry : Text → Tree L → Table L → Table L

module _ {L : Type 0} where
  -- `BTreeMap::get`
  unfoldable pub get : Table L → Text → Option (Tree L)
  get end k = none
  get (entry j v rest) k = elim (cmp k j) [ eq ↦ some v | _ ↦ get rest k ]

  -- `BTreeMap::insert`, which replaces the value under an equal key.
  unfoldable pub insert : Text → Tree L → Table L → Table L
  insert k v end = entry k v end
  insert k v (entry j w rest) = elim (cmp k j) [
    | lt ↦ entry k v (entry j w rest)
    | eq ↦ entry k v rest
    | gt ↦ entry j w (insert k v rest)
  ]

  -- `BTreeMap::is_empty`
  abbrev pub is_end : Table L → Bool
  is_end end = true
  is_end (entry k v rest) = false
