-- ===== src/Value.antt =====
-- dynamic-config/src/value.rs: the resolved configuration tree and the operations on it. The
-- laws of the operations are in the modules below.
pub mod WellFormed
pub mod Walk
pub mod Merge
pub mod Overlap
pub mod Precedence
pub mod Disjoint
mod Examples
use dynamic_config.Prelude.{
  ℕ, Bool, true, false, Option, none, some, List, [], ◌∷◌, ◌++◌, eq, lt, gt, if◌then◌else◌,
  is_empty,
}
use dynamic_config.Prelude.Int.{ℤ, pos, negsuc, fits_i64, fits_u64}
use dynamic_config.Prelude.Text.{Text, cmp, split, join}
use dynamic_config.Tree.{
  Tree, Items, Table, leaf, array, table, nil, cons, end, entry, get, insert, is_end,
}

-- The leaves of `Value`. An `i128` is kept as the integer it stands for, an `f64` as its bits.
pub data Scalar : Type 0 where
  null : Scalar
  bool : Bool → Scalar
  integer : ℤ → Scalar
  float : ℕ → Scalar
  string : Text → Scalar

-- `enum Value`: the first five constructors are the leaves.
abbrev pub Value : Type 0
Value = Tree Scalar

module _ {L : Type 0} where
  unfoldable mutual
    -- `Value::merge`: a table over a table descends, and anything else replaces.
    pub merge : Tree L → Tree L → Tree L
    merge base (leaf s) = leaf s
    merge base (array xs) = array xs
    merge base (table overlay) = elim base [
      | table entries ↦ table (merge_into entries overlay)
      | _ ↦ table overlay
    ]

    -- The loop over the overlay's entries: `Occupied` merges in place, `Vacant` inserts.
    pub merge_into : Table L → Table L → Table L
    merge_into base end = base
    merge_into base (entry k v rest) =
        merge_into (insert k (elim (get base k) [ none ↦ v | some old ↦ merge old v ]) base) rest

  -- One step of the walk: only a table has something below it.
  unfoldable pub step : Tree L → Text → Option (Tree L)
  step (table t) k = get t k
  step v k = none

  -- `try_fold` over the path's steps.
  unfoldable pub walk : Tree L → List Text → Option (Tree L)
  unfolding step
  walk v [] = some v
  walk v (s ∷ ss) = elim (step v s) [ none ↦ none | some w ↦ walk w ss ]

  -- `Value::get`: the empty path is the value itself.
  unfoldable pub get_path : Tree L → Text → Option (Tree L)
  unfolding walk split
  get_path v path = if is_empty path then some v else walk v (split b'.' path)

  unfoldable mutual
    -- `leaves`: the stack of keys is the argument `path`, pushed for the call below.
    pub leaves : Tree L → List Text → List Text → List Text
    leaves (leaf s) path found = found ++ (join (b'.' ∷ []) path ∷ [])
    leaves (array xs) path found = found ++ (join (b'.' ∷ []) path ∷ [])
    leaves (table t) path found =
        if is_end t then found ++ (join (b'.' ∷ []) path ∷ []) else leaves_below t path found

    pub leaves_below : Table L → List Text → List Text → List Text
    leaves_below end path found = found
    leaves_below (entry k v rest) path found =
        leaves_below rest path (leaves v (path ++ (k ∷ [])) found)

  -- `Value::leaf_paths`
  unfoldable pub leaf_paths : Tree L → List Text
  unfolding leaves
  leaf_paths (table t) = leaves_below t [] []
  leaf_paths v = []

  unfoldable mutual
    -- `overlaps`: two tables are compared key by key, and anything else collides.
    pub overlaps : Tree L → Tree L → List Text → List Text → List Text
    overlaps (leaf s) right path found = found ++ (join (b'.' ∷ []) path ∷ [])
    overlaps (array xs) right path found = found ++ (join (b'.' ∷ []) path ∷ [])
    overlaps (table l) right path found = elim right [
      | table r ↦ overlaps_below l r path found
      | _ ↦ found ++ (join (b'.' ∷ []) path ∷ [])
    ]

    pub overlaps_below : Table L → Table L → List Text → List Text → List Text
    overlaps_below end r path found = found
    overlaps_below (entry k v rest) r path found =
        overlaps_below rest r path
          (elim (get r k) [ none ↦ found | some other ↦ overlaps v other (path ++ (k ∷ [])) found ])

-- `paths.sort()`, an insertion sort here.
insert_text : Text → List Text → List Text
insert_text a [] = a ∷ []
insert_text a (b ∷ bs) = elim (cmp a b) [ gt ↦ b ∷ insert_text a bs | _ ↦ a ∷ b ∷ bs ]

unfoldable pub sort : List Text → List Text
unfolding insert_text
sort [] = []
sort (a ∷ rest) = insert_text a (sort rest)

-- `Value::overlapping_paths`
unfoldable pub overlapping_paths : {L : Type 0} → Tree L → Tree L → List Text
unfolding overlaps sort
overlapping_paths left right = sort (overlaps left right [] [])
