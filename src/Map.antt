-- ===== src/Map.antt =====
-- `BTreeMap<String, V>` as its entries in key order: what layer.rs, aliases.rs and bindings.rs keep
-- their entries in.
pub mod Laws
use dynamic_config.Prelude.{Bool, Option, none, some, List, [], ◌∷◌, lt, eq, gt, Ordering, is_some}
use dynamic_config.Prelude.Text.{Text, cmp}

abbrev pub Map {ℓ} : Type ℓ → Type ℓ
Map V = List (Text × V)

module _ {ℓ} {V : Type ℓ} where
  -- `BTreeMap::get`
  unfoldable pub get : Map V → Text → Option V
  get [] k = none
  get ((j, v) ∷ rest) k = elim (cmp k j) [ eq ↦ some v | _ ↦ get rest k ]

  -- `BTreeMap::insert`
  unfoldable pub insert : Text → V → Map V → Map V
  insert k v [] = (k, v) ∷ []
  insert k v ((j, w) ∷ rest) = elim (cmp k j) [
    | lt ↦ (k, v) ∷ (j, w) ∷ rest
    | eq ↦ (k, v) ∷ rest
    | gt ↦ (j, w) ∷ insert k v rest
  ]

  -- `BTreeMap::remove`
  unfoldable pub remove : Text → Map V → Map V
  remove k [] = []
  remove k ((j, w) ∷ rest) = elim (cmp k j) [ eq ↦ rest | _ ↦ (j, w) ∷ remove k rest ]
