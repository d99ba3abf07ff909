-- ===== src/Layer/InsertPath.antt =====
-- `insert_path`: the value is read back at its path, and a path that parts from it reads as before.
use dynamic_config.Prelude.{Option, none, some, List, [], ◌∷◌, ◌≡◌, refl, eq, arith, ap, ◌∙◌}
use dynamic_config.Prelude.Text.{Text, cmp, cmp_refl, eq_of_cmp}
use dynamic_config.Tree.{Tree, Table, leaf, array, table, get, insert}
use dynamic_config.Tree.Laws.{get-insert}
use dynamic_config.Value.{walk}
use dynamic_config.Value.Walk.{walk_from, walk-table}
use dynamic_config.Layer.{nested, insert_segments}

-- The paths part: neither is the beginning of the other.
abbrev pub Diverge : List Text → List Text → Type 0
Diverge [] ts = ⊥
Diverge (s ∷ ss) [] = ⊥
Diverge (s ∷ ss) (t ∷ ts) = elim (cmp s t) [ eq ↦ Diverge ss ts | _ ↦ Unit ]

not-Diverge-nil : (qs : List Text) → ¬ Diverge qs []
not-Diverge-nil [] d = d
not-Diverge-nil (q ∷ qs) d = d

module _ {L : Type 0} where
  get-insert_self : (k : Text) (v : Tree L) (t : Table L) → get (insert k v t) k ≡ some v
  get-insert_self k v t = ground (arith, get-insert k v t k, cmp_refl k)

  -- What was set at a path is read back there, whatever stood in its way.
  pub walk-insert_segments_self :
      (root : Table L) (s : Text) (ss : List Text) (v : Tree L)
      → walk (table (insert_segments root (s ∷ ss) v)) (s ∷ ss) ≡ some v
  unfolding insert_segments
  walk-insert_segments_self root s [] v =
      walk-table (insert s v root) s []
      ∙ ap (λ m. walk_from m []) (get-insert_self s v root)
      ∙ unfold walk in refl
  walk-insert_segments_self root s (t ∷ ss) v =
      let below : Table L = insert_segments (nested (get root s)) (t ∷ ss) v in
      walk-table (insert s (table below) root) s (t ∷ ss)
      ∙ ap (λ m. walk_from m (t ∷ ss)) (get-insert_self s (table below) root)
      ∙ walk-insert_segments_self (nested (get root s)) t ss v

  -- A table made in place of a scalar has nothing below it, as the scalar had.
  walk-nested :
      (m : Option (Tree L)) (q : Text) (qs : List Text)
      → walk (table (nested m)) (q ∷ qs) ≡ walk_from m (q ∷ qs)
  unfolding nested walk get
  walk-nested none q qs = refl
  walk-nested (some (leaf x)) q qs = refl
  walk-nested (some (array x)) q qs = refl
  walk-nested (some (table t)) q qs = refl

  walk-insert :
      (s : Text) (w : Tree L) (root : Table L) (q : Text) (qs : List Text)
      → walk (table (insert s w root)) (q ∷ qs)
        ≡ elim (cmp q s) [ eq ↦ walk w qs | _ ↦ walk (table root) (q ∷ qs) ]
  walk-insert s w root q qs =
      ground (arith, walk-table (insert s w root) q qs, walk-table root q qs, get-insert s w root q)

  -- A path that parts from the one that was set reads what it read before.
  pub walk-insert_segments_ne :
      (root : Table L) (segments qs : List Text) (v : Tree L)
      → Diverge qs segments
      → walk (table (insert_segments root segments v)) qs ≡ walk (table root) qs
  unfolding insert_segments
  walk-insert_segments_ne root [] qs v d = refl
  walk-insert_segments_ne root (s ∷ ss) [] v d = absurd d
  walk-insert_segments_ne root (s ∷ []) (q ∷ qs) v d =
      ground (arith, walk-insert s v root q qs, not-Diverge-nil qs)
  walk-insert_segments_ne root (s ∷ t ∷ ss) (q ∷ []) v d =
      let below : Table L = insert_segments (nested (get root s)) (t ∷ ss) v in
      ground (arith, walk-insert s (table below) root q [])
  walk-insert_segments_ne root (s ∷ t ∷ ss) (q ∷ r ∷ qs) v d =
      let below : Table L = insert_segments (nested (get root s)) (t ∷ ss) v in
      ground (
        arith,
        walk-insert s (table below) root q (r ∷ qs),
        walk-insert_segments_ne (nested (get root s)) (t ∷ ss) (r ∷ qs) v,
        walk-nested (get root s) r qs,
        walk-table root q (r ∷ qs),
        eq_of_cmp q s,
      )
