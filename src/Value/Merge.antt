-- ===== src/Value/Merge.antt =====
-- `Value::merge` against a description key by key, and what follows from it.
use dynamic_config.Prelude.{Option, none, some, ◌≡◌, refl, arith, ap, ◌∙◌}
use dynamic_config.Prelude.Text.{Text, eq_of_cmp}
use dynamic_config.Tree.{Tree, Table, leaf, array, table, end, entry, get, insert}
use dynamic_config.Tree.Laws.{IsSorted, get-insert, get-Above, table_ext}
use dynamic_config.Value.{merge, merge_into}
use dynamic_config.Value.WellFormed.{
  IsWellFormed, get-IsWellFormed, ValuesWellFormed, merge-IsWellFormed,
}

module _ {L : Type 0} where
  -- What a key holds after a merge, from what the two sides hold.
  abbrev pub merged : Option (Tree L) → Option (Tree L) → Option (Tree L)
  merged old none = old
  merged none (some v) = some v
  merged (some old) (some v) = some (merge old v)

  -- A merge of a table with one in key order reads, at each key, as the merge of what the two hold
  -- there: the overlay's entry where the base has none, the base's where the overlay has none.
  pub get-merge_into :
      (b o : Table L) (q : Text) → IsSorted o → get (merge_into b o) q ≡ merged (get b q) (get o q)
  unfolding merge get
  get-merge_into b end q s = refl
  get-merge_into b (entry k v rest) q s =
      let x : Tree L = elim (get b k) [ none ↦ v | some old ↦ merge old v ] in
      ground (
        arith,
        get-insert k x b q,
        get-merge_into (insert k x b) rest q s.1,
        get-Above rest k s.0,
        eq_of_cmp q k,
      )

  mutual
    unfolding merge get

    idem : (v : Tree L) → IsWellFormed v → merge v v ≡ v
    idem (leaf s) w = refl
    idem (array xs) w = refl
    idem (table t) w = ap table (
        table_ext (merge_into t t) t (merge-IsWellFormed (table t) (table t) w w).0 w.0
          (λ q. get-merge_into t t q w.0 ∙ same_below t w.1 (get t q) q refl))

    same_below :
        (t : Table L)
        → ValuesWellFormed t
        → (o : Option (Tree L)) (q : Text) → get t q ≡ o
        → merged o o ≡ o
    same_below t w none q e = refl
    same_below end w (some x) q e = cc
    same_below (entry k v rest) w (some x) q e =
        ground (arith, idem v w.0, same_below rest w.1 (some x) q)

  -- Merging a well-formed tree over itself changes nothing.
  pub merge_self : (v : Tree L) → IsWellFormed v → merge v v ≡ v
  merge_self v w = idem v w

  mutual
    unfolding merge get

    absorb : (a v : Tree L) → IsWellFormed a → IsWellFormed v → merge (merge a v) v ≡ merge a v
    absorb a (leaf s) wa w = refl
    absorb a (array xs) wa w = refl
    absorb (leaf s) (table o) wa w = idem (table o) w
    absorb (array xs) (table o) wa w = idem (table o) w
    absorb (table t) (table o) wa w =
        let once : IsWellFormed (merge (table t) (table o)) =
          merge-IsWellFormed (table t) (table o) wa w in
        ap table (
          table_ext (merge_into (merge_into t o) o) (merge_into t o)
            (merge-IsWellFormed (merge (table t) (table o)) (table o) once w).0 once.0
            (λ q.
              simp (get-merge_into, w.0)
                (absorb_below o w.1 q (get t q) (λ b e. get-IsWellFormed t q b wa.1 e) (get o q)
                  refl)))

    -- Two merges of one overlay read as one, at a key.
    absorb_below :
        (o : Table L)
        → ValuesWellFormed o
        → (q : Text) (x : Option (Tree L)) → ((b : Tree L) → x ≡ some b → IsWellFormed b)
        → (y : Option (Tree L)) → get o q ≡ y
        → merged (merged x y) y ≡ merged x y
    absorb_below o w q x wx none e = refl
    absorb_below o w q none wx (some v) e = same_below o w (some v) q e
    absorb_below end w q (some b) wx (some v) e = cc
    absorb_below (entry k u rest) w q (some b) wx (some v) e =
        ground (arith, absorb b u (wx b refl) w.0, absorb_below rest w.1 q (some b) wx (some v))

  -- A second merge of the same overlay changes nothing, if both trees are well formed.
  pub merge-merge_self :
      (a v : Tree L) → IsWellFormed a → IsWellFormed v → merge (merge a v) v ≡ merge a v
  merge-merge_self a v wa w = absorb a v wa w
