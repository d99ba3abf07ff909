-- ===== src/Value/WellFormed.antt =====
-- Every table of a tree is in key order with no key twice, as a `BTreeMap` is; `merge` keeps that.
use dynamic_config.Prelude.{some, ◌≡◌, arith, Option-cases, inl, inr}
use dynamic_config.Prelude.Text.{Text}
use dynamic_config.Tree.{Tree, Table, leaf, array, table, end, entry, get, insert}
use dynamic_config.Tree.Laws.{IsSorted, insert-IsSorted}
use dynamic_config.Value.{merge, merge_into}

module _ {L : Type 0} where
  abbrev mutual
    pub IsWellFormed : Tree L → Type 0
    IsWellFormed (leaf s) = Unit
    IsWellFormed (array xs) = Unit
    IsWellFormed (table t) = IsSorted t × ValuesWellFormed t

    pub ValuesWellFormed : Table L → Type 0
    ValuesWellFormed end = Unit
    ValuesWellFormed (entry k v rest) = IsWellFormed v × ValuesWellFormed rest

  pub get-IsWellFormed :
      (t : Table L) (k : Text) (v : Tree L) → ValuesWellFormed t → get t k ≡ some v → IsWellFormed v
  unfolding get
  get-IsWellFormed end k v w h = absurd (ground arith)
  get-IsWellFormed (entry j x rest) k v w h = ground (arith, get-IsWellFormed rest k v w.1)

  pub insert-ValuesWellFormed :
      (k : Text) (v : Tree L) (t : Table L)
      → IsWellFormed v
      → ValuesWellFormed t
      → ValuesWellFormed (insert k v t)
  unfolding insert
  insert-ValuesWellFormed k v end w s = (w, tt)
  insert-ValuesWellFormed k v (entry j x rest) w s =
      ground (arith, insert-ValuesWellFormed k v rest)

  mutual
    unfolding merge

    merge_keeps : (b o : Tree L) → IsWellFormed b → IsWellFormed o → IsWellFormed (merge b o)
    merge_keeps b (leaf s) wb wo = tt
    merge_keeps b (array xs) wb wo = tt
    merge_keeps (leaf s) (table o) wb wo = wo
    merge_keeps (array xs) (table o) wb wo = wo
    merge_keeps (table b) (table o) wb wo = merge_into_keeps b o wb wo.1

    merge_into_keeps :
        (b o : Table L)
        → IsWellFormed (table b)
        → ValuesWellFormed o
        → IsWellFormed (table (merge_into b o))
    merge_into_keeps b end wb wo = wb
    merge_into_keeps b (entry k v rest) wb wo = elim (Option-cases (get b k)) [
      | inl e ↦
          rw (e, merge_into)
            (merge_into_keeps (insert k v b) rest
              (insert-IsSorted k v b wb.0, insert-ValuesWellFormed k v b wo.0 wb.1) wo.1)
      | inr (old, e) ↦
          rw (e, merge_into)
            (merge_into_keeps (insert k (merge old v) b) rest
              (
                insert-IsSorted k (merge old v) b wb.0,
                insert-ValuesWellFormed k (merge old v) b
                    (merge_keeps old v (get-IsWellFormed b k old wb.1 e) wo.0) wb.1,
              )
              wo.1)
    ]

  -- A merge of well-formed trees is well formed.
  pub merge-IsWellFormed :
      (b o : Tree L) → IsWellFormed b → IsWellFormed o → IsWellFormed (merge b o)
  merge-IsWellFormed b o wb wo = merge_keeps b o wb wo
