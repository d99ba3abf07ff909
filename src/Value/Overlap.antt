-- ===== src/Value/Overlap.antt =====
-- `overlaps` finds nothing exactly where two trees share no leaf, and such trees merge to the same
-- tree in either order.
use dynamic_config.Prelude.{
  Option, none, some, List, [], ◌∷◌, ◌++◌, ◌≡◌, refl, arith, Option-cases, inl, inr, ap, ◌∙◌, sym,
  ◌↔◌,
}
use dynamic_config.Prelude.Text.{Text, eq_of_cmp}
use dynamic_config.Tree.{Tree, Table, leaf, array, table, end, entry, get}
use dynamic_config.Tree.Laws.{table_ext}
use dynamic_config.Value.{
  merge, merge_into, overlaps, overlaps_below, overlapping_paths, sort, insert_text,
}
use dynamic_config.Value.WellFormed.{
  IsWellFormed, ValuesWellFormed, get-IsWellFormed, merge-IsWellFormed,
}
use dynamic_config.Value.Merge.{merged, get-merge_into}

snoc-ne-nil : (xs : List Text) (x : Text) → xs ++ (x ∷ []) ≡ [] → ⊥
snoc-ne-nil [] x h = cc
snoc-ne-nil (y ∷ ys) x h = cc

insert_text-ne-nil : (a : Text) (xs : List Text) → insert_text a xs ≡ [] → ⊥
unfolding insert_text
insert_text-ne-nil a [] h = cc
insert_text-ne-nil a (b ∷ bs) h = ground arith

sort-eq-nil : (xs : List Text) → sort xs ≡ [] → xs ≡ []
unfolding sort
sort-eq-nil [] h = refl
sort-eq-nil (x ∷ xs) h = absurd (insert_text-ne-nil x (sort xs) h)

module _ {L : Type 0} where
  abbrev mutual
    -- Two tables whose shared keys hold disjoint tables.
    pub Disjoint : Tree L → Tree L → Type 0
    Disjoint (leaf s) b = ⊥
    Disjoint (array xs) b = ⊥
    Disjoint (table t) b = elim b [ table u ↦ DisjointBelow t u | _ ↦ ⊥ ]

    pub DisjointBelow : Table L → Table L → Type 0
    DisjointBelow end u = Unit
    DisjointBelow (entry k v rest) u =
        elim (get u k) [ none ↦ Unit | some w ↦ Disjoint v w ] × DisjointBelow rest u

  mutual
    unfolding overlaps

    overlaps-nil :
        (a b : Tree L) (path found : List Text)
        → overlaps a b path found ≡ []
        → (found ≡ []) × Disjoint a b
    overlaps-nil (leaf s) b path found h = absurd (snoc-ne-nil found _ h)
    overlaps-nil (array xs) b path found h = absurd (snoc-ne-nil found _ h)
    overlaps-nil (table t) (leaf s) path found h = absurd (snoc-ne-nil found _ h)
    overlaps-nil (table t) (array xs) path found h = absurd (snoc-ne-nil found _ h)
    overlaps-nil (table t) (table u) path found h = overlaps_below-nil t u path found h

    overlaps_below-nil :
        (t u : Table L) (path found : List Text)
        → overlaps_below t u path found ≡ []
        → (found ≡ []) × DisjointBelow t u
    overlaps_below-nil end u path found h = (h, tt)
    overlaps_below-nil (entry k v rest) u path found h = elim (Option-cases (get u k)) [
      | inl e ↦
          let r = overlaps_below-nil rest u path found (rw (e, overlaps) at h) in
          (r.0, (rw e tt, r.1))
      | inr (w, e) ↦
          let r =
            overlaps_below-nil rest u path (overlaps v w (path ++ (k ∷ [])) found)
              (rw (e, overlaps) at h) in
          let q = overlaps-nil v w (path ++ (k ∷ [])) found r.0 in (q.0, (rw e q.1, r.1))
    ]

  mutual
    unfolding overlaps

    overlaps_of_Disjoint :
        (a b : Tree L) (path : List Text) → Disjoint a b → overlaps a b path [] ≡ []
    overlaps_of_Disjoint (leaf s) b path d = absurd d
    overlaps_of_Disjoint (array xs) b path d = absurd d
    overlaps_of_Disjoint (table t) (leaf s) path d = absurd d
    overlaps_of_Disjoint (table t) (array xs) path d = absurd d
    overlaps_of_Disjoint (table t) (table u) path d = overlaps_below_of_Disjoint t u path d

    overlaps_below_of_Disjoint :
        (t u : Table L) (path : List Text) → DisjointBelow t u → overlaps_below t u path [] ≡ []
    overlaps_below_of_Disjoint end u path d = refl
    overlaps_below_of_Disjoint (entry k v rest) u path d = elim (Option-cases (get u k)) [
      | inl e ↦ rw (e, overlaps) (overlaps_below_of_Disjoint rest u path d.1)
      | inr (w, e) ↦
          let found : overlaps v w (path ++ (k ∷ [])) [] ≡ [] =
            overlaps_of_Disjoint v w (path ++ (k ∷ [])) (rw e at d.0) in
          rw (e, overlaps) (rw found (overlaps_below_of_Disjoint rest u path d.1))
    ]

  -- No path is reported exactly where the two trees are tables that share no leaf.
  pub overlapping_paths-eq-nil : (a b : Tree L) → (overlapping_paths a b ≡ []) ↔ Disjoint a b
  unfolding overlapping_paths
  overlapping_paths-eq-nil a b = (
    (λ h. (overlaps-nil a b [] [] (sort-eq-nil _ h)).1),
    (λ d. rw (overlaps_of_Disjoint a b [] d)),
  )

  mutual
    unfolding merge get

    commute :
        (a b : Tree L) → IsWellFormed a → IsWellFormed b → Disjoint a b → merge a b ≡ merge b a
    commute (leaf s) b wa wb d = absurd d
    commute (array xs) b wa wb d = absurd d
    commute (table t) (leaf s) wa wb d = absurd d
    commute (table t) (array xs) wa wb d = absurd d
    commute (table t) (table u) wa wb d = ap table (
        table_ext (merge_into t u) (merge_into u t) (merge-IsWellFormed (table t) (table u) wa wb).0
          (merge-IsWellFormed (table u) (table t) wb wa).0
          (λ q.
            get-merge_into t u q wb.0
            ∙ commute_below t u wa.1 wb.1 d q (get t q) (get u q) refl refl
            ∙ sym (get-merge_into u t q wa.0)))

    commute_below :
        (t u : Table L)
        → ValuesWellFormed t
        → ValuesWellFormed u
        → DisjointBelow t u
        → (q : Text) (x y : Option (Tree L)) → get t q ≡ x
        → get u q ≡ y
        → merged x y ≡ merged y x
    commute_below t u wt wu d q none none ex ey = refl
    commute_below t u wt wu d q none (some y) ex ey = refl
    commute_below t u wt wu d q (some x) none ex ey = refl
    commute_below end u wt wu d q (some x) (some y) ex ey = cc
    commute_below (entry k v rest) u wt wu d q (some x) (some y) ex ey = ground (
      arith,
      eq_of_cmp q k,
      commute v y wt.0 (get-IsWellFormed u q y wu ey),
      commute_below rest u wt.1 wu d.1 q (some x) (some y),
    )

  -- Well-formed trees between which no collision is reported merge to one tree in either order.
  pub merge_comm :
      (a b : Tree L)
      → IsWellFormed a
      → IsWellFormed b
      → overlapping_paths a b ≡ []
      → merge a b ≡ merge b a
  merge_comm a b wa wb h = commute a b wa wb ((overlapping_paths-eq-nil a b).0 h)
