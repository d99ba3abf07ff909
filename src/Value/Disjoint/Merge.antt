-- ===== src/Value/Disjoint/Merge.antt =====
-- A merge of two disjoint trees shares a leaf with a third exactly if one of the two does, and two
-- trees merge into a third in either order.
use mathlib.Core.Option.{some-injective}
use dynamic_config.Prelude.{Option, none, some, ◌≡◌, refl, sym, ap, ◌∙◌, subst, ◌↔◌}
use dynamic_config.Prelude.Text.{Text}
use dynamic_config.Tree.{Tree, Table, leaf, array, table, end, entry, get}
use dynamic_config.Tree.Laws.{table_ext}
use dynamic_config.Value.{merge, merge_into}
use dynamic_config.Value.WellFormed.{IsWellFormed, get-IsWellFormed, merge-IsWellFormed}
use dynamic_config.Value.Merge.{merged, get-merge_into}
use dynamic_config.Value.Overlap.{Disjoint, DisjointBelow, overlapping_paths-eq-nil, merge_comm}
use dynamic_config.Value.Disjoint.{Disjoint-get, Disjoint-intro, Each, each_at}

module _ {L : Type 0} where
  -- What is asked of a tree: that a merge with it is apart from a third tree only if it is.
  abbrev Left : Tree L → Type 0
  Left p =
      (s r : Tree L)
      → IsWellFormed p
      → IsWellFormed s
      → Disjoint p s
      → Disjoint (merge p s) r
      → Disjoint p r × Disjoint s r

  Left-at :
      (t u z : Table L) (q : Text) (r : Tree L)
      → IsWellFormed (table t)
      → IsWellFormed (table u)
      → Each Left t
      → DisjointBelow t u
      → DisjointBelow (merge_into t u) z
      → get z q ≡ some r
      → (m n : Option (Tree L)) → get t q ≡ m
      → get u q ≡ n
      → elim m as (λ _. Type 0) [ none ↦ Unit | some p ↦ Disjoint p r ]
        × elim n as (λ _. Type 0) [ none ↦ Unit | some s ↦ Disjoint s r ]
  Left-at t u z q r wt wu h d dz f none none e g = (tt, tt)
  Left-at t u z q r wt wu h d dz f (some p) none e g =
      (Disjoint-get (merge_into t u) z q p r dz (get-merge_into t u q wu.0 ∙ rw (e, g) refl) f, tt)
  Left-at t u z q r wt wu h d dz f none (some s) e g =
      (tt, Disjoint-get (merge_into t u) z q s r dz (get-merge_into t u q wu.0 ∙ rw (e, g) refl) f)
  Left-at t u z q r wt wu h d dz f (some p) (some s) e g =
      each_at Left t q p h e s r (get-IsWellFormed t q p wt.1 e) (get-IsWellFormed u q s wu.1 g)
        (Disjoint-get t u q p s d e g)
        (Disjoint-get (merge_into t u) z q (merge p s) r dz
          (get-merge_into t u q wu.0 ∙ rw (e, g) refl) f)

  mutual
    unfolding merge

    left : (a : Tree L) → Left a
    left (leaf x) s r wa ws d dz = absurd d
    left (array x) s r wa ws d dz = absurd d
    left (table t) (leaf x) r wa ws d dz = absurd d
    left (table t) (array x) r wa ws d dz = absurd d
    left (table t) (table u) (leaf x) wa ws d dz = absurd dz
    left (table t) (table u) (array x) wa ws d dz = absurd dz
    left (table t) (table u) (table z) wa ws d dz =
        let each = Left-Each t in
        (
          Disjoint-intro t z wa.0
              (λ q p r e f. (Left-at t u z q r wa ws each d dz f (some p) (get u q) e refl).0),
          Disjoint-intro u z ws.0
              (λ q s r g f. (Left-at t u z q r wa ws each d dz f (get t q) (some s) refl g).1),
        )

    Left-Each : (t : Table L) → Each Left t
    Left-Each end = tt
    Left-Each (entry k v rest) = (left v, Left-Each rest)

  -- What is asked of a tree: that a merge with it is apart from what both are apart from.
  abbrev Join : Tree L → Type 0
  Join p =
      (s r : Tree L)
      → IsWellFormed p
      → IsWellFormed s
      → Disjoint p r
      → Disjoint s r
      → Disjoint (merge p s) r

  Join-at :
      (t u z : Table L) (q : Text) (m r : Tree L)
      → IsWellFormed (table t)
      → IsWellFormed (table u)
      → Each Join t
      → DisjointBelow t z
      → DisjointBelow u z
      → get z q ≡ some r
      → (x y : Option (Tree L)) → get t q ≡ x
      → get u q ≡ y
      → merged x y ≡ some m
      → Disjoint m r
  Join-at t u z q m r wt wu h d d' f none none e g k = absurd (cc)
  Join-at t u z q m r wt wu h d d' f (some p) none e g k = Disjoint-get t z q m r d (e ∙ k) f
  Join-at t u z q m r wt wu h d d' f none (some s) e g k = Disjoint-get u z q m r d' (g ∙ k) f
  Join-at t u z q m r wt wu h d d' f (some p) (some s) e g k =
      subst (λ w. Disjoint w r) (some-injective (merge p s) m k)
        (each_at Join t q p h e s r (get-IsWellFormed t q p wt.1 e) (get-IsWellFormed u q s wu.1 g)
          (Disjoint-get t z q p r d e f) (Disjoint-get u z q s r d' g f))

  mutual
    unfolding merge

    join : (a : Tree L) → Join a
    join (leaf x) s r wa ws d dz = absurd d
    join (array x) s r wa ws d dz = absurd d
    join (table t) (leaf x) r wa ws d dz = absurd dz
    join (table t) (array x) r wa ws d dz = absurd dz
    join (table t) (table u) (leaf x) wa ws d dz = absurd dz
    join (table t) (table u) (array x) wa ws d dz = absurd dz
    join (table t) (table u) (table z) wa ws d dz =
        Disjoint-intro (merge_into t u) z (merge-IsWellFormed (table t) (table u) wa ws).0
          (λ q m r e f.
            Join-at t u z q m r wa ws (join-Each t) d dz f (get t q) (get u q) refl refl
              (sym (get-merge_into t u q ws.0) ∙ e))

    join-Each : (t : Table L) → Each Join t
    join-Each end = tt
    join-Each (entry k v rest) = (join v, join-Each rest)

  -- What is asked of a tree: that two trees merge into it in either order.
  abbrev Swap : Tree L → Type 0
  Swap p =
      (s r : Tree L)
      → IsWellFormed p
      → IsWellFormed s
      → IsWellFormed r
      → Disjoint p s
      → Disjoint p r
      → Disjoint s r
      → merge (merge p s) r ≡ merge (merge p r) s

  Swap-at :
      (t u z : Table L) (q : Text)
      → IsWellFormed (table t)
      → IsWellFormed (table u)
      → IsWellFormed (table z)
      → Each Swap t
      → DisjointBelow t u
      → DisjointBelow t z
      → DisjointBelow u z
      → (x y w : Option (Tree L)) → get t q ≡ x
      → get u q ≡ y
      → get z q ≡ w
      → merged (merged x y) w ≡ merged (merged x w) y
  Swap-at t u z q wt wu wz h a b c none none none e f g = refl
  Swap-at t u z q wt wu wz h a b c none none (some r) e f g = refl
  Swap-at t u z q wt wu wz h a b c none (some s) none e f g = refl
  Swap-at t u z q wt wu wz h a b c none (some s) (some r) e f g = ap some (
      merge_comm s r (get-IsWellFormed u q s wu.1 f) (get-IsWellFormed z q r wz.1 g)
        ((overlapping_paths-eq-nil s r).1 (Disjoint-get u z q s r c f g)))
  Swap-at t u z q wt wu wz h a b c (some p) none none e f g = refl
  Swap-at t u z q wt wu wz h a b c (some p) none (some r) e f g = refl
  Swap-at t u z q wt wu wz h a b c (some p) (some s) none e f g = refl
  Swap-at t u z q wt wu wz h a b c (some p) (some s) (some r) e f g = ap some (
      each_at Swap t q p h e s r (get-IsWellFormed t q p wt.1 e) (get-IsWellFormed u q s wu.1 f)
        (get-IsWellFormed z q r wz.1 g) (Disjoint-get t u q p s a e f)
        (Disjoint-get t z q p r b e g) (Disjoint-get u z q s r c f g))

  mutual
    unfolding merge

    swap : (a : Tree L) → Swap a
    swap (leaf x) s r wa ws wr d e f = absurd d
    swap (array x) s r wa ws wr d e f = absurd d
    swap (table t) (leaf x) r wa ws wr d e f = absurd d
    swap (table t) (array x) r wa ws wr d e f = absurd d
    swap (table t) (table u) (leaf x) wa ws wr d e f = absurd e
    swap (table t) (table u) (array x) wa ws wr d e f = absurd e
    swap (table t) (table u) (table z) wa ws wr d e f =
        let tu = merge-IsWellFormed (table t) (table u) wa ws in
        let tz = merge-IsWellFormed (table t) (table z) wa wr in
        ap table (
          table_ext (merge_into (merge_into t u) z) (merge_into (merge_into t z) u)
            (merge-IsWellFormed (merge (table t) (table u)) (table z) tu wr).0
            (merge-IsWellFormed (merge (table t) (table z)) (table u) tz ws).0
            (λ q.
              simp (get-merge_into, ws.0, wr.0)
                (Swap-at t u z q wa ws wr (Swap-Each t) d e f (get t q) (get u q) (get z q) refl
                  refl refl)))

    Swap-Each : (t : Table L) → Each Swap t
    Swap-Each end = tt
    Swap-Each (entry k v rest) = (swap v, Swap-Each rest)

  pub Disjoint-merge :
      (a b c : Tree L)
      → IsWellFormed a
      → IsWellFormed b
      → Disjoint a b
      → (Disjoint (merge a b) c) ↔ (Disjoint a c × Disjoint b c)
  Disjoint-merge a b c wa wb d = ((λ h. left a b c wa wb d h), (λ h. join a b c wa wb h.0 h.1))

  -- Two well-formed trees merge in either order into a third, if no two of the three share a leaf.
  pub merge_right_comm :
      (a b c : Tree L)
      → IsWellFormed a
      → IsWellFormed b
      → IsWellFormed c
      → Disjoint a b
      → Disjoint a c
      → Disjoint b c
      → merge (merge a b) c ≡ merge (merge a c) b
  merge_right_comm a b c wa wb wc d e f = swap a b c wa wb wc d e f
