-- ===== src/Value/Disjoint.antt =====
-- Trees that share no leaf, key by key.
pub mod Merge
use mathlib.Core.Option.{some-injective}
use dynamic_config.Prelude.{
  Ordering, lt, eq, gt, Option, none, some, ◌≡◌, refl, sym, ap, ◌∙◌, subst, arith, Option-cases,
  inl, inr, ◌↔◌,
}
use dynamic_config.Prelude.Text.{Text, cmp, eq_of_cmp, cmp_refl}
use dynamic_config.Tree.{Tree, Table, leaf, array, table, end, entry, get}
use dynamic_config.Tree.Laws.{IsSorted, get-Above, table_ext}
use dynamic_config.Value.{merge, merge_into}
use dynamic_config.Value.WellFormed.{
  IsWellFormed, ValuesWellFormed, get-IsWellFormed, merge-IsWellFormed,
}
use dynamic_config.Value.Merge.{merged, get-merge_into}
use dynamic_config.Value.Overlap.{Disjoint, DisjointBelow, overlapping_paths-eq-nil, merge_comm}

module _ {L : Type 0} where
  -- What two disjoint tables hold at one key is disjoint.
  pub Disjoint-get :
      (t u : Table L) (s : Text) (x y : Tree L)
      → DisjointBelow t u
      → get t s ≡ some x
      → get u s ≡ some y
      → Disjoint x y
  unfolding get
  Disjoint-get end u s x y d e f = cc
  Disjoint-get (entry k v rest) u s x y d e f =
      at (cmp s k) refl (λ e'. Disjoint-get rest u s x y d.1 e' f)
    where
      at : (o : Ordering) → cmp s k ≡ o → (get rest s ≡ some x → Disjoint x y) → Disjoint x y
      at lt q ih = ih (rw (q, get) at e)
      at gt q ih = ih (rw (q, get) at e)
      at eq q ih =
          let here : get u k ≡ some y = ap (get u) (sym (eq_of_cmp s k q)) ∙ f in
          let same : v ≡ x = some-injective v x (rw (q, get) at e) in
          subst (λ z. Disjoint z y) same (rw here at d.0)

  -- Tables that hold disjoint trees at every key that they share are disjoint.
  pub Disjoint-intro :
      (t u : Table L)
      → IsSorted t
      → ((q : Text) (x y : Tree L) → get t q ≡ some x → get u q ≡ some y → Disjoint x y)
      → DisjointBelow t u
  unfolding get
  Disjoint-intro end u s h = tt
  Disjoint-intro (entry k v rest) u s h =
      (first (get u k) refl, Disjoint-intro rest u s.1 (λ q x y e f. h q x y (lower q x e) f))
    where
      first :
          (o : Option (Tree L))
          → get u k ≡ o
          → elim o as (λ _. Type 0) [ none ↦ Unit | some w ↦ Disjoint v w ]
      first none e = tt
      first (some w) e = h k v w (rw (cmp_refl k, get) refl) e

      lower : (q : Text) (x : Tree L) → get rest q ≡ some x → get (entry k v rest) q ≡ some x
      lower q x e = ground (arith, e, get-Above rest k s.0, eq_of_cmp q k)

  mutual
    unfolding get

    turn : (a b : Tree L) → IsWellFormed b → Disjoint a b → Disjoint b a
    turn (leaf x) b w d = absurd d
    turn (array x) b w d = absurd d
    turn (table t) (leaf x) w d = absurd d
    turn (table t) (array x) w d = absurd d
    turn (table t) (table u) w d =
        Disjoint-intro u t w.0 (λ q y x f e. sym_below t u w.1 d q x y e f)

    sym_below :
        (t u : Table L)
        → ValuesWellFormed u
        → DisjointBelow t u
        → (q : Text) (x y : Tree L) → get t q ≡ some x
        → get u q ≡ some y
        → Disjoint y x
    sym_below end u w d q x y e f = absurd (cc)
    sym_below (entry k v rest) u w d q x y e f =
        pick (cmp q k) refl (λ d'. turn v y (get-IsWellFormed u q y w f) d')
          (λ e'. sym_below rest u w d.1 q x y e' f)
      where
        pick :
            (o : Ordering)
            → cmp q k ≡ o
            → (Disjoint v y → Disjoint y v)
            → (get rest q ≡ some x → Disjoint y x)
            → Disjoint y x
        pick lt p here later = later (rw (p, get) at e)
        pick gt p here later = later (rw (p, get) at e)
        pick eq p here later =
            let same : v ≡ x = some-injective v x (rw (p, get) at e) in
            let at_k : get u k ≡ some y = ap (get u) (sym (eq_of_cmp q k p)) ∙ f in
            subst (λ z. Disjoint y z) same (here (rw at_k at d.0))

  -- A fact of the tree under a key follows from the fact of every value of the table.
  under_key :
      (P : Tree L → Type 0) (k q : Text) (v p : Tree L) (rest : Table L)
      → get (entry k v rest) q ≡ some p
      → P v
      → (get rest q ≡ some p → P p)
      → P p
  unfolding get
  under_key P k q v p rest e here later = pick (cmp q k) refl
    where
      pick : (o : Ordering) → cmp q k ≡ o → P p
      pick lt h = later (rw (h, get) at e)
      pick gt h = later (rw (h, get) at e)
      pick eq h = subst P (some-injective v p (rw (h, get) at e)) here

  -- From a fact at every value of a table, the fact at what a key holds.
  abbrev pub Each : (Tree L → Type 0) → Table L → Type 0
  Each P end = Unit
  Each P (entry k v rest) = P v × Each P rest

  pub each_at :
      (P : Tree L → Type 0) (t : Table L) (q : Text) (p : Tree L)
      → Each P t
      → get t q ≡ some p
      → P p
  unfolding get
  each_at P end q p h e = absurd (cc)
  each_at P (entry k v rest) q p h e =
      under_key P k q v p rest e h.0 (λ e'. each_at P rest q p h.1 e')

  pub Disjoint-sym : (a b : Tree L) → IsWellFormed b → Disjoint a b → Disjoint b a
  Disjoint-sym a b w d = turn a b w d
