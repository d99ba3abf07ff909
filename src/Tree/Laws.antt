-- ===== src/Tree/Laws.antt =====
-- Reading a table after writing it, the order of its keys, and that a table in key order is known
-- by what it reads.
use dynamic_config.Prelude.{none, some, ◌≡◌, refl, lt, eq, arith, sym, subst}
use dynamic_config.Prelude.Text.{
  Cases, cmp-Cases, Text, cmp, cmp_refl, eq_of_cmp, lt_of_gt, gt_of_lt, lt_trans,
}
use dynamic_config.Tree.{Tree, Table, end, entry, get, insert}

module _ {L : Type 0} where
  pub get-insert :
      (k : Text) (v : Tree L) (t : Table L) (q : Text)
      → get (insert k v t) q ≡ elim (cmp q k) [ eq ↦ some v | _ ↦ get t q ]
  unfolding get insert
  get-insert k v end q = refl
  get-insert k v (entry j w rest) q = ground (
    arith,
    get-insert k v rest q,
    eq_of_cmp k j,
    eq_of_cmp q k,
    eq_of_cmp q j,
    cmp_refl k,
    cmp_refl j,
    gt_of_lt k j,
    lt_of_gt k j,
  )

  -- Every key of the table lies above `b`.
  abbrev pub Above : Text → Table L → Type 0
  Above b end = Unit
  Above b (entry k v rest) = (cmp b k ≡ lt) × Above b rest

  -- The keys ascend strictly.
  abbrev pub IsSorted : Table L → Type 0
  IsSorted end = Unit
  IsSorted (entry k v rest) = Above k rest × IsSorted rest

  pub Above-trans : (a b : Text) (t : Table L) → cmp a b ≡ lt → Above b t → Above a t
  Above-trans a b end h s = tt
  Above-trans a b (entry k v rest) h s = (lt_trans a b k h s.0, Above-trans a b rest h s.1)

  Above-insert :
      (b k : Text) (v : Tree L) (t : Table L) → cmp b k ≡ lt → Above b t → Above b (insert k v t)
  unfolding insert
  Above-insert b k v end h s = (h, tt)
  Above-insert b k v (entry j w rest) h s = ground (arith, Above-insert b k v rest h)

  pub insert-IsSorted : (k : Text) (v : Tree L) (t : Table L) → IsSorted t → IsSorted (insert k v t)
  unfolding insert
  insert-IsSorted k v end s = (tt, tt)
  insert-IsSorted k v (entry j w rest) s = ground (
    arith,
    insert-IsSorted k v rest,
    Above-trans k j rest,
    Above-insert j k v rest,
    lt_of_gt k j,
    eq_of_cmp k j,
  )

  pub get-Above : (t : Table L) (k : Text) → Above k t → get t k ≡ none
  unfolding get
  get-Above end k s = refl
  get-Above (entry j w rest) k s = ground (arith, get-Above rest k)

  -- Under one head key the tails read alike.
  tail_eq :
      (j : Text) (v w : Tree L) (a b : Table L)
      → Above j a
      → Above j b
      → ((q : Text) → get (entry j v a) q ≡ get (entry j w b) q)
      → (q : Text) → get a q ≡ get b q
  unfolding get
  tail_eq j v w a b s t h q = ground (arith, h q, eq_of_cmp q j, get-Above a j s, get-Above b j t)

  -- Two tables in key order that read alike are equal.
  pub table_ext :
      (a b : Table L) → IsSorted a → IsSorted b → ((q : Text) → get a q ≡ get b q) → a ≡ b
  unfolding get
  table_ext end end s t h = refl
  table_ext end (entry k w b) s t h = absurd (cc (h k, cmp_refl k))
  table_ext (entry j v a) end s t h = absurd (cc (h j, cmp_refl j))
  table_ext (entry j v a) (entry k w b) s t h = elim (cmp-Cases j k) [
    | Cases.below e ↦
        absurd (ground (arith, h j, cmp_refl j, get-Above b j (Above-trans j k b e t.0)))
    | Cases.same e ↦ ground (
      arith,
      h j,
      cmp_refl j,
      cmp_refl k,
      e,
      table_ext a b s.1 t.1 (
          tail_eq j v w a b s.0 (subst (λ x. Above x b) (sym e) t.0)
            (subst (λ x. (q : Text) → get (entry j v a) q ≡ get (entry x w b) q) (sym e) h)),
    )
    | Cases.above e ↦
        absurd (ground (arith, h k, cmp_refl k, get-Above a k (Above-trans k j a e s.0)))
  ]
