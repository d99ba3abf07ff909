-- ===== src/Map/Laws.antt =====
-- Reading a map after writing it.
use dynamic_config.Prelude.{none, some, [], ◌∷◌, ◌≡◌, refl, lt, eq, arith, ◌≤◌, length, ◌+◌}
use dynamic_config.Prelude.Text.{Text, cmp, cmp_refl, eq_of_cmp, lt_of_gt, lt_trans, gt_of_lt}
use dynamic_config.Map.{Map, get, insert, remove}

module _ {ℓ} {V : Type ℓ} where
  pub get-insert :
      (k : Text) (v : V) (m : Map V) (q : Text)
      → get (insert k v m) q ≡ elim (cmp q k) [ eq ↦ some v | _ ↦ get m q ]
  unfolding get insert
  get-insert k v [] q = refl
  get-insert k v ((j, w) ∷ rest) q = ground (
    arith,
    get-insert k v rest q,
    eq_of_cmp k j,
    eq_of_cmp q k,
    eq_of_cmp q j,
    cmp_refl k,
    cmp_refl j,
    gt_of_lt k j,
    lt_of_gt k j,
  )

  abbrev pub Above : Text → Map V → Type 0
  Above b [] = Unit
  Above b ((k, v) ∷ rest) = (cmp b k ≡ lt) × Above b rest

  -- The keys ascend strictly.
  abbrev pub IsSorted : Map V → Type 0
  IsSorted [] = Unit
  IsSorted ((k, v) ∷ rest) = Above k rest × IsSorted rest

  pub Above-trans : (a b : Text) (m : Map V) → cmp a b ≡ lt → Above b m → Above a m
  Above-trans a b [] h s = tt
  Above-trans a b ((k, v) ∷ rest) h s = (lt_trans a b k h s.0, Above-trans a b rest h s.1)

  Above-insert :
      (b k : Text) (v : V) (m : Map V) → cmp b k ≡ lt → Above b m → Above b (insert k v m)
  unfolding insert
  Above-insert b k v [] h s = (h, tt)
  Above-insert b k v ((j, w) ∷ rest) h s = ground (arith, Above-insert b k v rest h)

  Above-remove : (b k : Text) (m : Map V) → Above b m → Above b (remove k m)
  unfolding remove
  Above-remove b k [] s = tt
  Above-remove b k ((j, w) ∷ rest) s = ground (arith, Above-remove b k rest)

  pub insert-IsSorted : (k : Text) (v : V) (m : Map V) → IsSorted m → IsSorted (insert k v m)
  unfolding insert
  insert-IsSorted k v [] s = (tt, tt)
  insert-IsSorted k v ((j, w) ∷ rest) s = ground (
    arith,
    insert-IsSorted k v rest,
    Above-trans k j rest,
    Above-insert j k v rest,
    lt_of_gt k j,
    eq_of_cmp k j,
  )

  pub remove-IsSorted : (k : Text) (m : Map V) → IsSorted m → IsSorted (remove k m)
  unfolding remove
  remove-IsSorted k [] s = tt
  remove-IsSorted k ((j, w) ∷ rest) s =
      ground (arith, remove-IsSorted k rest, Above-remove j k rest)

  pub get-Above : (m : Map V) (k : Text) → Above k m → get m k ≡ none
  unfolding get
  get-Above [] k s = refl
  get-Above ((j, w) ∷ rest) k s = ground (arith, get-Above rest k)

  pub get-remove :
      (k : Text) (m : Map V) (q : Text)
      → IsSorted m
      → get (remove k m) q ≡ elim (cmp q k) [ eq ↦ none | _ ↦ get m q ]
  unfolding get remove
  get-remove k [] q s = ground arith
  get-remove k ((j, w) ∷ rest) q s = ground (
    arith,
    get-remove k rest q,
    eq_of_cmp k j,
    eq_of_cmp q k,
    eq_of_cmp q j,
    cmp_refl k,
    cmp_refl j,
    get-Above rest j,
    s.0,
    s.1,
  )

  -- A write adds at most one entry.
  pub length-insert : (k : Text) (v : V) (m : Map V) → length (insert k v m) ≤ length m + 1
  unfolding insert
  length-insert k v [] = omega arith
  length-insert k v ((j, w) ∷ rest) = ground (arith, length-insert k v rest)
