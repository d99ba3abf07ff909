-- ===== src/Documents/Order.antt =====
-- Under `refused` the order in which a store lists its keys does not matter.
use mathlib.Core.List.{Permᴰ}
use dynamic_config.Prelude.{List, [], ◌∷◌, ◌≡◌, refl, sym, subst, All}
use dynamic_config.Prelude.Text.{Text}
use dynamic_config.Prelude.Results.{ok}
use dynamic_config.Tree.{leaf, array, table, end}
use dynamic_config.Value.{Value, merge}
use dynamic_config.Value.WellFormed.{IsWellFormed, merge-IsWellFormed}
use dynamic_config.Value.Overlap.{Disjoint, overlapping_paths-eq-nil, merge_comm}
use dynamic_config.Value.Disjoint.{Disjoint-sym}
use dynamic_config.Value.Disjoint.Merge.{Disjoint-merge, merge_right_comm}
use dynamic_config.Documents.{Parsed, refused, fold_parsed, fold_all}
use dynamic_config.Documents.Fold.{fold-step}

-- A refusing fold goes on past a document that is apart from what it has.
fold-over :
    (described : Text) (parsed : List Parsed) (acc : Value) (key : Text) (tree : Value)
    (rest : List Parsed) (v : Value)
    → Disjoint acc tree
    → fold_parsed refused described parsed (merge acc tree) rest ≡ ok v
    → fold_parsed refused described parsed acc ((key, tree) ∷ rest) ≡ ok v
unfolding fold_parsed
fold-over described parsed acc key tree rest v d h = rw ((overlapping_paths-eq-nil acc tree).1 d) h

abbrev pub AllWellFormed : List Parsed → Type 0
AllWellFormed parsed = All (λ (e : Parsed). IsWellFormed e.1) parsed

AllWellFormed-perm : (xs ys : List Parsed) → Permᴰ xs ys → AllWellFormed xs → AllWellFormed ys
AllWellFormed-perm xs ys Permᴰ.nil w = tt
AllWellFormed-perm xs ys (Permᴰ.cons e p) w =
    (subst (λ (x : Parsed). IsWellFormed x.1) e w.0, AllWellFormed-perm _ _ p w.1)
AllWellFormed-perm xs ys (Permᴰ.swap e f) w = (
  subst (λ (x : Parsed). IsWellFormed x.1) f w.1.0,
  (subst (λ (x : Parsed). IsWellFormed x.1) e w.0, w.1.1),
)
AllWellFormed-perm xs ys (Permᴰ.trans p q) w = AllWellFormed-perm _ _ q (AllWellFormed-perm _ _ p w)

-- What the fold returns does not depend on the list that only its error looks at.
fold_parsed-parsed :
    (described : Text) (parsed parsed' : List Parsed) (acc : Value) (rest : List Parsed) (v : Value)
    → fold_parsed refused described parsed acc rest ≡ ok v
    → fold_parsed refused described parsed' acc rest ≡ ok v
unfolding fold_parsed
fold_parsed-parsed described parsed parsed' acc [] v h = h
fold_parsed-parsed described parsed parsed' acc ((key, tree) ∷ rest) v h =
    let (clear, later) = fold-step described parsed acc key tree rest v h in
    fold-over described parsed' acc key tree rest v ((overlapping_paths-eq-nil acc tree).0 clear)
      (fold_parsed-parsed described parsed parsed' (merge acc tree) rest v later)

fold_parsed-swap :
    (described : Text) (parsed : List Parsed) (acc : Value) (x y : Parsed) (rest : List Parsed)
    (v : Value)
    → IsWellFormed acc
    → IsWellFormed x.1
    → IsWellFormed y.1
    → fold_parsed refused described parsed acc (x ∷ y ∷ rest) ≡ ok v
    → fold_parsed refused described parsed acc (y ∷ x ∷ rest) ≡ ok v
fold_parsed-swap described parsed acc (j, s) (k, t) rest v wa ws wt h =
    let (clear, next) = fold-step described parsed acc j s ((k, t) ∷ rest) v h in
    let (clear', later) = fold-step described parsed (merge acc s) k t rest v next in
    let d = (overlapping_paths-eq-nil acc s).0 clear in
    let (e, f) =
      (Disjoint-merge acc s t wa ws d).0 ((overlapping_paths-eq-nil (merge acc s) t).0 clear') in
    let same = merge_right_comm acc s t wa ws wt d e f in
    fold-over described parsed acc k t ((j, s) ∷ rest) v e (
      fold-over described parsed (merge acc t) j s rest v
        ((Disjoint-merge acc t s wa wt e).1 (d, Disjoint-sym s t wt f))
        (subst (λ m. fold_parsed refused described parsed m rest ≡ ok v) same later))

fold_parsed-perm :
    (described : Text) (parsed : List Parsed) (acc : Value) (xs ys : List Parsed) (v : Value)
    → Permᴰ xs ys
    → IsWellFormed acc
    → AllWellFormed xs
    → fold_parsed refused described parsed acc xs ≡ ok v
    → fold_parsed refused described parsed acc ys ≡ ok v
fold_parsed-perm described parsed acc xs ys v Permᴰ.nil wa w h = h
fold_parsed-perm described parsed acc xs ys v
      (Permᴰ.cons {a = (key, tree)} {b = b} {l₁ = l} {l₂ = m} e p) wa w h =
    let (clear, later) = fold-step described parsed acc key tree l v h in
    subst (λ (x : Parsed). fold_parsed refused described parsed acc (x ∷ m) ≡ ok v) e
      (fold-over described parsed acc key tree m v ((overlapping_paths-eq-nil acc tree).0 clear) (
        fold_parsed-perm described parsed (merge acc tree) l m v p
          (merge-IsWellFormed acc tree wa w.0) w.1 later))
fold_parsed-perm described parsed acc xs ys v
      (Permᴰ.swap {a = a} {b = b} {a' = a'} {b' = b'} {l = l} e f) wa w h =
    subst (λ (x : Parsed). fold_parsed refused described parsed acc (x ∷ b' ∷ l) ≡ ok v) f
      (subst (λ (x : Parsed). fold_parsed refused described parsed acc (b ∷ x ∷ l) ≡ ok v) e
        (fold_parsed-swap described parsed acc a b l v wa w.0 w.1.0 h))
fold_parsed-perm described parsed acc xs ys v (Permᴰ.trans {l₂ = zs} p q) wa w h =
    fold_parsed-perm described parsed acc zs ys v q wa (AllWellFormed-perm xs zs p w)
      (fold_parsed-perm described parsed acc xs zs v p wa w h)

-- A document is a table at its root.
abbrev pub IsTable : Value → Type 0
IsTable (table t) = Unit
IsTable v = ⊥

abbrev pub AllTables : List Parsed → Type 0
AllTables parsed = All (λ (e : Parsed). IsTable e.1) parsed

AllTables-perm : (xs ys : List Parsed) → Permᴰ xs ys → AllTables xs → AllTables ys
AllTables-perm xs ys Permᴰ.nil w = tt
AllTables-perm xs ys (Permᴰ.cons e p) w =
    (subst (λ (x : Parsed). IsTable x.1) e w.0, AllTables-perm _ _ p w.1)
AllTables-perm xs ys (Permᴰ.swap e f) w = (
  subst (λ (x : Parsed). IsTable x.1) f w.1.0,
  (subst (λ (x : Parsed). IsTable x.1) e w.0, w.1.1),
)
AllTables-perm xs ys (Permᴰ.trans p q) w = AllTables-perm _ _ q (AllTables-perm _ _ p w)

perm-nil : (xs ys : List Parsed) → Permᴰ xs ys → ys ≡ [] → xs ≡ []
perm-nil xs ys Permᴰ.nil h = refl
perm-nil xs ys (Permᴰ.cons e p) h = absurd (cc)
perm-nil xs ys (Permᴰ.swap e f) h = absurd (cc)
perm-nil xs ys (Permᴰ.trans {l₂ = zs} p q) h = perm-nil xs zs p (perm-nil zs ys q h)

abbrev nothing : Value
nothing = table end

merge-nothing : (v : Value) → IsWellFormed v → IsTable v → merge nothing v ≡ v
unfolding merge
merge-nothing (leaf x) w h = absurd h
merge-nothing (array xs) w h = absurd h
merge-nothing (table t) w h =
    merge_comm nothing (table t) (tt, tt) w ((overlapping_paths-eq-nil nothing (table t)).1 tt)

apart_from_nothing : (v : Value) → IsTable v → Disjoint nothing v
apart_from_nothing (leaf x) h = absurd h
apart_from_nothing (array xs) h = absurd h
apart_from_nothing (table t) h = tt

-- The fold from the first document on is a fold from nothing.
fold_all-from_nothing :
    (described : Text) (parsed : List Parsed) (x : Parsed) (rest : List Parsed) (v : Value)
    → IsWellFormed x.1
    → IsTable x.1
    → fold_all refused described (x ∷ rest) ≡ ok v
    → fold_parsed refused described parsed nothing (x ∷ rest) ≡ ok v
unfolding fold_all
fold_all-from_nothing described parsed (key, tree) rest v w t h =
    fold-over described parsed nothing key tree rest v (apart_from_nothing tree t) (
      subst (λ m. fold_parsed refused described parsed m rest ≡ ok v) (sym (merge-nothing tree w t))
        (fold_parsed-parsed described ((key, tree) ∷ rest) parsed tree rest v h))

fold_all-to_nothing :
    (described : Text) (parsed : List Parsed) (x : Parsed) (rest : List Parsed) (v : Value)
    → IsWellFormed x.1
    → IsTable x.1
    → fold_parsed refused described parsed nothing (x ∷ rest) ≡ ok v
    → fold_all refused described (x ∷ rest) ≡ ok v
unfolding fold_all
fold_all-to_nothing described parsed (key, tree) rest v w t h =
    fold_parsed-parsed described parsed ((key, tree) ∷ rest) tree rest v (
      subst (λ m. fold_parsed refused described parsed m rest ≡ ok v) (merge-nothing tree w t)
        (fold-step described parsed nothing key tree rest v h).1)

-- If the documents under a prefix, well formed and tables at their roots, fold without a collision,
-- then in any other order they fold to the same document.
pub fold_all-perm :
    (described : Text) (xs ys : List Parsed) (v : Value)
    → Permᴰ xs ys
    → AllWellFormed xs
    → AllTables xs
    → fold_all refused described xs ≡ ok v
    → fold_all refused described ys ≡ ok v
unfolding fold_all
fold_all-perm described [] ys v p w t h = absurd (cc)
fold_all-perm described (x ∷ xs) [] v p w t h =
    let none_left = perm-nil (x ∷ xs) [] p refl in absurd (cc)
fold_all-perm described (x ∷ xs) (y ∷ ys) v p w t h =
    let w' = AllWellFormed-perm (x ∷ xs) (y ∷ ys) p w in
    let t' = AllTables-perm (x ∷ xs) (y ∷ ys) p t in
    fold_all-to_nothing described [] y ys v w'.0 t'.0 (
      fold_parsed-perm described [] nothing (x ∷ xs) (y ∷ ys) v p (tt, tt) w
        (fold_all-from_nothing described [] x xs v w.0 t.0 h))
