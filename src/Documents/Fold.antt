-- ===== src/Documents/Fold.antt =====
-- Folds that refuse collisions: what they keep of the documents.
use dynamic_config.Prelude.{
  true, Option, none, some, List, [], ◌∷◌, ◌++◌, ◌≡◌, refl, sym, ◌∙◌, arith, All, inl, inr,
  Bool-cases, is_empty, subst,
}
use mathlib.Core.Option.{some-injective}
use dynamic_config.Prelude.Text.{Text}
use dynamic_config.Prelude.Results.{Result, ok, err, ◌>>=◌}
use dynamic_config.Tree.{Tree, leaf, array, table, get}
use dynamic_config.Value.{Value, merge, walk, step, overlapping_paths}
use dynamic_config.Value.WellFormed.{IsWellFormed, merge-IsWellFormed}
use dynamic_config.Value.Walk.{walk_from, walk-cons}
use dynamic_config.Value.Overlap.{Disjoint, overlapping_paths-eq-nil}
use dynamic_config.Value.Disjoint.{Disjoint-get}
use dynamic_config.Value.Precedence.{IsAtom, Misses, walk-merge_overlay, walk-merge_base}
use dynamic_config.Error.{Error}
use dynamic_config.Remote.{Format, Fetched}
use dynamic_config.Documents.{
  Parsed, later_wins, refused, fold_parsed, fold_all, parse_all, folded, merged,
}

is_empty-nil : (xs : List Text) → is_empty xs ≡ true → xs ≡ []
is_empty-nil [] h = refl
is_empty-nil (x ∷ xs) h = absurd (cc)

-- What a refusing fold has checked on its way.
pub fold-step :
    (described : Text) (parsed : List Parsed) (acc : Value) (key : Text) (tree : Value)
    (rest : List Parsed) (v : Value)
    → fold_parsed refused described parsed acc ((key, tree) ∷ rest) ≡ ok v
    → (overlapping_paths acc tree ≡ [])
      × (fold_parsed refused described parsed (merge acc tree) rest ≡ ok v)
unfolding fold_parsed
fold-step described parsed acc key tree rest v h =
    elim (Bool-cases (is_empty (overlapping_paths acc tree))) [
      | inl e ↦ (is_empty-nil _ e, ground (arith, h, e))
      | inr e ↦ absurd (ground (arith, h, e))
    ]

-- A fold that refuses nothing gives what the fold gives in which later documents win.
pub fold_parsed-refused :
    (described : Text) (parsed : List Parsed) (acc : Value) (rest : List Parsed) (v : Value)
    → fold_parsed refused described parsed acc rest ≡ ok v
    → fold_parsed later_wins described parsed acc rest ≡ ok v
unfolding fold_parsed
fold_parsed-refused described parsed acc [] v h = h
fold_parsed-refused described parsed acc ((key, tree) ∷ rest) v h =
    fold_parsed-refused described parsed (merge acc tree) rest v
      (fold-step described parsed acc key tree rest v h).1

module _ {L : Type 0} where
  -- Where one of two disjoint trees has a leaf, the other has nothing but tables above it.
  Disjoint-Misses :
      (path : List Text) (a b w : Tree L)
      → Disjoint a b
      → walk a path ≡ some w
      → IsAtom w
      → Misses path b
  unfolding step
  Disjoint-Misses path (leaf x) b w d h atom = absurd d
  Disjoint-Misses path (array x) b w d h atom = absurd d
  Disjoint-Misses path (table t) (leaf x) w d h atom = absurd d
  Disjoint-Misses path (table t) (array x) w d h atom = absurd d
  Disjoint-Misses [] (table t) (table u) w d h atom =
      absurd (subst IsAtom (sym (some-injective (table t) w (unfold walk in h))) atom)
  Disjoint-Misses (s ∷ ss) (table t) (table u) w d h atom =
      below (get t s) (get u s) refl refl (sym (walk-cons (table t) s ss) ∙ h)
        (λ x y d' g. Disjoint-Misses ss x y w d' g atom)
    where
      below :
          (m n : Option (Tree L))
          → get t s ≡ m
          → get u s ≡ n
          → walk_from m ss ≡ some w
          → ((x y : Tree L) → Disjoint x y → walk x ss ≡ some w → Misses ss y)
          → elim n as (λ _. Type 0) [ none ↦ Unit | some y ↦ Misses ss y ]
      below m none e f g ih = tt
      below none (some y) e f g ih = absurd (cc)
      below (some x) (some y) e f g ih = ih x y (Disjoint-get t u s x y d e f) g

-- A leaf that is in the fold so far stays, whatever documents follow.
fold_parsed-keeps :
    (described : Text) (parsed : List Parsed) (acc : Value) (rest : List Parsed) (v : Value)
    (path : List Text) (w : Value)
    → IsWellFormed acc
    → All (λ (e : Parsed). IsWellFormed e.1) rest
    → fold_parsed refused described parsed acc rest ≡ ok v
    → walk acc path ≡ some w
    → IsAtom w
    → walk v path ≡ some w
unfolding fold_parsed
fold_parsed-keeps described parsed acc [] v path w wa wr h at atom =
    let same : acc ≡ v = cc in subst (λ t. walk t path ≡ some w) same at
fold_parsed-keeps described parsed acc ((key, tree) ∷ rest) v path w wa wr h at atom =
    let (clear, later) = fold-step described parsed acc key tree rest v h in
    let apart = (overlapping_paths-eq-nil acc tree).0 clear in
    let misses = Disjoint-Misses path acc tree w apart at atom in
    fold_parsed-keeps described parsed (merge acc tree) rest v path w
      (merge-IsWellFormed acc tree wa wr.0) wr.1 later
      (walk-merge_base path acc tree wr.0 misses ∙ at) atom

-- A scalar or a sequence that a document has which is folded in is what the result has at its path.
fold_parsed-leaf :
    (described : Text) (parsed : List Parsed) (acc : Value) (before : List Parsed) (key : Text)
    (tree : Value) (after : List Parsed) (v : Value) (path : List Text) (w : Value)
    → IsWellFormed acc
    → All (λ (e : Parsed). IsWellFormed e.1) (before ++ ((key, tree) ∷ after))
    → fold_parsed refused described parsed acc (before ++ ((key, tree) ∷ after)) ≡ ok v
    → walk tree path ≡ some w
    → IsAtom w
    → walk v path ≡ some w
fold_parsed-leaf described parsed acc [] key tree after v path w wa wr h at atom =
    let (clear, later) = fold-step described parsed acc key tree after v h in
    fold_parsed-keeps described parsed (merge acc tree) after v path w
      (merge-IsWellFormed acc tree wa wr.0) wr.1 later
      (walk-merge_overlay path acc tree w wr.0 at atom) atom
fold_parsed-leaf described parsed acc ((k, t) ∷ before) key tree after v path w wa wr h at atom =
    let (clear, later) = fold-step described parsed acc k t (before ++ ((key, tree) ∷ after)) v h in
    fold_parsed-leaf described parsed (merge acc t) before key tree after v path w
      (merge-IsWellFormed acc t wa wr.0) wr.1 later at atom

-- A fold of documents that refuses collisions and succeeds has every scalar and every sequence of
-- every document, the first one included: what one of them has at a path is what the result has there.
-- Every table of the documents has its keys in order.
pub fold_all-leaf :
    (described : Text) (before : List Parsed) (key : Text) (tree : Value) (after : List Parsed)
    (v : Value) (path : List Text) (w : Value)
    → All (λ (e : Parsed). IsWellFormed e.1) (before ++ ((key, tree) ∷ after))
    → fold_all refused described (before ++ ((key, tree) ∷ after)) ≡ ok v
    → walk tree path ≡ some w
    → IsAtom w
    → walk v path ≡ some w
unfolding fold_all
fold_all-leaf described [] key tree after v path w wr h at atom =
    fold_parsed-keeps described ((key, tree) ∷ after) tree after v path w wr.0 wr.1 h at atom
fold_all-leaf described ((k, t) ∷ before) key tree after v path w wr h at atom =
    fold_parsed-leaf described ((k, t) ∷ (before ++ ((key, tree) ∷ after))) t before key tree after
      v path w wr.0 wr.1 h at atom

fold_all-refused :
    (described : Text) (parsed : List Parsed) (v : Value)
    → fold_all refused described parsed ≡ ok v
    → fold_all later_wins described parsed ≡ ok v
unfolding fold_all
fold_all-refused described [] v h = h
fold_all-refused described ((key, tree) ∷ rest) v h =
    fold_parsed-refused described ((key, tree) ∷ rest) tree rest v h

module _ (parse : Text → Format → Result Error Value)
    (render : Value → Format → Result Error Text) where
  folded-refused :
      (documents : List (Text × Text)) (format : Format) (described : Text) (v : Value)
      → folded parse documents format refused described ≡ ok v
      → folded parse documents format later_wins described ≡ ok v
  unfolding folded
  folded-refused documents format described v h = go (parse_all parse described format documents) h
    where
      go :
          (r : Result Error (List Parsed))
          → (r >>= λ parsed. fold_all refused described parsed) ≡ ok v
          → (r >>= λ parsed. fold_all later_wins described parsed) ≡ ok v
      go (err e) q = q
      go (ok parsed) q = fold_all-refused described parsed v q

  -- Where a read that refuses collisions succeeds, it returns the document that the read in which
  -- later keys win returns, whatever `Value::parse` and `Value::render` are.
  merged-refused :
      (documents : List (Text × Text)) (format : Format) (described : Text) (d : Fetched)
      → merged parse render documents format refused described ≡ ok d
      → merged parse render documents format later_wins described ≡ ok d
  unfolding merged
  merged-refused [] format described d h = h
  merged-refused ((key, only) ∷ []) format described d h = h
  merged-refused (first ∷ second ∷ rest) format described d h =
      go (folded parse (first ∷ second ∷ rest) format refused described) refl
    where
      go :
          (r : Result Error Value)
          → folded parse (first ∷ second ∷ rest) format refused described ≡ r
          → merged parse render (first ∷ second ∷ rest) format later_wins described ≡ ok d
      go (err e) q = absurd (cc (rw (q, merged) at h))
      go (ok v) q =
          rw (folded-refused (first ∷ second ∷ rest) format described v q, merged)
            (rw (q, merged) at h)
