-- ===== src/Value/Precedence.antt =====
-- Which side of a merge a path reads from: the overlay where it has a leaf, the base where the
-- overlay says nothing.
use dynamic_config.Prelude.{Option, none, some, List, [], ◌∷◌, ◌≡◌, refl, ap, sym, subst, ◌∙◌}
use mathlib.Core.Option.{some-injective}
use dynamic_config.Prelude.Text.{Text}
use dynamic_config.Tree.{Tree, Table, leaf, array, table, get}
use dynamic_config.Value.{merge, step, walk}
use dynamic_config.Value.WellFormed.{IsWellFormed, get-IsWellFormed}
use dynamic_config.Value.Walk.{walk_from, walk-cons}
use dynamic_config.Value.Merge.{merged, get-merge_into}

module _ {L : Type 0} where
  -- The tree is no table: a merge takes it or leaves it whole.
  abbrev pub IsAtom : Tree L → Type 0
  IsAtom (table t) = ⊥
  IsAtom v = Unit

  merged-none : (x : Option (Tree L)) → merged none x ≡ x
  merged-none none = refl
  merged-none (some v) = refl

  -- One step into a merge with a table.
  step-merge :
      (a : Tree L) (o : Table L) (s : Text)
      → IsWellFormed (table o)
      → step (merge a (table o)) s ≡ merged (step a s) (get o s)
  unfolding step merge
  step-merge (leaf x) o s w = sym (merged-none (get o s))
  step-merge (array x) o s w = sym (merged-none (get o s))
  step-merge (table t) o s w = get-merge_into t o s w.0

  walk-cons_merge :
      (a : Tree L) (o : Table L) (s : Text) (ss : List Text)
      → IsWellFormed (table o)
      → walk (merge a (table o)) (s ∷ ss) ≡ walk_from (merged (step a s) (get o s)) ss
  walk-cons_merge a o s ss w =
      walk-cons (merge a (table o)) s ss ∙ ap (λ m. walk_from m ss) (step-merge a o s w)

  overlay_at :
      (m n : Option (Tree L)) (ss : List Text) (v : Tree L)
      → walk_from n ss ≡ some v
      → ((x y : Tree L) → n ≡ some x → walk x ss ≡ some v → walk (merge y x) ss ≡ some v)
      → walk_from (merged m n) ss ≡ some v
  overlay_at m none ss v h ih = absurd (cc)
  overlay_at none (some x) ss v h ih = h
  overlay_at (some y) (some x) ss v h ih = ih x y refl h

  -- Later wins: a scalar or a sequence that a well-formed overlay has at a path is what the merge
  -- has there, whatever the base holds.
  pub walk-merge_overlay :
      (path : List Text) (a b v : Tree L)
      → IsWellFormed b
      → walk b path ≡ some v
      → IsAtom v
      → walk (merge a b) path ≡ some v
  unfolding step
  walk-merge_overlay [] a (leaf x) v w h atom = unfold walk merge in h
  walk-merge_overlay [] a (array x) v w h atom = unfold walk merge in h
  walk-merge_overlay [] a (table o) v w h atom =
      absurd (subst IsAtom (sym (some-injective (table o) v (unfold walk in h))) atom)
  walk-merge_overlay (s ∷ ss) a (leaf x) v w h atom = absurd (unfold walk in cc)
  walk-merge_overlay (s ∷ ss) a (array x) v w h atom = absurd (unfold walk in cc)
  walk-merge_overlay (s ∷ ss) a (table o) v w h atom =
      walk-cons_merge a o s ss w
      ∙ overlay_at (step a s) (get o s) ss v (sym (walk-cons (table o) s ss) ∙ h)
          (λ x y e below. walk-merge_overlay ss y x v (get-IsWellFormed o s x w.1 e) below atom)

  -- The overlay has nothing at `path`, and no scalar or sequence above it.
  abbrev pub Misses : List Text → Tree L → Type 0
  Misses [] v = ⊥
  Misses (s ∷ ss) (leaf x) = ⊥
  Misses (s ∷ ss) (array x) = ⊥
  Misses (s ∷ ss) (table o) = elim (get o s) [ none ↦ Unit | some w ↦ Misses ss w ]

  abbrev MissesFrom : List Text → Option (Tree L) → Type 0
  MissesFrom ss m = elim m [ none ↦ Unit | some w ↦ Misses ss w ]

  miss_at :
      (n : Option (Tree L)) (ss : List Text)
      → MissesFrom ss n
      → ((x : Tree L) → Misses ss x → walk x ss ≡ none)
      → walk_from n ss ≡ none
  miss_at none ss m ih = refl
  miss_at (some x) ss m ih = ih x m

  -- What is missed in a tree is not found there.
  walk-Misses : (path : List Text) (b : Tree L) → Misses path b → walk b path ≡ none
  unfolding step get
  walk-Misses [] b m = absurd m
  walk-Misses (s ∷ ss) (leaf x) m = absurd m
  walk-Misses (s ∷ ss) (array x) m = absurd m
  walk-Misses (s ∷ ss) (table o) m =
      walk-cons (table o) s ss ∙ miss_at (get o s) ss m (walk-Misses ss)

  base_at :
      (m n : Option (Tree L)) (ss : List Text)
      → MissesFrom ss n
      → ((x y : Tree L) → n ≡ some x → Misses ss x → walk (merge y x) ss ≡ walk y ss)
      → walk_from (merged m n) ss ≡ walk_from m ss
  base_at m none ss h ih = refl
  base_at none (some x) ss h ih = walk-Misses ss x h
  base_at (some y) (some x) ss h ih = ih x y refl h

  -- A path at and above which a well-formed overlay has nothing but tables, and that it lacks,
  -- reads in the merge what it reads in the base.
  pub walk-merge_base :
      (path : List Text) (a b : Tree L)
      → IsWellFormed b
      → Misses path b
      → walk (merge a b) path ≡ walk a path
  walk-merge_base [] a b w m = absurd m
  walk-merge_base (s ∷ ss) a (leaf x) w m = absurd m
  walk-merge_base (s ∷ ss) a (array x) w m = absurd m
  walk-merge_base (s ∷ ss) a (table o) w m =
      walk-cons_merge a o s ss w
      ∙ base_at (step a s) (get o s) ss m
          (λ x y e below. walk-merge_base ss y x (get-IsWellFormed o s x w.1 e) below)
      ∙ sym (walk-cons a s ss)
