-- ===== src/Loader/Precedence.antt =====
-- The order of the layers: which layer's value a load reads.
use dynamic_config.Prelude.{
  Option, none, some, List, [], ◌∷◌, ◌++◌, ◌≡◌, refl, sym, subst, ◌∙◌, ap, All, All-append,
}
use mathlib.Core.List.{append_assoc}
use dynamic_config.Prelude.Text.{Text, codes}
use dynamic_config.Prelude.Results.{Result, ok, err, ◌>>=◌}
use dynamic_config.Error.{Error}
use dynamic_config.Tree.{table, get}
use dynamic_config.Figment.{FigmentValue, Dict}
use dynamic_config.Figment.Provided.{Provided}
use dynamic_config.Value.{walk}
use dynamic_config.Value.Precedence.{IsAtom}
use dynamic_config.Source.{LoadSpec}
use dynamic_config.Loader.{LayerDef, layers, build, build_from, layer_of}
use dynamic_config.Loader.Outside.{World, section_profile}
use dynamic_config.Loader.Sections.{Merging, then_merge, validated_profile}
use dynamic_config.Loader.Resolved.{Engine, add_all, merged, with_aliases}
use dynamic_config.Loader.Reading.{
  Documented, IsRead, IsQuiet, Says, IsElsewhere, add_all-IsElsewhere, add_all-IsFiled,
  add_all-Says, empty-IsFiled, extract-reads,
}

ok-injective : {A : Type 0} {a b : A} → ◌≡◌ {A = Result Error A} (ok a) (ok b) → a ≡ b
ok-injective h = cc

-- Both steps of a successful pair of steps succeed.
pub then_merge-eq-ok :
    (a b : Merging) (ps : List Provided)
    → then_merge a b ≡ ok ps
    → (xs : List Provided) × (ys : List Provided) × (a ≡ ok xs) × (b ≡ ok ys) × (ps ≡ xs ++ ys)
unfolding then_merge
then_merge-eq-ok (err e) b ps h = absurd (cc)
then_merge-eq-ok (ok xs) (err e) ps h = absurd (cc)
then_merge-eq-ok (ok xs) (ok ys) ps h = (xs, ys, refl, refl, cc)

-- The provider files nothing under `global`, as all do but those of a program's own.
abbrev pub IsLocal : Provided → Type 0
IsLocal = IsElsewhere (codes "global")

module _ (world : World) (spec : LoadSpec) where
  build_from-append :
      (before after : List LayerDef) (ps : List Provided)
      → build_from world spec (before ++ after) ≡ ok ps
      → (xs : List Provided) × (ys : List Provided) × (build_from world spec after ≡ ok ys)
        × (ps ≡ xs ++ ys)
  unfolding build_from
  build_from-append [] after ps h = ([], ps, h, refl)
  build_from-append (l ∷ before) after ps h =
      let (qs, rs, _, e, j) =
        then_merge-eq-ok (layer_of world spec l) (build_from world spec (before ++ after)) ps h in
      let (xs, ys, f, k) = build_from-append before after rs e in
      (qs ++ xs, ys, f, j ∙ ap (λ t. qs ++ t) k ∙ sym (append_assoc qs xs ys))

  -- What the layer merges is quiet at the path.
  abbrev pub IsQuietLayer : (profile : Text) → (path : List Text) → LayerDef → Type 0
  IsQuietLayer profile path l =
      (ps : List Provided) → layer_of world spec l ≡ ok ps → All (IsQuiet profile path) ps

  build_from-IsQuiet :
      (after : List LayerDef) (ps : List Provided) (profile : Text) (path : List Text)
      → build_from world spec after ≡ ok ps
      → All (IsQuietLayer profile path) after
      → All (IsQuiet profile path) ps
  unfolding build_from
  build_from-IsQuiet [] ps profile path h quiet =
      subst (All (IsQuiet profile path)) (ok-injective h) tt
  build_from-IsQuiet (l ∷ after) ps profile path h quiet =
      let (xs, ys, e, k, j) =
        then_merge-eq-ok (layer_of world spec l) (build_from world spec after) ps h in
      subst (All (IsQuiet profile path)) (sym j) (
        All-append (IsQuiet profile path) xs ys (quiet.0 xs e)
          (build_from-IsQuiet after ys profile path k quiet.1))

  -- What a load merges, around one provider of one layer.
  build-around :
      (before after : List LayerDef) (l : LayerDef) (xs ys ps : List Provided) (p : Provided)
      (profile : Text) (path : List Text)
      → layers ≡ before ++ l ∷ after
      → build world spec ≡ ok ps
      → layer_of world spec l ≡ ok (xs ++ p ∷ ys)
      → All (IsQuiet profile path) ys
      → All (IsQuietLayer profile path) after
      → (front : List Provided) × (rest : List Provided) × (ps ≡ front ++ p ∷ rest)
        × All (IsQuiet profile path) rest
  unfolding build
  build-around before after l xs ys ps p profile path order built own quiet above =
      let loop : build_from world spec layers ≡ ok ps =
        after_profile (validated_profile world spec) built in
      let (base, rest, e, j) =
        build_from-append before (l ∷ after) ps
          (subst (λ ls. build_from world spec ls ≡ ok ps) order loop) in
      let (bs, cs, f, g, k) =
        then_merge-eq-ok (layer_of world spec l) (build_from world spec after) rest
          (unfold build_from in e) in
      let same : bs ≡ xs ++ p ∷ ys = ok-injective (sym f ∙ own) in
      (
        base ++ xs,
        ys ++ cs,
        j ∙ ap (λ t. base ++ t) (k ∙ ap (λ t. t ++ cs) same) ∙ simp (append_assoc),
        All-append (IsQuiet profile path) ys cs quiet
            (build_from-IsQuiet after cs profile path g above),
      )
    where
      after_profile :
          (r : Result Error (Option Text))
          → (r >>= λ profile. build_from world spec layers) ≡ ok ps
          → build_from world spec layers ≡ ok ps
      after_profile (ok o) h = h
      after_profile (err e) h = absurd (cc)

  module _ {F : Type 0} (engine : Engine F) (documented : Documented engine) where
    -- The section's value.
    pub merged-reads :
        (before : List Provided) (p : Provided) (after : List Provided) (s : Text) (ss : List Text)
        (v : FigmentValue)
        → build world spec ≡ ok (before ++ p ∷ after)
        → spec.aliases ≡ none
        → All IsRead (before ++ p ∷ after)
        → All IsLocal (before ++ p ∷ after)
        → Says (section_profile spec.key) (s ∷ ss) v p
        → IsAtom v
        → All (IsQuiet (section_profile spec.key) (s ∷ ss)) after
        → (f : F) × (d : Dict) × (merged engine world spec ≡ ok f)
          × (engine.extract f ≡ ok d)
          × (walk (table d) (s ∷ ss) ≡ some v)
    unfolding merged with_aliases
    merged-reads before p after s ss v built plain r local says atom quiet =
        let ps = before ++ p ∷ after in
        let f = add_all engine engine.empty ps in
        let filed =
          add_all-IsFiled engine documented ps engine.empty (empty-IsFiled engine documented) r in
        let (d, e, w) =
          extract-reads engine documented f (section_profile spec.key) (s ∷ ss) v filed
            (add_all-Says engine documented before p after engine.empty (section_profile spec.key)
              (s ∷ ss) v (empty-IsFiled engine documented) r says atom quiet)
            atom
            (rw
              (
                add_all-IsElsewhere engine documented ps engine.empty (codes "global")
                    (empty-IsFiled engine documented) r local,
                documented.filed-empty (codes "global"),
              )
              (unfold get in tt)) in
        (engine.select f (section_profile spec.key), d, rw (built, plain) refl, e, w)

    -- For a load without aliases, whose layers all succeed, whose providers can all be read, have
    -- their keys in order and file nothing under figment's `global` profile, and over a figment that
    -- merges, selects and extracts as its documentation says: the load reads at a path what the topmost
    -- of its layers that says anything there says. That is, for a path of one key or more in the section,
    -- a layer of `LAYERS` and a provider of it that has a value there, no table, where the providers
    -- after it in that layer and in every layer above have nothing there and nothing but tables on the
    -- way there, the load succeeds and has that value at the path, whatever the layers below say.
    pub merged-layer :
        (before after : List LayerDef) (l : LayerDef) (xs ys ps : List Provided) (p : Provided)
        (s : Text) (ss : List Text) (v : FigmentValue)
        → layers ≡ before ++ l ∷ after
        → build world spec ≡ ok ps
        → layer_of world spec l ≡ ok (xs ++ p ∷ ys)
        → spec.aliases ≡ none
        → All IsRead ps
        → All IsLocal ps
        → Says (section_profile spec.key) (s ∷ ss) v p
        → IsAtom v
        → All (IsQuiet (section_profile spec.key) (s ∷ ss)) ys
        → All (IsQuietLayer (section_profile spec.key) (s ∷ ss)) after
        → (f : F) × (d : Dict) × (merged engine world spec ≡ ok f)
          × (engine.extract f ≡ ok d)
          × (walk (table d) (s ∷ ss) ≡ some v)
    merged-layer before after l xs ys ps p s ss v order built own plain r local says atom quiet
          above =
        let (front, rest, e, hush) =
          build-around before after l xs ys ps p (section_profile spec.key) (s ∷ ss) order built own
            quiet above in
        merged-reads front p rest s ss v (built ∙ ap (λ t. ok t) e) plain (subst (All IsRead) e r)
          (subst (All IsLocal) e local) says atom hush
