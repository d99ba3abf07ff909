-- ===== src/Loader/Reading.antt =====
-- What figment's documentation says of the calls that the loader makes, and what a figment that
-- providers were merged into reads.
use dynamic_config.Prelude.{
  Bool, true, Option, none, some, List, [], ◌∷◌, ◌++◌, ◌≡◌, refl, ◌∙◌, All,
}
use dynamic_config.Prelude.Text.{Text, codes}
use dynamic_config.Prelude.Results.{ok}
use dynamic_config.Map
use dynamic_config.Map.{Map}
use dynamic_config.Tree.{table, end}
use dynamic_config.Figment.{FigmentValue, Dict}
use dynamic_config.Figment.Provided.{Provided, Documents}
use dynamic_config.Value.{merge, merge_into, walk}
use dynamic_config.Value.WellFormed.{IsWellFormed, merge-IsWellFormed}
use dynamic_config.Value.Precedence.{IsAtom, Misses, walk-merge_overlay, walk-merge_base}
use dynamic_config.Loader.Resolved.{Engine, add_all}

-- What a provider files under a profile.
unfoldable pub filed_under : Text → Option Dict → Dict
filed_under profile none = end
filed_under profile (some dict) = dict

abbrev pub of_profile : Documents → Text → Dict
of_profile documents profile = filed_under profile (Map.get documents profile)

-- The three profiles that figment reads, the later over the earlier.
abbrev pub layered : Dict → Dict → Dict → Dict
layered defaults selected global = merge_into (merge_into defaults selected) global

-- The documented behaviour of figment: `merge` files a provider's dictionaries under their profiles, over
-- those that are there and table by table; a figment is sound while no provider failed; and a sound
-- figment extracts the selected profile over `default` and under `global`.
pub record Documented {F : Type 0} (engine : Engine F) : Type 0 where
  pub filed : F → Text → Dict
  pub is_sound : F → Bool
  pub filed-empty : (profile : Text) → filed engine.empty profile ≡ end
  pub sound-empty : is_sound engine.empty ≡ true
  pub filed-merge :
      (f : F) (p : Provided) (documents : Documents) (profile : Text)
      → is_sound f ≡ true
      → p.documents ≡ ok documents
      → filed (engine.merge f p) profile
        ≡ merge_into (filed f profile) (of_profile documents profile)
  pub sound-merge :
      (f : F) (p : Provided) (documents : Documents)
      → is_sound f ≡ true
      → p.documents ≡ ok documents
      → is_sound (engine.merge f p) ≡ true
  pub extract-select :
      (f : F) (profile : Text)
      → is_sound f ≡ true
      → engine.extract (engine.select f profile)
        ≡ ok (layered (filed f (codes "default")) (filed f profile) (filed f (codes "global")))

-- The provider was read, and what it files is in key order, as a `BTreeMap` is.
pub record IsRead (p : Provided) : Type 0 where
  pub documents : Documents
  pub are_read : p.documents ≡ ok documents
  pub are_ordered : (profile : Text) → IsWellFormed (table (of_profile documents profile))

-- The provider has nothing at the path under the profile, and nothing but tables above it.
abbrev pub IsQuiet : (profile : Text) → (path : List Text) → Provided → Type 0
IsQuiet profile path p =
    (documents : Documents)
    → p.documents ≡ ok documents
    → Misses path (table (of_profile documents profile))

-- The provider has this value at the path under the profile.
abbrev pub Says : (profile : Text) → (path : List Text) → FigmentValue → Provided → Type 0
Says profile path v p =
    (documents : Documents)
    → p.documents ≡ ok documents
    → walk (table (of_profile documents profile)) path ≡ some v

-- The provider files nothing under the profile.
abbrev pub IsElsewhere : (profile : Text) → Provided → Type 0
IsElsewhere profile p =
    (documents : Documents) → p.documents ≡ ok documents → of_profile documents profile ≡ end

module _ {F : Type 0} (engine : Engine F) (documented : Documented engine) where
  open documented use {filed, is_sound, filed-merge, sound-merge}

  -- What holds of every figment that read providers were merged into.
  pub record IsFiled (f : F) : Type 0 where
    pub sound : is_sound f ≡ true
    pub ordered : (profile : Text) → IsWellFormed (table (filed f profile))

  merge-IsFiled : (f : F) (p : Provided) → IsFiled f → IsRead p → IsFiled (engine.merge f p)
  unfolding merge
  merge-IsFiled f p h r = record {
    sound = sound-merge f p r.documents h.sound r.are_read;
    ordered = λ profile. rw (filed-merge f p r.documents profile h.sound r.are_read) (
        merge-IsWellFormed (table (filed f profile)) (table (of_profile r.documents profile))
          (h.ordered profile) (r.are_ordered profile));
  }

  pub add_all-IsFiled :
      (ps : List Provided) (f : F) → IsFiled f → All IsRead ps → IsFiled (add_all engine f ps)
  unfolding add_all
  add_all-IsFiled [] f h r = h
  add_all-IsFiled (p ∷ ps) f h r =
      add_all-IsFiled ps (engine.merge f p) (merge-IsFiled f p h r.0) r.1

  -- What the figment has at a path under a profile.
  abbrev pub reads : F → (profile : Text) → (path : List Text) → Option FigmentValue
  reads f profile path = walk (table (filed f profile)) path

  merge-IsQuiet :
      (f : F) (p : Provided) (profile : Text) (path : List Text)
      → IsFiled f
      → IsRead p
      → IsQuiet profile path p
      → reads (engine.merge f p) profile path ≡ reads f profile path
  unfolding merge
  merge-IsQuiet f p profile path h r quiet =
      rw (filed-merge f p r.documents profile h.sound r.are_read) (
        walk-merge_base path (table (filed f profile)) (table (of_profile r.documents profile))
          (r.are_ordered profile) (quiet r.documents r.are_read))

  merge-Says :
      (f : F) (p : Provided) (profile : Text) (path : List Text) (v : FigmentValue)
      → IsFiled f
      → IsRead p
      → Says profile path v p
      → IsAtom v
      → reads (engine.merge f p) profile path ≡ some v
  unfolding merge
  merge-Says f p profile path v h r says atom =
      rw (filed-merge f p r.documents profile h.sound r.are_read) (
        walk-merge_overlay path (table (filed f profile)) (table (of_profile r.documents profile)) v
          (r.are_ordered profile) (says r.documents r.are_read) atom)

  pub add_all-IsQuiet :
      (ps : List Provided) (f : F) (profile : Text) (path : List Text)
      → IsFiled f
      → All IsRead ps
      → All (IsQuiet profile path) ps
      → reads (add_all engine f ps) profile path ≡ reads f profile path
  unfolding add_all
  add_all-IsQuiet [] f profile path h r quiet = refl
  add_all-IsQuiet (p ∷ ps) f profile path h r quiet =
      add_all-IsQuiet ps (engine.merge f p) profile path (merge-IsFiled f p h r.0) r.1 quiet.1
      ∙ merge-IsQuiet f p profile path h r.0 quiet.0

  -- The last provider that is not quiet decides.
  pub add_all-Says :
      (before : List Provided) (p : Provided) (after : List Provided) (f : F) (profile : Text)
      (path : List Text) (v : FigmentValue)
      → IsFiled f
      → All IsRead (before ++ p ∷ after)
      → Says profile path v p
      → IsAtom v
      → All (IsQuiet profile path) after
      → reads (add_all engine f (before ++ p ∷ after)) profile path ≡ some v
  unfolding add_all
  add_all-Says [] p after f profile path v h r says atom quiet =
      add_all-IsQuiet after (engine.merge f p) profile path (merge-IsFiled f p h r.0) r.1 quiet
      ∙ merge-Says f p profile path v h r.0 says atom
  add_all-Says (q ∷ before) p after f profile path v h r says atom quiet =
      add_all-Says before p after (engine.merge f q) profile path v (merge-IsFiled f q h r.0) r.1
        says atom quiet

  pub add_all-IsElsewhere :
      (ps : List Provided) (f : F) (profile : Text)
      → IsFiled f
      → All IsRead ps
      → All (IsElsewhere profile) ps
      → filed (add_all engine f ps) profile ≡ filed f profile
  unfolding add_all merge_into
  add_all-IsElsewhere [] f profile h r away = refl
  add_all-IsElsewhere (p ∷ ps) f profile h r away =
      add_all-IsElsewhere ps (engine.merge f p) profile (merge-IsFiled f p h r.0) r.1 away.1
      ∙ filed-merge f p r.0.documents profile h.sound r.0.are_read
      ∙ rw (away.0 r.0.documents r.0.are_read) refl

  pub empty-IsFiled : IsFiled engine.empty
  empty-IsFiled = record {
    sound = documented.sound-empty;
    ordered = λ profile. rw (documented.filed-empty profile) (tt, tt);
  }

  -- What is read under the selected profile is what is extracted, if `global` has nothing to say.
  pub extract-reads :
      (f : F) (profile : Text) (path : List Text) (v : FigmentValue)
      → IsFiled f
      → reads f profile path ≡ some v
      → IsAtom v
      → Misses path (table (filed f (codes "global")))
      → (d : Dict) × (engine.extract (engine.select f profile) ≡ ok d)
        × (walk (table d) path ≡ some v)
  unfolding merge
  extract-reads f profile path v h e atom quiet =
      let defaults : Dict = filed f (codes "default") in
      let global : Dict = filed f (codes "global") in
      (
        layered defaults (filed f profile) global,
        documented.extract-select f profile h.sound,
        walk-merge_base path (table (merge_into defaults (filed f profile))) (table global)
              (h.ordered (codes "global")) quiet
            ∙ walk-merge_overlay path (table defaults) (table (filed f profile)) v
                (h.ordered profile) e atom,
      )
