-- ===== src/Loader/Recovery.antt =====
-- What a load from the cache reads of the runtime layers.
use dynamic_config.Prelude.{
  Option, none, some, List, [], ◌∷◌, ◌++◌, ◌≡◌, ◌≢◌, refl, sym, subst, ◌∙◌, ap, All, All-append,
  arith, length, lt, eq, gt,
}
use dynamic_config.Prelude.Text.{Text, codes, cmp, eq_of_cmp}
use dynamic_config.Prelude.Results.{Result, ok}
use dynamic_config.Map
use dynamic_config.Tree.{table, end}
use dynamic_config.Figment.{Dict}
use dynamic_config.Figment.Provided.{Provided, profile_from}
use dynamic_config.Value.WellFormed.{IsWellFormed}
use dynamic_config.Layer.{Layer, dict}
use dynamic_config.Layer.Entries.{IsValid, dict-IsWellFormed}
use dynamic_config.Source.{LoadSpec}
use dynamic_config.Loader.Outside.{World, section_profile}
use dynamic_config.Loader.Sections.{then_merge}
use dynamic_config.Loader.Layers.{
  merge_layer, layer_provider, providers_of, flags_name, overrides_name,
}
use dynamic_config.Loader.Resolved.{
  Engine, add_all, with_aliases, live, over_cache, recovered, cached_provider,
}
use dynamic_config.Loader.Reading.{
  Documented, IsRead, IsFiled, IsElsewhere, of_profile, filed_under, add_all-IsFiled,
  add_all-IsElsewhere, empty-IsFiled,
}

-- What is filed under one profile is not under another.
pub of_profile-ne : (a b : Text) (d : Dict) → b ≢ a → of_profile ((a, d) ∷ []) b ≡ end
unfolding filed_under Map.get
of_profile-ne a b d h = ground (arith, eq_of_cmp b a)

pub of_one :
    (profile : Text) (d : Dict)
    → IsWellFormed (table d)
    → (other : Text) → IsWellFormed (table (of_profile ((profile, d) ∷ []) other))
unfolding filed_under Map.get
of_one profile d w other =
    elim (cmp other profile)
      as (λ o. IsWellFormed (table (filed_under other (elim o [ eq ↦ some d | _ ↦ none ])))) [
        | eq ↦ w
        | lt ↦ (tt, tt)
        | gt ↦ (tt, tt)
      ]

pub ok-injective : {E A : Type 0} {a b : A} → ◌≡◌ {A = Result E A} (ok a) (ok b) → a ≡ b
ok-injective h = cc

-- A valid runtime layer, if there is one.
abbrev pub IsValidLayer : Option Layer → Type 0
IsValidLayer none = Unit
IsValidLayer (some layer) = IsValid layer

pub providers_of-IsElsewhere :
    (layer : Option Layer) (profile name other : Text)
    → other ≢ profile
    → All (IsElsewhere other) (providers_of layer profile name)
unfolding providers_of layer_provider
providers_of-IsElsewhere none profile name other h = tt
providers_of-IsElsewhere (some layer) profile name other h = (
  λ documents e.
      subst (λ ds. of_profile ds other ≡ end) (ok-injective e)
        (of_profile-ne profile other (dict layer) h),
  tt,
)

pub providers_of-IsRead :
    (layer : Option Layer) (profile name : Text)
    → IsValidLayer layer
    → All IsRead (providers_of layer profile name)
unfolding providers_of layer_provider
providers_of-IsRead none profile name v = tt
providers_of-IsRead (some layer) profile name v = (
  record {
    documents = (profile, dict layer) ∷ [];
    are_read = refl;
    are_ordered = of_one profile (dict layer) (dict-IsWellFormed layer v);
  },
  tt,
)

section-ne-key : (key : Text) → section_profile key ≢ profile_from key
unfolding section_profile profile_from
section-ne-key key h = absurd (omega (arith, ap length h))

module _ {F : Type 0} (engine : Engine F) (documented : Documented engine) (world : World) where
  add_all-append :
      (ps qs : List Provided) (f : F)
      → add_all engine f (ps ++ qs) ≡ add_all engine (add_all engine f ps) qs
  unfolding add_all
  add_all-append [] qs f = refl
  add_all-append (p ∷ ps) qs f = add_all-append ps qs (engine.merge f p)

  -- The runtime layers as `recover` files them, and what it merges below them.
  abbrev runtime : LoadSpec → List Provided
  runtime spec =
      providers_of spec.flags (profile_from spec.key) flags_name
      ++ providers_of spec.overrides (profile_from spec.key) overrides_name

  abbrev pub cached_live : LoadSpec → Dict → List Provided → List Provided
  cached_live spec values qs = cached_provider engine world values spec ∷ qs

  -- A figment that is read at a profile other than the key's reads the same with the runtime layers.
  runtime-filed :
      (spec : LoadSpec) (f : F) (profile : Text)
      → IsFiled engine documented f
      → IsValidLayer spec.flags
      → IsValidLayer spec.overrides
      → profile ≢ profile_from spec.key
      → documented.filed (add_all engine f (runtime spec)) profile ≡ documented.filed f profile
  runtime-filed spec f profile h flags overrides away =
      add_all-IsElsewhere engine documented (runtime spec) f profile h
        (All-append IsRead _ _
          (providers_of-IsRead spec.flags (profile_from spec.key) flags_name flags)
          (providers_of-IsRead spec.overrides (profile_from spec.key) overrides_name overrides))
        (All-append (IsElsewhere profile) _ _
          (providers_of-IsElsewhere spec.flags (profile_from spec.key) flags_name profile away)
          (providers_of-IsElsewhere spec.overrides (profile_from spec.key) overrides_name profile
            away))

  extract-runtime :
      (spec : LoadSpec) (f : F)
      → IsFiled engine documented f
      → IsValidLayer spec.flags
      → IsValidLayer spec.overrides
      → codes "default" ≢ profile_from spec.key
      → codes "global" ≢ profile_from spec.key
      → engine.extract (engine.select (add_all engine f (runtime spec)) (section_profile spec.key))
        ≡ engine.extract (engine.select f (section_profile spec.key))
  extract-runtime spec f h flags overrides not_default not_global =
      let g : F = add_all engine f (runtime spec) in
      let filed_g : IsFiled engine documented g =
        add_all-IsFiled engine documented (runtime spec) f h (
          All-append IsRead _ _
            (providers_of-IsRead spec.flags (profile_from spec.key) flags_name flags)
            (providers_of-IsRead spec.overrides (profile_from spec.key) overrides_name
              overrides)) in
      documented.extract-select g (section_profile spec.key) filed_g.sound
      ∙ rw
          (
            runtime-filed spec f (codes "default") h flags overrides not_default,
            runtime-filed spec f (section_profile spec.key) h flags overrides
                (section-ne-key spec.key),
            runtime-filed spec f (codes "global") h flags overrides not_global,
          )
          (sym (documented.extract-select f (section_profile spec.key) h.sound))

  -- A load from the cache reads the flags and the overrides nowhere: with no aliases and a key that is
  -- none of figment's own profiles, it extracts what it would without them, the cache under the `.env`
  -- files, the environment and the bindings.
  pub recovered-drops_runtime :
      (spec : LoadSpec) (values : Dict) (qs : List Provided)
      → live engine world spec ≡ ok qs
      → spec.aliases ≡ none
      → All IsRead (cached_live spec values qs)
      → IsValidLayer spec.flags
      → IsValidLayer spec.overrides
      → codes "default" ≢ profile_from spec.key
      → codes "global" ≢ profile_from spec.key
      → (f : F) × (recovered engine world spec values ≡ ok f)
        × (engine.extract f
            ≡ engine.extract (
                engine.select
                  (add_all engine engine.empty (cached_live spec values qs))
                  (section_profile spec.key)))
  unfolding recovered with_aliases over_cache then_merge merge_layer
  recovered-drops_runtime spec values qs lives plain r flags overrides not_default not_global =
      let base : F = add_all engine engine.empty (cached_live spec values qs) in
      let all : F = add_all engine engine.empty (cached_live spec values qs ++ runtime spec) in
      (
        engine.select all (section_profile spec.key),
        rw (lives, plain) refl,
        rw (add_all-append (cached_live spec values qs) (runtime spec) engine.empty) (
            extract-runtime spec base
              (add_all-IsFiled engine documented (cached_live spec values qs) engine.empty
                (empty-IsFiled engine documented) r)
              flags overrides not_default not_global),
      )
