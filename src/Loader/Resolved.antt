-- ===== src/Loader/Resolved.antt =====
-- dynamic-config/src/loader/mod.rs, aliases_pass.rs and recover.rs: the figment of a load, the section
-- it selects, and the load from the cache.
use dynamic_config.Prelude.{Bool, true, false, Option, none, some, List, [], ◌∷◌, ◌++◌, not}
use dynamic_config.Prelude.Text.{Text, codes, text_eq}
use dynamic_config.Prelude.Results.{Result, ok, ◌>>=◌}
use dynamic_config.Error.{Error}
use dynamic_config.Tree.{end}
use dynamic_config.Figment.{FigmentValue, Dict}
use dynamic_config.Figment.Provided.{Provided, Metadata, Failure, named, profile_from}
use dynamic_config.Layer.{insert_path}
use dynamic_config.Source.{LoadSpec}
use dynamic_config.Aliases.{Gaps, Filling, apply_aliases, split_section}
use dynamic_config.Loader.{LayerDef, layers, build}
use dynamic_config.Loader.Outside.{World, section_profile}
use dynamic_config.Loader.Sections.{Merging, then_merge, validated_profile}
use dynamic_config.Loader.Environment.{merge_env_files, merge_environment}
use dynamic_config.Loader.Layers.{
  defaults_name, flags_name, overrides_name, merge_layer, merge_bindings,
}

-- What the loader calls of the `figment` crate.
pub record Engine (F : Type 0) : Type 0 where
  pub empty : F
  pub merge : F → Provided → F
  pub select : F → Text → F
  pub find_metadata : F → Text → Option Metadata
  pub find_value : F → Text → Option FigmentValue
  pub extract : F → Result Failure Dict

unfoldable pub name_or : Text → Option Metadata → Metadata
name_or from none = named (codes "an alias for " ++ from)
name_or from (some supplier) = supplier

unfoldable pub outranks_defaults : Option Metadata → Bool
outranks_defaults none = false
outranks_defaults (some metadata) = not (text_eq metadata.name defaults_name)

module _ {F : Type 0} (engine : Engine F) where
  -- `figment = figment.merge(..)`, for each provider.
  unfoldable pub add_all : F → List Provided → F
  add_all f [] = f
  add_all f (p ∷ ps) = add_all (engine.merge f p) ps

  -- The figment that an old path is looked up in: that of the section it names, or of the load's own.
  unfoldable pub source_of : LoadSpec → F → Option Text → F
  unfolding section_profile
  source_of spec f none = engine.select f (section_profile spec.key)
  source_of spec f (some section) = engine.select f (section_profile section)

  -- `Aliased` as a provider
  unfoldable pub aliased : LoadSpec → F → (from to : Text) → FigmentValue → Provided
  unfolding section_profile split_section name_or source_of insert_path
  aliased spec f from to value =
      let (section, from_path) = split_section from in
      record {
        metadata = name_or from (engine.find_metadata (source_of spec f section) from_path);
        documents = ok ((section_profile spec.key, insert_path end to value) ∷ []);
      }

  -- What the pass over the aliases asks of figment.
  unfoldable pub gaps : LoadSpec → Gaps F FigmentValue
  unfolding outranks_defaults section_profile split_section source_of aliased
  gaps spec = record {
    supplied = λ f to.
        outranks_defaults (engine.find_metadata (engine.select f (section_profile spec.key)) to);
    value_at = λ f from.
        let (section, from_path) = split_section from in
        engine.find_value (source_of spec f section) from_path;
    fill = λ f from to value. engine.merge f (aliased spec f from to value);
  }

  unfoldable pub filled_or : F → Option (Filling F) → F
  filled_or f none = f
  filled_or f (some s) = s.figment

  -- `apply_aliases`, of the loader
  unfoldable pub with_aliases : LoadSpec → F → F
  unfolding apply_aliases gaps filled_or
  with_aliases spec f = elim spec.aliases [
    | none ↦ f
    | some aliases ↦ filled_or f (apply_aliases (gaps spec) aliases f)
  ]

  module _ (world : World) where
    -- `merged`
    unfoldable pub merged : LoadSpec → Result Error F
    unfolding build add_all with_aliases section_profile
    merged spec = build world spec >>= λ ps.
        ok (engine.select (with_aliases spec (add_all engine.empty ps)) (section_profile spec.key))

    -- The loop of `layer_figments`.
    unfoldable pub figments_of : LoadSpec → List LayerDef → Result Error (List (Text × F))
    unfolding add_all section_profile
    figments_of spec [] = ok []
    figments_of spec (l ∷ ls) =
        let rest = figments_of spec ls in
        elim (l.active spec) [
          | false ↦ rest
          | true ↦ l.merge world spec >>= λ ps.
              (rest >>= λ rows.
              ok (
                (l.name, engine.select (add_all engine.empty ps) (section_profile spec.key))
                ∷ rows))
        ]

    -- `layer_figments`
    unfoldable pub layer_figments : LoadSpec → Result Error (List (Text × F))
    unfolding validated_profile figments_of layers
    layer_figments spec = validated_profile world spec >>= λ profile. figments_of spec layers

    -- `Cached` as a provider
    abbrev pub cached_provider : Dict → LoadSpec → Provided
    cached_provider values spec = record {
      metadata = named (codes "the last configuration that worked");
      documents = ok ((section_profile spec.key, values) ∷ []);
    }

    -- What `recover` merges of the environment.
    unfoldable pub live : LoadSpec → Merging
    unfolding then_merge merge_env_files merge_environment merge_bindings
    live spec =
        then_merge (merge_env_files world spec)
          (then_merge (merge_environment world spec) (merge_bindings world spec))

    -- What `recover` merges, after the cache and in this order. The runtime layers are filed under the
    -- key itself, not under `section_profile` of it.
    unfoldable pub over_cache : LoadSpec → Merging
    unfolding then_merge live merge_layer profile_from
    over_cache spec = then_merge (live spec) (
        then_merge (merge_layer spec.flags (profile_from spec.key) flags_name)
          (merge_layer spec.overrides (profile_from spec.key) overrides_name))

    -- `recover`, up to the figment that it extracts from.
    unfoldable pub recovered : LoadSpec → Dict → Result Error F
    unfolding over_cache add_all with_aliases section_profile
    recovered spec values = over_cache spec >>= λ ps. ok (
        engine.select (with_aliases spec (add_all engine.empty (cached_provider values spec ∷ ps)))
          (section_profile spec.key))
