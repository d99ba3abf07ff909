-- ===== src/Loader/Layers.antt =====
-- dynamic-config/src/loader/mod.rs: what each layer of a load merges.
use dynamic_config.Prelude.{
  Bool, false, Option, none, some, List, [], ◌∷◌, ◌++◌, not, is_empty, map, if◌then◌else◌,
}
use dynamic_config.Prelude.Text.{Text, codes}
use dynamic_config.Prelude.Results.{Result, ok, ◌>>=◌}
use dynamic_config.Prelude.Paths.{FilePath, components}
use dynamic_config.Error.{Error}
use dynamic_config.Map
use dynamic_config.Map.{Map}
use dynamic_config.Figment.Provided.{Provided, named}
use dynamic_config.Layer.{Layer, dict}
use dynamic_config.Bindings
use dynamic_config.Bindings.{EnvBindings, BindingProvider, providers, data_of}
use dynamic_config.Remote.{Format, Fetched}
use dynamic_config.Source.{LoadSpec, Source, source_format, source_path}
use dynamic_config.Source.Discovery.{resolve}
use dynamic_config.Loader.Outside.{World, section_profile}
use dynamic_config.Loader.Sections.{
  Merging, then_merge, validated_profile, layout_of, merge_file, merge_profile_variant,
  merge_source, merge_named_text,
}

-- `Layer::provider`: a runtime layer under a profile.
unfoldable pub layer_provider : Layer → (profile name : Text) → Provided
unfolding dict
layer_provider layer profile name = record {
  metadata = named name;
  documents = ok ((profile, dict layer) ∷ []);
}

abbrev pub defaults_name : Text
defaults_name = codes "values set as defaults"

abbrev pub overrides_name : Text
overrides_name = codes "values set as overrides"

abbrev pub flags_name : Text
flags_name = codes "values set from the command line"

unfoldable pub providers_of : Option Layer → (profile name : Text) → List Provided
unfolding layer_provider
providers_of none profile name = []
providers_of (some layer) profile name = layer_provider layer profile name ∷ []

-- What an optional layer adds, for `merge_defaults`, `merge_flags` and `merge_overrides`.
unfoldable pub merge_layer : Option Layer → (profile name : Text) → Merging
unfolding providers_of
merge_layer layer profile name = ok (providers_of layer profile name)

-- `is_some_and(|layer| !layer.is_empty())`
unfoldable pub has_entries : Option Layer → Bool
has_entries none = false
has_entries (some layer) = not (is_empty layer.entries)

-- `BindingProvider` as a provider
unfoldable pub binding_provider : World → BindingProvider → Provided
unfolding data_of
binding_provider world p = record {
  metadata = named (Bindings.metadata p);
  documents = ok ((section_profile p.key, (data_of world.environment world.read p).1) ∷ []);
}

-- `entries.extend(..)`
unfoldable pub extend : Map Text → Map Text → Map Text
unfolding Map.insert
extend entries [] = entries
extend entries ((name, value) ∷ rest) = extend (Map.insert name value entries) rest

module _ (world : World) where
  -- The loop of `merge_discovered`.
  unfoldable pub merge_found : Option Text → Option Text → List (FilePath × Format) → Merging
  unfolding then_merge merge_file merge_profile_variant
  merge_found profile whole [] = ok []
  merge_found profile whole ((path, format) ∷ rest) =
      then_merge (merge_file world path format whole) (
        then_merge (merge_profile_variant world path format profile whole)
          (merge_found profile whole rest))

  -- `merge_discovered`
  unfoldable pub merge_discovered : LoadSpec → Merging
  unfolding validated_profile layout_of resolve merge_found
  merge_discovered spec = validated_profile world spec >>= λ profile. elim spec.search [
    | none ↦ ok []
    | some search ↦
        merge_found profile (layout_of spec)
          (resolve world.environment world.is_file search.name search.paths)
  ]

  -- The variant of a listed source, if it has a path and a format.
  unfoldable pub variant_of : Option Text → Option Format → Option Text → Option Text → Merging
  unfolding components merge_profile_variant
  variant_of (some path) (some format) profile whole =
      merge_profile_variant world (components path) format profile whole
  variant_of none format profile whole = ok []
  variant_of (some path) none profile whole = ok []

  -- The loop of `merge_listed`.
  unfoldable pub merge_sources : Option Text → Option Text → List Source → Merging
  unfolding then_merge merge_source variant_of
  merge_sources profile whole [] = ok []
  merge_sources profile whole (source ∷ rest) = then_merge (merge_source world source whole) (
      then_merge (variant_of (source_path source) (source_format source) profile whole)
        (merge_sources profile whole rest))

  -- `merge_listed`
  unfoldable pub merge_listed : LoadSpec → Merging
  unfolding validated_profile layout_of merge_sources
  merge_listed spec = validated_profile world spec >>= λ profile.
      merge_sources profile (layout_of spec) spec.sources

  -- `describe().unwrap_or_else(..)`
  unfoldable pub store_name : Option Text → Text
  store_name none = codes "(unnamed)"
  store_name (some text) = text

  unfoldable pub merge_document : Option Fetched → Option Text → LoadSpec → Merging
  unfolding merge_named_text layout_of store_name
  merge_document none described spec = ok []
  merge_document (some document) described spec =
      merge_named_text world document.text document.format
        (codes "the remote store " ++ store_name described) none (layout_of spec)

  -- `merge_remote`
  unfoldable pub merge_remote : LoadSpec → Merging
  unfolding merge_document
  merge_remote spec = elim spec.remote [
    | none ↦ ok []
    | some store ↦ merge_document store.document store.described spec
  ]

  -- The loop of `env_file_entries`.
  unfoldable pub read_env_files : List Text → Map Text → Result Error (Map Text)
  unfolding extend
  read_env_files [] entries = ok entries
  read_env_files (path ∷ rest) entries =
      world.env_file path >>= λ found. read_env_files rest (extend entries found)

  -- `env_file_entries`, where something is bound.
  unfoldable pub env_file_entries : LoadSpec → EnvBindings → Result Error (Map Text)
  unfolding read_env_files
  env_file_entries spec bindings =
      if is_empty bindings.entries then ok [] else read_env_files spec.env_files []

  -- `merge_bindings`
  unfoldable pub merge_bindings : LoadSpec → Merging
  unfolding env_file_entries providers binding_provider
  merge_bindings spec = elim spec.env_bindings [
    | none ↦ ok []
    | some bindings ↦ env_file_entries spec bindings >>= λ fallback.
        ok
          (map (binding_provider world) (providers spec.key spec.allow_empty_env fallback bindings))
  ]
