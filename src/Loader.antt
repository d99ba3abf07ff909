-- ===== src/Loader.antt =====
-- dynamic-config/src/loader/mod.rs and recover.rs: the layers of a load, in order, and a load from the
-- cache. The modules below have what each layer merges.
pub mod Outside
pub mod Sections
pub mod Environment
pub mod Secrets
pub mod Layers
pub mod Resolved
pub mod Reading
pub mod Precedence
pub mod Recovery
pub mod Siblings
pub mod Origin
pub mod Questions
mod Examples
use dynamic_config.Prelude.{
  Bool, true, false, Option, none, some, List, [], ◌∷◌, ◌++◌, ◌&&◌, not, is_some, is_empty, map,
  if◌then◌else◌,
}
use dynamic_config.Prelude.Text.{Text, codes}
use dynamic_config.Prelude.Results.{Result, ok, err, ◌>>=◌, ◌>>◌}
use dynamic_config.Prelude.Paths.{FilePath, components}
use dynamic_config.Error.{Error}
use dynamic_config.Map
use dynamic_config.Map.{Map}
use dynamic_config.Figment.{Dict}
use dynamic_config.Figment.Provided.{Provided, Documents, named, profile_from}
use dynamic_config.Layer
use dynamic_config.Layer.{Layer, dict}
use dynamic_config.Bindings
use dynamic_config.Bindings.{EnvBindings, BindingProvider, providers, data_of}
use dynamic_config.Remote.{Format, Fetched}
use dynamic_config.Source.{
  LoadSpec, Source, Store, Search, source_format, source_path, full_env_prefix,
}
use dynamic_config.Source.Discovery.{resolve}
use dynamic_config.Aliases
use dynamic_config.Aliases.{Gaps, Filling, apply_aliases, split_section}
use dynamic_config.Loader.Layers.{
  defaults_name, overrides_name, flags_name, layer_provider, merge_layer, has_entries,
  merge_discovered, merge_listed, merge_remote, merge_bindings,
}
use dynamic_config.Loader.Outside.{World, section_profile}
use dynamic_config.Loader.Sections.{
  Merging, then_merge, validated_profile, layout_of, merge_file, merge_profile_variant,
  merge_source, merge_named_text,
}
use dynamic_config.Loader.Environment.{
  merge_env_files, merge_environment, environment, reject_ambiguous,
}
use dynamic_config.Loader.Secrets.{merge_secrets_dir}

-- `struct LayerDef`
pub record LayerDef : Type 0 where
  pub name : Text
  pub active : LoadSpec → Bool
  pub merge : World → LoadSpec → Merging

abbrev pub default_layer : LayerDef
default_layer = record {
  name = codes "default";
  active = λ spec. has_entries spec.defaults;
  merge = λ world spec. merge_layer spec.defaults (section_profile spec.key) defaults_name;
}

abbrev pub discovered_layer : LayerDef
discovered_layer = record {
  name = codes "discovered";
  active = λ spec. is_some spec.search;
  merge = merge_discovered;
}

abbrev pub file_layer : LayerDef
file_layer = record {
  name = codes "file";
  active = λ spec. not (is_empty spec.sources);
  merge = merge_listed;
}

-- `remote.is_some_and(|remote| remote.document().is_some())`
unfoldable pub has_document : Option Store → Bool
has_document none = false
has_document (some store) = is_some store.document

abbrev pub remote_layer : LayerDef
remote_layer = record {
  name = codes "remote";
  active = λ spec. has_document spec.remote;
  merge = merge_remote;
}

abbrev pub secrets_layer : LayerDef
secrets_layer = record {
  name = codes "secrets";
  active = λ spec. is_some spec.secrets_dir;
  merge = merge_secrets_dir;
}

abbrev pub env_file_layer : LayerDef
env_file_layer = record {
  name = codes ".env";
  active = λ spec. not (is_empty spec.env_files);
  merge = merge_env_files;
}

abbrev pub environment_layer : LayerDef
environment_layer = record {
  name = codes "environment";
  active = λ spec. is_some (full_env_prefix spec);
  merge = merge_environment;
}

-- `bindings.is_some_and(|bindings| !bindings.is_empty())`
unfoldable pub has_bindings : Option EnvBindings → Bool
has_bindings none = false
has_bindings (some bindings) = not (is_empty bindings.entries)

abbrev pub binding_layer : LayerDef
binding_layer = record {
  name = codes "binding";
  active = λ spec. has_bindings spec.env_bindings;
  merge = merge_bindings;
}

abbrev pub flag_layer : LayerDef
flag_layer = record {
  name = codes "flag";
  active = λ spec. has_entries spec.flags;
  merge = λ world spec. merge_layer spec.flags (section_profile spec.key) flags_name;
}

abbrev pub override_layer : LayerDef
override_layer = record {
  name = codes "override";
  active = λ spec. has_entries spec.overrides;
  merge = λ world spec. merge_layer spec.overrides (section_profile spec.key) overrides_name;
}

-- `LAYERS`
unfoldable pub layers : List LayerDef
layers =
    default_layer ∷ discovered_layer ∷ file_layer ∷ remote_layer ∷ secrets_layer ∷ env_file_layer
    ∷ environment_layer ∷ binding_layer ∷ flag_layer ∷ override_layer ∷ []

module _ (world : World) (spec : LoadSpec) where
  -- One round of the loop of `build`.
  unfoldable pub layer_of : LayerDef → Merging
  layer_of l = if l.active spec then l.merge world spec else ok []

  -- The loop of `build`.
  unfoldable pub build_from : List LayerDef → Merging
  unfolding then_merge layer_of
  build_from [] = ok []
  build_from (l ∷ ls) = then_merge (layer_of l) (build_from ls)

  -- `build`: what is merged into an empty figment.
  unfoldable pub build : Merging
  unfolding validated_profile build_from layers
  build = validated_profile world spec >>= λ profile. build_from layers
