-- ===== src/Loader/Origin/Traced.antt =====
-- The origins of what the layers of a load merge, for the layers that name their own source.
use dynamic_config.Prelude.{Bool, true, false, List, [], ◌∷◌, ◌≡◌, All, map, if◌then◌else◌}
use dynamic_config.Prelude.Text.{codes}
use dynamic_config.Prelude.Results.{ok}
use dynamic_config.Error.{Origin}
use dynamic_config.Figment.Provided.{Provided}
use dynamic_config.Source.{LoadSpec}
use dynamic_config.Loader.{
  LayerDef, layer_of, default_layer, remote_layer, secrets_layer, env_file_layer, binding_layer,
  flag_layer, override_layer,
}
use dynamic_config.Loader.Outside.{World, section_profile}
use dynamic_config.Loader.Layers.{defaults_name, overrides_name, flags_name}
use dynamic_config.Loader.Origin.Named.{
  IsFrom, IsOneOf, none-IsFrom, runtime_names, merge_layer-IsFrom,
}
use dynamic_config.Loader.Origin.Mounted.{secret_origins, merge_secrets_dir-IsFrom}
use dynamic_config.Loader.Origin.Supplied.{
  store_origins, binding_origins, merge_remote-IsFrom, merge_env_files-IsFrom,
  merge_bindings-IsFrom,
}

module _ (world : World) (spec : LoadSpec) where
  layer_of-IsFrom :
      (l : LayerDef) (P : Origin → Type 0) (ps : List Provided)
      → ((qs : List Provided) → l.merge world spec ≡ ok qs → All (IsFrom P) qs)
      → layer_of world spec l ≡ ok ps
      → All (IsFrom P) ps
  unfolding layer_of
  layer_of-IsFrom l P ps merges h = at (l.active spec) h
    where
      at : (b : Bool) → (if b then l.merge world spec else ok []) ≡ ok ps → All (IsFrom P) ps
      at true q = merges ps q
      at false q = none-IsFrom P ps q

  -- Seven layers of a load are traced to their own sources. A default, a flag and an override are traced
  -- to the kind of layer they were set in, a store's document to the store's description, or to its
  -- stand-in if it has none, a secret to an entry of the secrets directory, a `.env` file's values to one
  -- of the files that the spec lists, and a binding to a variable that is bound. That holds of every
  -- provider that the layer merges, where no layer fails.
  pub layers-AreTraced :
      (ds rs ss es bs fs os : List Provided)
      → layer_of world spec default_layer ≡ ok ds
      → layer_of world spec remote_layer ≡ ok rs
      → layer_of world spec secrets_layer ≡ ok ss
      → layer_of world spec env_file_layer ≡ ok es
      → layer_of world spec binding_layer ≡ ok bs
      → layer_of world spec flag_layer ≡ ok fs
      → layer_of world spec override_layer ≡ ok os
      → All (IsFrom (IsOneOf (Origin.runtime (codes "default") ∷ []))) ds
        × All (IsFrom (IsOneOf (store_origins world spec spec.remote))) rs
        × All (IsFrom (IsOneOf (secret_origins world spec spec.secrets_dir))) ss
        × All (IsFrom (IsOneOf (map Origin.file spec.env_files))) es
        × All (IsFrom (IsOneOf (binding_origins world spec spec.env_bindings))) bs
        × All (IsFrom (IsOneOf (Origin.runtime (codes "command-line flag") ∷ []))) fs
        × All (IsFrom (IsOneOf (Origin.runtime (codes "override") ∷ []))) os
  layers-AreTraced ds rs ss es bs fs os hd hr hs he hb hf ho = (
    layer_of-IsFrom default_layer (IsOneOf (Origin.runtime (codes "default") ∷ [])) ds
        (λ qs.
          merge_layer-IsFrom spec.defaults (section_profile spec.key) defaults_name
            (Origin.runtime (codes "default")) qs
            (λ l. (runtime_names l (section_profile spec.key)).0))
        hd,
    layer_of-IsFrom remote_layer (IsOneOf (store_origins world spec spec.remote)) rs
        (merge_remote-IsFrom world spec) hr,
    layer_of-IsFrom secrets_layer (IsOneOf (secret_origins world spec spec.secrets_dir)) ss
        (merge_secrets_dir-IsFrom world spec) hs,
    layer_of-IsFrom env_file_layer (IsOneOf (map Origin.file spec.env_files)) es
        (merge_env_files-IsFrom world spec) he,
    layer_of-IsFrom binding_layer (IsOneOf (binding_origins world spec spec.env_bindings)) bs
        (merge_bindings-IsFrom world spec) hb,
    layer_of-IsFrom flag_layer (IsOneOf (Origin.runtime (codes "command-line flag") ∷ [])) fs
        (λ qs.
          merge_layer-IsFrom spec.flags (section_profile spec.key) flags_name
            (Origin.runtime (codes "command-line flag")) qs
            (λ l. (runtime_names l (section_profile spec.key)).1))
        hf,
    layer_of-IsFrom override_layer (IsOneOf (Origin.runtime (codes "override") ∷ [])) os
        (λ qs.
          merge_layer-IsFrom spec.overrides (section_profile spec.key) overrides_name
            (Origin.runtime (codes "override")) qs
            (λ l. (runtime_names l (section_profile spec.key)).2))
        ho,
  )
