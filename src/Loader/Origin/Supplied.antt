-- ===== src/Loader/Origin/Supplied.antt =====
-- The origins of what a remote store, the `.env` files and the bindings give.
use dynamic_config.Prelude.{
  Option, none, some, List, [], ◌∷◌, ◌++◌, ◌≡◌, inl, sym, subst, All, map, if◌then◌else◌,
}
use dynamic_config.Prelude.Text.{Text, codes}
use dynamic_config.Prelude.Results.{Result, ok, err, ◌>>=◌}
use dynamic_config.Map.{Map}
use dynamic_config.Error.{Error, Origin}
use dynamic_config.Remote.{Fetched}
use dynamic_config.Figment.Provided.{Provided}
use dynamic_config.Bindings.{EnvBindings, providers}
use dynamic_config.Source.{LoadSpec, Store, full_env_prefix}
use dynamic_config.Dotenv.Provider.{provider_of}
use dynamic_config.Loader.Outside.{World, section_profile}
use dynamic_config.Loader.Sections.{renamed, sectioned, merge_named_text, layout_of}
use dynamic_config.Loader.Environment.{
  merge_entries, merge_env_file, merge_each_env_file, merge_env_files, first_ambiguous,
}
use dynamic_config.Loader.Layers.{
  binding_provider, store_name, merge_document, merge_remote, env_file_entries, merge_bindings,
}
use dynamic_config.Loader.Recovery.{ok-injective}
use dynamic_config.Loader.Origin.Named.{
  IsFrom, IsOneOf, All-IsOneOf, then_merge-IsFrom, one-IsFrom, none-IsFrom, binding_name,
  env_file_name, store_document_name,
}

module _ (world : World) (spec : LoadSpec) where
  -- Where the values of a remote store and of the bindings are from.
  abbrev pub store_origins : Option Store → List Origin
  store_origins none = []
  store_origins (some store) = Origin.remote (store_name world store.described) ∷ []

  abbrev pub binding_origins : Option EnvBindings → List Origin
  binding_origins none = []
  binding_origins (some bindings) = map (λ bound. Origin.env bound.1) bindings.entries

  merge_document-IsFrom :
      (document : Option Fetched) (described : Option Text) (ps : List Provided)
      → merge_document world document described spec ≡ ok ps
      → All (IsFrom (IsOneOf (Origin.remote (store_name world described) ∷ []))) ps
  unfolding merge_document merge_named_text
  merge_document-IsFrom none described ps h =
      none-IsFrom (IsOneOf (Origin.remote (store_name world described) ∷ [])) ps h
  merge_document-IsFrom (some document) described ps h =
      let inner = sectioned (layout_of spec) (world.parsed document.text document.format) in
      one-IsFrom (IsOneOf (Origin.remote (store_name world described) ∷ []))
        (renamed (codes "the remote store " ++ store_name world described) none inner) ps
        (inl (store_document_name (store_name world described) inner)) h

  pub merge_remote-IsFrom :
      (ps : List Provided)
      → merge_remote world spec ≡ ok ps
      → All (IsFrom (IsOneOf (store_origins spec.remote))) ps
  unfolding merge_remote
  merge_remote-IsFrom ps h = at spec.remote h
    where
      at :
          (store : Option Store)
          → (elim store [
            | none ↦ ok []
            | some s ↦ merge_document world s.document s.described spec
          ])
            ≡ ok ps
          → All (IsFrom (IsOneOf (store_origins store))) ps
      at none q = none-IsFrom (IsOneOf []) ps q
      at (some s) q = merge_document-IsFrom s.document s.described ps q

  merge_entries-IsFrom :
      (P : Origin → Type 0) (prefix path : Text) (entries : Map Text) (refused : Option Text)
      (ps : List Provided)
      → P (Origin.file path)
      → merge_entries world spec prefix path entries refused ≡ ok ps
      → All (IsFrom P) ps
  unfolding merge_entries
  merge_entries-IsFrom P prefix path [] refused ps from h = none-IsFrom P ps h
  merge_entries-IsFrom P prefix path (e ∷ entries) (some name) ps from h = absurd (cc)
  merge_entries-IsFrom P prefix path (e ∷ entries) none ps from h =
      one-IsFrom P
        (provider_of world.read spec.allow_empty_env prefix spec.nest path
          (section_profile spec.key) (e ∷ entries))
        ps (subst P (sym (env_file_name world spec prefix path (e ∷ entries))) from) h

  merge_env_file-IsFrom :
      (P : Origin → Type 0) (prefix path : Text) (ps : List Provided)
      → P (Origin.file path)
      → merge_env_file world spec prefix path ≡ ok ps
      → All (IsFrom P) ps
  unfolding merge_env_file
  merge_env_file-IsFrom P prefix path ps from h = go (world.env_file path) h
    where
      go :
          (r : Result Error (Map Text))
          → (r >>= λ entries.
              merge_entries world spec prefix path entries
                (if spec.strict_env then first_ambiguous entries else none))
            ≡ ok ps
          → All (IsFrom P) ps
      go (err e) q = absurd (cc)
      go (ok entries) q =
          merge_entries-IsFrom P prefix path entries
            (if spec.strict_env then first_ambiguous entries else none) ps from q

  merge_each_env_file-IsFrom :
      (P : Origin → Type 0) (prefix : Text) (paths : List Text) (ps : List Provided)
      → All (λ path. P (Origin.file path)) paths
      → merge_each_env_file world spec prefix paths ≡ ok ps
      → All (IsFrom P) ps
  unfolding merge_each_env_file
  merge_each_env_file-IsFrom P prefix [] ps from h = none-IsFrom P ps h
  merge_each_env_file-IsFrom P prefix (path ∷ paths) ps from h =
      then_merge-IsFrom P (merge_env_file world spec prefix path)
        (merge_each_env_file world spec prefix paths) ps
        (λ xs. merge_env_file-IsFrom P prefix path xs from.0)
        (λ ys. merge_each_env_file-IsFrom P prefix paths ys from.1) h

  pub merge_env_files-IsFrom :
      (ps : List Provided)
      → merge_env_files world spec ≡ ok ps
      → All (IsFrom (IsOneOf (map Origin.file spec.env_files))) ps
  unfolding merge_env_files
  merge_env_files-IsFrom ps h = at (full_env_prefix spec) h
    where
      at :
          (prefix : Option Text)
          → (elim prefix [
            | none ↦ ok []
            | some t ↦ merge_each_env_file world spec t spec.env_files
          ])
            ≡ ok ps
          → All (IsFrom (IsOneOf (map Origin.file spec.env_files))) ps
      at none q = none-IsFrom (IsOneOf (map Origin.file spec.env_files)) ps q
      at (some prefix) q =
          merge_each_env_file-IsFrom (IsOneOf (map Origin.file spec.env_files)) prefix
            spec.env_files ps
            (All-IsOneOf Origin.file spec.env_files (IsOneOf (map Origin.file spec.env_files))
              (λ o m. m))
            q

  providers-IsFrom :
      (P : Origin → Type 0) (fallback : Map Text) (entries : Map Text)
      → All (λ (bound : Text × Text). P (Origin.env bound.1)) entries
      → All (IsFrom P) (
          map
            (binding_provider world)
            (providers spec.key spec.allow_empty_env fallback (record { entries = entries })))
  unfolding providers
  providers-IsFrom P fallback [] from = tt
  providers-IsFrom P fallback (bound ∷ entries) from = (
    subst P
        (sym (
          binding_name world (record {
            path = bound.0;
            variable = bound.1;
            key = spec.key;
            allow_empty = spec.allow_empty_env;
            fallback = fallback;
          })))
        from.0,
    providers-IsFrom P fallback entries from.1,
  )

  pub merge_bindings-IsFrom :
      (ps : List Provided)
      → merge_bindings world spec ≡ ok ps
      → All (IsFrom (IsOneOf (binding_origins spec.env_bindings))) ps
  unfolding merge_bindings
  merge_bindings-IsFrom ps h = at spec.env_bindings h
    where
      at :
          (o : Option EnvBindings)
          → (elim o [
            | none ↦ ok []
            | some bindings ↦ env_file_entries world spec bindings >>= λ fallback. ok (
                map
                  (binding_provider world)
                  (providers spec.key spec.allow_empty_env fallback bindings))
          ])
            ≡ ok ps
          → All (IsFrom (IsOneOf (binding_origins o))) ps
      at none q = none-IsFrom (IsOneOf []) ps q
      at (some bindings) q = read (env_file_entries world spec bindings) q
        where
          read :
              (r : Result Error (Map Text))
              → (r >>= λ fallback. ok (
                  map
                    (binding_provider world)
                    (providers spec.key spec.allow_empty_env fallback bindings)))
                ≡ ok ps
              → All (IsFrom (IsOneOf (binding_origins (some bindings)))) ps
          read (err e) g = absurd (cc)
          read (ok fallback) g =
              subst (All (IsFrom (IsOneOf (binding_origins (some bindings))))) (ok-injective g) (
                providers-IsFrom (IsOneOf (binding_origins (some bindings))) fallback
                  bindings.entries
                  (All-IsOneOf (λ (bound : Text × Text). Origin.env bound.1) bindings.entries
                    (IsOneOf (binding_origins (some bindings))) (λ o m. m)))
