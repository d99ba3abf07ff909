-- ===== src/Loader/Origin/Mounted.antt =====
-- The origins of what the secrets directory gives.
use dynamic_config.Prelude.{
  Bool, true, false, Option, none, some, List, [], ◌∷◌, ◌≡◌, sym, subst, All, map, lt, eq, gt,
}
use dynamic_config.Prelude.Text.{Text}
use dynamic_config.Prelude.Paths.{FilePath, components, display}
use dynamic_config.Prelude.Results.{ok, err}
use dynamic_config.Error.{Origin}
use dynamic_config.Figment.Provided.{Provided}
use dynamic_config.Source.{LoadSpec}
use dynamic_config.Loader.Outside.{World, Io, missing, broken, done}
use dynamic_config.Loader.Sections.{then_merge}
use dynamic_config.Loader.Secrets.{
  key_of, place, sort, cmp_path, secret, read_secret, read_entry, read_each, merge_secrets_dir,
  io_error, trim_one_newline,
}
use dynamic_config.Loader.Origin.Named.{
  IsFrom, IsOneOf, All-IsOneOf, then_merge-IsFrom, one-IsFrom, none-IsFrom, secret_name,
}

All-place :
    (P : FilePath → Type 0) (a : FilePath) (xs : List FilePath)
    → P a
    → All P xs
    → All P (place a xs)
unfolding place
All-place P a [] h hs = (h, tt)
All-place P a (x ∷ xs) h hs =
    elim (cmp_path a x)
      as (λ o. All P (elim o as (λ _. List FilePath) [ gt ↦ x ∷ place a xs | _ ↦ a ∷ x ∷ xs ])) [
        | gt ↦ (hs.0, All-place P a xs h hs.1)
        | lt ↦ (h, hs)
        | eq ↦ (h, hs)
      ]

All-sort : (P : FilePath → Type 0) (xs : List FilePath) → All P xs → All P (sort xs)
unfolding sort
All-sort P [] h = tt
All-sort P (x ∷ xs) h = All-place P x (sort xs) h.0 (All-sort P xs h.1)

module _ (world : World) (spec : LoadSpec) where
  -- Where the values of a directory of secrets are from.
  abbrev pub listed_origins : Io (List FilePath) → List Origin
  listed_origins (missing message) = []
  listed_origins (broken message) = []
  listed_origins (done paths) = map (λ path. Origin.file (display path)) paths

  abbrev pub secret_origins : Option Text → List Origin
  secret_origins none = []
  secret_origins (some directory) = listed_origins (world.directory (components directory))

  read_secret-IsFrom :
      (P : Origin → Type 0) (path : FilePath) (key : Text) (contents : Io Text) (ps : List Provided)
      → P (Origin.file (display path))
      → read_secret world spec path key contents ≡ ok ps
      → All (IsFrom P) ps
  unfolding read_secret
  read_secret-IsFrom P path key (missing message) ps from h = absurd (cc)
  read_secret-IsFrom P path key (broken message) ps from h = absurd (cc)
  read_secret-IsFrom P path key (done text) ps from h =
      one-IsFrom P (secret path key (trim_one_newline text) spec.key) ps
        (subst P (sym (secret_name path key (trim_one_newline text) spec.key)) from) h

  read_entry-IsFrom :
      (P : Origin → Type 0) (path : FilePath) (key : Text) (is_regular : Io Bool)
      (ps : List Provided)
      → P (Origin.file (display path))
      → read_entry world spec path key is_regular ≡ ok ps
      → All (IsFrom P) ps
  unfolding read_entry
  read_entry-IsFrom P path key (missing message) ps from h = none-IsFrom P ps h
  read_entry-IsFrom P path key (broken message) ps from h = absurd (cc)
  read_entry-IsFrom P path key (done true) ps from h =
      read_secret-IsFrom P path key (world.contents path) ps from h
  read_entry-IsFrom P path key (done false) ps from h = none-IsFrom P ps h

  read_each-IsFrom :
      (P : Origin → Type 0) (paths : List FilePath) (ps : List Provided)
      → All (λ path. P (Origin.file (display path))) paths
      → read_each world spec paths ≡ ok ps
      → All (IsFrom P) ps
  unfolding read_each
  read_each-IsFrom P [] ps from h = none-IsFrom P ps h
  read_each-IsFrom P (path ∷ paths) ps from h =
      at (key_of path spec.nest) (λ ys. read_each-IsFrom P paths ys from.1) h
    where
      at :
          (key : Option Text)
          → ((ys : List Provided) → read_each world spec paths ≡ ok ys → All (IsFrom P) ys)
          → (elim key [
            | none ↦ read_each world spec paths
            | some k ↦
                then_merge
                  (read_entry world spec path k (world.is_regular path))
                  (read_each world spec paths)
          ])
            ≡ ok ps
          → All (IsFrom P) ps
      at none later q = later ps q
      at (some k) later q =
          then_merge-IsFrom P (read_entry world spec path k (world.is_regular path))
            (read_each world spec paths) ps
            (λ xs. read_entry-IsFrom P path k (world.is_regular path) xs from.0) later q

  merge_listed-IsFrom :
      (directory : FilePath) (listing : Io (List FilePath)) (ps : List Provided)
      → (elim listing [
        | missing message ↦ ok []
        | broken message ↦ err (io_error directory message)
        | done paths ↦ read_each world spec (sort paths)
      ])
        ≡ ok ps
      → All (IsFrom (IsOneOf (listed_origins listing))) ps
  merge_listed-IsFrom directory (missing message) ps h = none-IsFrom (IsOneOf []) ps h
  merge_listed-IsFrom directory (broken message) ps h = absurd (cc)
  merge_listed-IsFrom directory (done paths) ps h =
      read_each-IsFrom (IsOneOf (listed_origins (done paths))) (sort paths) ps
        (All-sort (λ path. IsOneOf (listed_origins (done paths)) (Origin.file (display path))) paths
          (All-IsOneOf (λ (path : FilePath). Origin.file (display path)) paths
            (IsOneOf (listed_origins (done paths))) (λ o m. m)))
        h

  pub merge_secrets_dir-IsFrom :
      (ps : List Provided)
      → merge_secrets_dir world spec ≡ ok ps
      → All (IsFrom (IsOneOf (secret_origins spec.secrets_dir))) ps
  unfolding merge_secrets_dir
  merge_secrets_dir-IsFrom ps h = at spec.secrets_dir h
    where
      at :
          (o : Option Text)
          → (elim o [
            | none ↦ ok []
            | some directory ↦ elim (world.directory (components directory)) [
              | missing message ↦ ok []
              | broken message ↦ err (io_error (components directory) message)
              | done paths ↦ read_each world spec (sort paths)
            ]
          ])
            ≡ ok ps
          → All (IsFrom (IsOneOf (secret_origins o))) ps
      at none q = none-IsFrom (IsOneOf []) ps q
      at (some directory) q =
          merge_listed-IsFrom (components directory) (world.directory (components directory)) ps q
