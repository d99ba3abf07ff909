-- ===== src/Loader/Environment.antt =====
-- dynamic-config/src/loader/environment.rs: the environment layer, and the `.env` files below it.
use dynamic_config.Prelude.{
  Bool, true, false, Option, none, some, List, [], ◌∷◌, ◌++◌, ◌&&◌, ◌||◌, not, is_empty,
  if◌then◌else◌, is_some,
}
use dynamic_config.Prelude.Text.{Text, codes}
use dynamic_config.Prelude.Str.{trim, eq_ignore_ascii_case, strip_prefix_ignoring_case}
use dynamic_config.Prelude.Results.{Result, ok, err, ◌>>=◌, ◌>>◌}
use dynamic_config.Error
use dynamic_config.Error.{Error, ErrorKind, with_origin}
use dynamic_config.Map.{Map}
use dynamic_config.Figment.Provided.{Provided}
use dynamic_config.Source.{LoadSpec, full_env_prefix}
use dynamic_config.Dotenv.Provider.{provider_of}
use dynamic_config.Loader.Outside.{World, section_profile}
use dynamic_config.Loader.Sections.{Merging, then_merge}

-- `AMBIGUOUS`
abbrev pub ambiguous_words : List Text
ambiguous_words =
    codes "yes"
    ∷ codes "no"
    ∷ codes "on"
    ∷ codes "off"
    ∷ codes "null"
    ∷ codes "nil"
    ∷ codes "none"
    ∷ []

-- `iter().any(|candidate| candidate.eq_ignore_ascii_case(text))`
unfoldable pub any_ignoring_case : List Text → Text → Bool
unfolding eq_ignore_ascii_case
any_ignoring_case [] text = false
any_ignoring_case (w ∷ ws) text = eq_ignore_ascii_case w text || any_ignoring_case ws text

-- `is_ambiguous`
unfoldable pub is_ambiguous : Text → Bool
unfolding any_ignoring_case trim
is_ambiguous value = any_ignoring_case ambiguous_words (trim value)

-- `ambiguous`
abbrev pub ambiguous : Text → Error
ambiguous variable = Error.new ErrorKind.env (
    codes "`"
    ++ (variable
        ++ codes
            "` is set to one of the ambiguous yes/no/on/off spellings, which `strict_env` refuses: it would arrive as a string, not a boolean; write `true`, `false`, or the value you mean"))

-- Whether a variable is one that `reject_ambiguous` refuses.
unfoldable pub is_refused : (prefix name value : Text) → Bool
unfolding strip_prefix_ignoring_case is_ambiguous
is_refused prefix name value =
    is_some (strip_prefix_ignoring_case name prefix) && is_ambiguous value

-- `reject_ambiguous`: a name or a value that is no UTF-8 is passed over.
unfoldable pub reject_ambiguous : List (Option Text × Option Text) → Text → Result Error (Unit {0})
unfolding is_refused
reject_ambiguous [] prefix = ok tt
reject_ambiguous ((some name, some value) ∷ rest) prefix =
    if is_refused prefix name value then err (ambiguous name) else reject_ambiguous rest prefix
reject_ambiguous ((some name, none) ∷ rest) prefix = reject_ambiguous rest prefix
reject_ambiguous ((none, _) ∷ rest) prefix = reject_ambiguous rest prefix

-- `empty_keys`: a value that is no UTF-8 is not blank.
unfoldable pub empty_keys : List (Option Text × Option Text) → Text → List Text
unfolding trim strip_prefix_ignoring_case
empty_keys [] prefix = []
empty_keys ((some name, some value) ∷ rest) prefix =
    let later = empty_keys rest prefix in
    elim (strip_prefix_ignoring_case name prefix) [
      | none ↦ later
      | some key ↦ (if is_empty (trim value) then key ∷ later else later)
    ]
empty_keys ((some name, none) ∷ rest) prefix = empty_keys rest prefix
empty_keys ((none, _) ∷ rest) prefix = empty_keys rest prefix

-- The first entry whose value is ambiguous.
unfoldable pub first_ambiguous : Map Text → Option Text
unfolding is_ambiguous
first_ambiguous [] = none
first_ambiguous ((name, value) ∷ rest) =
    if is_ambiguous value then some name else first_ambiguous rest

module _ (world : World) where
  -- `environment`
  unfoldable pub environment : (prefix key nest : Text) → (allow_empty : Bool) → Provided
  unfolding empty_keys any_ignoring_case
  environment prefix key nest allow_empty =
      world.prefixed prefix
        (λ name.
          if allow_empty
          then true
          else not (any_ignoring_case (empty_keys world.variables prefix) name))
        nest (section_profile key)

  -- The body of the loop of `merge_env_files`, for the entries of the file and the ambiguous one that
  -- strict mode found.
  unfoldable pub merge_entries : LoadSpec → (prefix path : Text) → Map Text → Option Text → Merging
  unfolding provider_of with_origin
  merge_entries spec prefix path [] refused = ok []
  merge_entries spec prefix path (entry ∷ entries) (some name) =
      err (with_origin (Error.file path) (ambiguous name))
  merge_entries spec prefix path (entry ∷ entries) none = ok (
      provider_of world.read spec.allow_empty_env prefix spec.nest path (section_profile spec.key)
        (entry ∷ entries)
      ∷ [])

  unfoldable pub merge_env_file : LoadSpec → (prefix path : Text) → Merging
  unfolding merge_entries first_ambiguous
  merge_env_file spec prefix path = world.env_file path >>= λ entries.
      merge_entries spec prefix path entries
        (if spec.strict_env then first_ambiguous entries else none)

  -- The loop of `merge_env_files`.
  unfoldable pub merge_each_env_file : LoadSpec → Text → List Text → Merging
  unfolding merge_env_file then_merge
  merge_each_env_file spec prefix [] = ok []
  merge_each_env_file spec prefix (path ∷ rest) =
      then_merge (merge_env_file spec prefix path) (merge_each_env_file spec prefix rest)

  -- `merge_env_files`
  unfoldable pub merge_env_files : LoadSpec → Merging
  unfolding full_env_prefix merge_each_env_file
  merge_env_files spec = elim (full_env_prefix spec) [
    | none ↦ ok []
    | some prefix ↦ merge_each_env_file spec prefix spec.env_files
  ]

  -- `merge_environment`
  unfoldable pub merge_environment : LoadSpec → Merging
  unfolding full_env_prefix environment reject_ambiguous
  merge_environment spec = elim (full_env_prefix spec) [
    | none ↦ ok []
    | some prefix ↦
        (if spec.strict_env then reject_ambiguous world.variables prefix else ok tt)
        >> ok (environment prefix spec.key spec.nest spec.allow_empty_env ∷ [])
  ]
