-- ===== src/Source/Discovery.antt =====
-- dynamic-config/src/discovery.rs: where a configuration file is searched.
use dynamic_config.Prelude.{
  Bool, false, Option, none, some, List, [], ◌∷◌, ◌++◌, is_some, if◌then◌else◌,
}
use dynamic_config.Prelude.Text.{Text, codes, text_eq}
use dynamic_config.Prelude.Str.{strip_prefix}
use dynamic_config.Prelude.Paths.{FilePath, components, file_name, extension, file_stem}
use dynamic_config.Remote.{Format, json, toml, yaml}
use dynamic_config.Source.{from_extension}

-- `EXTENSIONS`, with every format compiled in.
abbrev pub extensions : List (Text × Format)
extensions =
    (codes "toml", toml) ∷ (codes "json", json) ∷ (codes "yaml", yaml) ∷ (codes "yml", yaml) ∷ []

-- `trim_start_matches(['/', '\\'])`
unfoldable pub trim_slashes : Text → Text
trim_slashes [] = []
trim_slashes (c ∷ cs) =
    if text_eq (c ∷ []) (codes "/")
    then trim_slashes cs
    else if text_eq (c ∷ []) (codes "\\")
    then trim_slashes cs
    else c ∷ cs

-- `Option::or_else`
unfoldable pub first_of : Option Text → Option Text → Option Text
first_of none b = b
first_of (some a) b = some a

unfoldable pub has_format : Option Text → Bool
unfolding from_extension
has_format none = false
has_format (some ext) = is_some (from_extension ext)

module _ (environment : Text → Option Text) (is_file : FilePath → Bool) where
  -- `expand_home`
  unfoldable pub expand_home : Text → Option FilePath
  unfolding strip_prefix trim_slashes components first_of
  expand_home path = elim (strip_prefix (codes "~") path) [
    | none ↦ some (components path)
    | some rest ↦ elim (first_of (environment (codes "HOME")) (environment (codes "USERPROFILE"))) [
      | none ↦ none
      | some home ↦ some (components home ++ components (trim_slashes rest))
    ]
  ]

  -- The inner loop of `resolve`: the first extension whose file is there.
  unfoldable pub first_match : FilePath → Text → List (Text × Format) → Option (FilePath × Format)
  first_match directory name [] = none
  first_match directory name ((ext, format) ∷ rest) =
      let candidate : FilePath = directory ++ (name ++ (codes "." ++ ext)) ∷ [] in
      if is_file candidate then some (candidate, format) else first_match directory name rest

  -- `Search::resolve`
  unfoldable pub resolve : Text → List Text → List (FilePath × Format)
  unfolding expand_home first_match
  resolve name [] = []
  resolve name (path ∷ paths) =
      let later = resolve name paths in
      elim (expand_home path) [
        | none ↦ later
        | some directory ↦ elim (first_match directory name extensions) [
          | none ↦ later
          | some found ↦ found ∷ later
        ]
      ]

-- `is_candidate`
unfoldable pub is_candidate : FilePath → Text → Bool
unfolding file_name file_stem extension has_format
is_candidate path name = elim (file_name path) [
  | none ↦ false
  | some last ↦ (if text_eq (file_stem last) name then has_format (extension last) else false)
]
