-- ===== src/Loader/Sections.antt =====
-- dynamic-config/src/loader/sections.rs: how a source becomes a layer of documents filed by section, and
-- how a profile names the file beside it.
use dynamic_config.Prelude.{
  Bool, Option, none, some, List, [], ◌∷◌, ◌++◌, ◌&&◌, ◌||◌, not, if◌then◌else◌,
}
use dynamic_config.Prelude.Text.{Text, codes, text_eq}
use dynamic_config.Prelude.Str.{contains}
use dynamic_config.Prelude.Results.{Result, ok, err, ◌>>=◌}
use dynamic_config.Prelude.Paths.{
  FilePath, components, display, file_name, with_file_name, file_stem, extension,
}
use dynamic_config.Error
use dynamic_config.Error.{Error, ErrorKind, with_origin}
use dynamic_config.Map
use dynamic_config.Map.{Map}
use dynamic_config.Tree.{leaf, array, table, end, entry}
use dynamic_config.Figment.{Dict}
use dynamic_config.Remote.{Format}
use dynamic_config.Source.{
  Source, Kind, LoadSpec, inner_name, encrypted_suffix, profile_of, file, encrypted, inline,
  provider,
}
use dynamic_config.Figment.Provided.{Provided, Documents, from_file, Failure, failure, named}
use dynamic_config.Loader.Outside.{World, missing, broken, done, section_profile}

-- `SCHEMA_KEY`
abbrev pub schema_key : Text
schema_key = codes "$schema"

-- `Dict::remove`
unfoldable pub without : Text → Dict → Dict
without k end = end
without k (entry j v rest) = if text_eq k j then rest else entry j v (without k rest)

abbrev pub not_a_table : Text → Failure
not_a_table key = failure (
    codes "top-level key `"
    ++ (key
        ++ codes
            "` is not a table; every top-level key in a config file is a section, so a value there must be a table (`$schema` is the one exception). If this file is not sectioned — if the whole of it is one configuration — read it with `.whole_document()`"))

-- The inner loop of `Sections::data`: each top-level key files its table under its own profile.
unfoldable pub file_sections : Dict → Documents → Result Failure Documents
unfolding Map.insert section_profile
file_sections end sections = ok sections
file_sections (entry key (table dict) rest) sections =
    if text_eq key schema_key
    then file_sections rest sections
    else file_sections rest (Map.insert (section_profile key) dict sections)
file_sections (entry key (leaf x) rest) sections =
    if text_eq key schema_key then file_sections rest sections else err (not_a_table key)
file_sections (entry key (array xs) rest) sections =
    if text_eq key schema_key then file_sections rest sections else err (not_a_table key)

-- The outer loop: one document, for `whole` as the layout.
unfoldable pub file_documents : Option Text → Map Dict → Documents → Result Failure Documents
unfolding file_sections without Map.insert section_profile
file_documents whole [] sections = ok sections
file_documents (some key) ((_, document) ∷ rest) sections =
    file_documents (some key) rest
      (Map.insert (section_profile key) (without schema_key document) sections)
file_documents none ((_, document) ∷ rest) sections =
    file_sections document sections >>= file_documents none rest

-- `Layout::of`
unfoldable pub layout_of : LoadSpec → Option Text
layout_of spec = if spec.whole_document then some spec.key else none

-- `Sections` around a provider.
unfoldable pub sectioned : Option Text → Provided → Provided
unfolding file_documents
sectioned whole inner = record inner {
  documents = inner.documents >>= λ documents. file_documents whole documents [];
}

-- `Foreign::data`
unfoldable pub namespaced : Documents → Documents → Documents
unfolding Map.insert section_profile
namespaced [] filed = filed
namespaced ((profile, dict) ∷ rest) filed =
    if text_eq profile (codes "default") || text_eq profile (codes "global")
    then namespaced rest (Map.insert profile dict filed)
    else namespaced rest (Map.insert (section_profile profile) dict filed)

-- `Named::metadata` around a provider
unfoldable pub renamed : Text → Option FilePath → Provided → Provided
renamed name none inner = record inner { metadata = named name }
renamed name (some path) inner = record inner {
  metadata = record { name = name; source = some (from_file path) };
}

-- `profile_is_safe`
unfoldable pub profile_is_safe : Text → Bool
unfolding contains
profile_is_safe profile =
    not (contains profile (codes "/"))
    && (not (contains profile (codes "\\"))
        && (not (contains profile (codes "..")) && not (contains profile (0 ∷ []))))

-- The name that an inner name's variant gives an encrypted file.
unfoldable pub encrypted_name : Option Text → Option Text
encrypted_name none = none
encrypted_name (some inner) = some (inner ++ (codes "." ++ encrypted_suffix))

-- `name_variant` of a name that is not an encrypted file's.
unfoldable pub plain_variant : Text → Text → Option Text
unfolding file_name components file_stem extension
plain_variant name profile = elim (file_name (components name)) [
  | none ↦ none
  | some last ↦ elim (extension last) [
    | none ↦ none
    | some ext ↦ some (file_stem last ++ (codes "." ++ (profile ++ (codes "." ++ ext))))
  ]
]

-- `name_variant`, on fuel: each round takes a suffix off the name.
unfoldable pub name_variant_in : Text → Text → Text → Option Text
unfolding plain_variant inner_name encrypted_name
name_variant_in [] name profile = plain_variant name profile
name_variant_in (_ ∷ fuel) name profile = elim (inner_name name) [
  | none ↦ plain_variant name profile
  | some (inner, ext) ↦ encrypted_name (name_variant_in fuel inner profile)
]

-- `name_variant`
unfoldable pub name_variant : Text → Text → Option Text
unfolding name_variant_in
name_variant name profile = name_variant_in name name profile

-- `profile_variant`
unfoldable pub profile_variant : FilePath → Text → Option FilePath
unfolding file_name name_variant with_file_name
profile_variant path profile = elim (file_name path) [
  | none ↦ none
  | some name ↦ elim (name_variant name profile) [
    | none ↦ none
    | some variant ↦ some (with_file_name path variant)
  ]
]

abbrev pub not_a_word : Text → Error
not_a_word variable = Error.new ErrorKind.env (
    codes "`"
    ++ (variable
        ++ codes
            "` names the active profile and becomes part of a file name; a profile must be a plain word, not a path"))

unfoldable variable_of : Option Text → Text
variable_of none = codes "the profile variable"
variable_of (some variable) = variable

-- The providers that a step of the loader merges, one after the other, or why it fails. `Figment::merge`
-- itself never does.
abbrev pub Merging : Type 0
Merging = Result Error (List Provided)

-- One step after another.
unfoldable pub then_merge : Merging → Merging → Merging
then_merge (err e) later = err e
then_merge (ok ps) (err e) = err e
then_merge (ok ps) (ok qs) = ok (ps ++ qs)

module _ (world : World) where
  -- `validated_profile`
  unfoldable pub validated_profile : LoadSpec → Result Error (Option Text)
  unfolding profile_of profile_is_safe variable_of
  validated_profile spec = elim (profile_of world.environment spec) [
    | none ↦ ok none
    | some profile ↦
        if profile_is_safe profile
        then ok (some profile)
        else err (not_a_word (variable_of spec.profile_env))
  ]

  -- `merge_file`, with every format compiled in.
  unfoldable pub merge_file : FilePath → Format → Option Text → Merging
  unfolding sectioned
  merge_file path format whole = ok (sectioned whole (world.document path format) ∷ [])

  -- `merge_text`
  unfoldable pub merge_text : Text → Format → Option Text → Merging
  unfolding sectioned
  merge_text text format whole = ok (sectioned whole (world.parsed text format) ∷ [])

  -- `merge_named_text`
  unfoldable pub merge_named_text : Text → Format → Text → Option FilePath → Option Text → Merging
  unfolding sectioned renamed
  merge_named_text text format name path whole =
      ok (renamed name path (sectioned whole (world.parsed text format)) ∷ [])

  -- `merge_encrypted_file`
  unfoldable pub merge_encrypted_file : FilePath → Format → Option Text → Merging
  unfolding display merge_named_text with_origin
  merge_encrypted_file path format whole = elim (world.ciphertext path) [
    | missing message ↦ ok []
    | broken message ↦
        err (with_origin (Error.file (display path)) (Error.new ErrorKind.io message))
    | done bytes ↦ world.decrypt bytes (display path) >>= λ text.
        merge_named_text text format (display path) (some path) whole
  ]

  -- The end of `merge_profile_variant`, for the variant's path.
  unfoldable pub merge_variant : FilePath → Format → Option Text → Merging
  unfolding display inner_name merge_encrypted_file merge_file
  merge_variant variant format whole = elim (inner_name (display variant)) [
    | none ↦ merge_file variant format whole
    | some inner ↦ merge_encrypted_file variant format whole
  ]

  -- `merge_profile_variant`
  unfoldable pub merge_profile_variant : FilePath → Format → Option Text → Option Text → Merging
  unfolding profile_variant merge_variant
  merge_profile_variant path format none whole = ok []
  merge_profile_variant path format (some profile) whole = elim (profile_variant path profile) [
    | none ↦ ok []
    | some variant ↦ merge_variant variant format whole
  ]

  -- `merge`, by the kind of the source.
  unfoldable pub merge_kind : Kind → Format → Option Text → Merging
  unfolding namespaced components merge_file merge_text merge_encrypted_file
  merge_kind (provider p) format whole =
      ok (record p { documents = p.documents >>= λ filed. ok (namespaced filed []) } ∷ [])
  merge_kind (encrypted path) format whole = merge_encrypted_file (components path) format whole
  merge_kind (file path) format whole = merge_file (components path) format whole
  merge_kind (inline text) format whole = merge_text text format whole

  -- `merge`
  unfoldable pub merge_source : Source → Option Text → Merging
  unfolding merge_kind
  merge_source source whole = merge_kind source.kind source.format whole
