-- ===== src/Source.antt =====
-- dynamic-config/src/source.rs: what a load reads, and the formats that names stand for.
pub mod Discovery
use dynamic_config.Prelude.{
  Bool, false, Option, none, some, List, [], ◌∷◌, ◌++◌, is_empty, is_some, map, if◌then◌else◌,
}
use dynamic_config.Prelude.Text.{Text, codes, text_eq}
use dynamic_config.Prelude.Str.{
  strip_suffix, strip_prefix, trim, to_ascii_lowercase, to_ascii_uppercase,
}
use dynamic_config.Prelude.Paths.{FilePath, components, file_name, extension, file_stem}
use dynamic_config.Map.{Map}
use dynamic_config.Figment.Provided.{Provided}
use dynamic_config.Layer.{Layer}
use dynamic_config.Bindings.{EnvBindings}
use dynamic_config.Remote.{Format, json, toml, yaml, Fetched}

-- `Format::from_extension`
unfoldable pub from_extension : Text → Option Format
unfolding to_ascii_lowercase
from_extension ext =
    let lower = map to_ascii_lowercase ext in
    if text_eq lower (codes "json")
    then some json
    else if text_eq lower (codes "toml")
    then some toml
    else if text_eq lower (codes "yaml")
    then some yaml
    else if text_eq lower (codes "yml")
    then some yaml
    else none

-- `Path::new(text).extension()`
unfoldable pub extension_of : Text → Option Text
unfolding components file_name extension
extension_of text = elim (file_name (components text)) [ none ↦ none | some name ↦ extension name ]

-- `Format::from_key`
unfoldable pub from_key : Text → Option Format
unfolding extension_of from_extension
from_key key = elim (extension_of key) [ none ↦ none | some ext ↦ from_extension ext ]

-- `ENCRYPTED_SUFFIX`
abbrev pub encrypted_suffix : Text
encrypted_suffix = codes "age"

-- `inner_name`
unfoldable pub inner_name : Text → Option (Text × Text)
unfolding strip_suffix extension_of
inner_name path = elim (strip_suffix encrypted_suffix path) [
  | none ↦ none
  | some dotted ↦ elim (strip_suffix (codes ".") dotted) [
    | none ↦ none
    | some stripped ↦ elim (extension_of stripped) [ none ↦ none | some ext ↦ some (stripped, ext) ]
  ]
]

-- `Format::from_path`; `none` is the error that the name has no supported format.
unfoldable pub from_path : Text → Option Format
unfolding inner_name from_key
from_path path = elim (inner_name path) [
  | none ↦ from_key path
  | some (inner, ext) ↦ from_key inner
]

-- `enum Kind`
pub data Kind : Type 0 where
  file encrypted inline : Text → Kind
  provider : Provided → Kind

-- `struct Source`
pub record Source : Type 0 where
  pub kind : Kind
  pub format : Format

unfoldable pub format_of : Kind → Format → Option Format
format_of (provider p) format = none
format_of _ format = some format

-- `Source::format`
abbrev pub source_format : Source → Option Format
source_format s = format_of s.kind s.format

unfoldable pub path_of : Kind → Option Text
path_of (file path) = some path
path_of (encrypted path) = some path
path_of _ = none

-- `Source::path`
abbrev pub source_path : Source → Option Text
source_path s = path_of s.kind

-- `struct Search` of discovery.rs
pub record Search : Type 0 where
  pub name : Text
  pub paths : List Text

-- What the load reads of an installed remote source: its document and its description.
pub record Store : Type 0 where
  pub document : Option Fetched
  pub described : Option Text

-- `struct LoadSpec`
pub record LoadSpec : Type 0 where
  pub key : Text
  pub sources : List Source
  pub env_prefix : Option Text
  pub search : Option Search
  pub profile_env : Option Text
  pub defaults : Option Layer
  pub remote : Option Store
  pub secrets_dir : Option Text
  pub env_files : List Text
  pub aliases : Option (Map Text)
  pub env_bindings : Option EnvBindings
  pub flags : Option Layer
  pub overrides : Option Layer
  pub nest : Text
  pub allow_empty_env : Bool
  pub strict_env : Bool
  pub whole_document : Bool

-- `LoadSpec::new`
abbrev pub new : Text → List Source → LoadSpec
new key sources = record {
  key = key;
  sources = sources;
  env_prefix = none;
  search = none;
  profile_env = none;
  defaults = none;
  remote = none;
  secrets_dir = none;
  env_files = [];
  aliases = none;
  env_bindings = none;
  flags = none;
  overrides = none;
  nest = codes "__";
  allow_empty_env = false;
  strict_env = false;
  whole_document = false;
}

-- `LoadSpec::profile`, for `std::env::var` as `environment`.
unfoldable pub profile_of : (Text → Option Text) → LoadSpec → Option Text
unfolding trim
profile_of environment spec = elim spec.profile_env [
  | none ↦ none
  | some variable ↦ elim (environment variable) [
    | none ↦ none
    | some text ↦ (if is_empty (trim text) then none else some (trim text))
  ]
]

-- `LoadSpec::full_env_prefix`
unfoldable pub full_env_prefix : LoadSpec → Option Text
unfolding to_ascii_uppercase
full_env_prefix spec = elim spec.env_prefix [
  | none ↦ none
  | some prefix ↦ some (
      if is_empty spec.key
      then prefix
      else prefix ++ (map to_ascii_uppercase spec.key ++ codes "_"))
]
