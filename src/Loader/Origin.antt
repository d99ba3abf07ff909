-- ===== src/Loader/Origin.antt =====
-- dynamic-config/src/loader/origin.rs: figment's errors as the program's own, without the values, and
-- the layer that a value came from.
pub mod Excerpt
pub mod Redacted
pub mod Named
pub mod Mounted
pub mod Supplied
pub mod Traced
mod Examples
use dynamic_config.Prelude.{
  ℕ, Bool, true, false, Option, none, some, List, [], ◌∷◌, ◌++◌, if◌then◌else◌, keep, not, is_empty,
}
use dynamic_config.Prelude.Text.{Text, codes, join, text_eq}
use dynamic_config.Prelude.Str.{
  is_ascii_digit, trim_start, trim_end, trim, starts_with, strip_prefix, strip_suffix,
  to_ascii_uppercase,
}
use dynamic_config.Prelude.Paths.{components, display}
use dynamic_config.Dotenv.{lines}
use dynamic_config.Error
use dynamic_config.Error.{Error, ErrorKind, Origin, prepend_key, with_origin}
use dynamic_config.Figment.Provided.{
  Actual, FailureKind, Failure, Metadata, MetadataSource, from_file, custom, code, missing_field,
  invalid_type, invalid_value, invalid_length, isize_out_of_range, usize_out_of_range, other_kind,
}
use dynamic_config.Loader.Layers.{defaults_name, overrides_name, flags_name}
use mathlib.Core.List

-- `kind_of`
unfoldable pub kind_of : Actual → Text
kind_of (Actual.bool x) = codes "a boolean"
kind_of (Actual.unsigned x) = codes "an unsigned integer"
kind_of (Actual.signed x) = codes "a signed integer"
kind_of (Actual.float x) = codes "a float"
kind_of (Actual.char x) = codes "a character"
kind_of (Actual.str x) = codes "a string"
kind_of (Actual.bytes x) = codes "a byte string"
kind_of Actual.unit = codes "a unit"
kind_of Actual.option = codes "an option"
kind_of Actual.newtype_struct = codes "a newtype struct"
kind_of Actual.seq = codes "a list"
kind_of Actual.map = codes "a table"
kind_of Actual.enum = codes "an enum"
kind_of Actual.unit_variant = codes "a unit variant"
kind_of Actual.newtype_variant = codes "a newtype variant"
kind_of Actual.tuple_variant = codes "a tuple variant"
kind_of Actual.struct_variant = codes "a struct variant"
kind_of (Actual.other x) = codes "something else"

-- `trim_start_matches` of digits
unfoldable pub trim_digits : Text → Text
unfolding is_ascii_digit
trim_digits [] = []
trim_digits (c ∷ cs) = elim (is_ascii_digit c) [ true ↦ trim_digits cs | false ↦ c ∷ cs ]

-- `is_gutter`
unfoldable pub is_gutter : Text → Bool
unfolding trim_start trim_digits starts_with
is_gutter line = starts_with (trim_start (trim_digits (trim_start line))) (codes "|")

-- `without_quoted_source`
unfoldable pub without_quoted_source : Text → Text
unfolding lines is_gutter trim_end join
without_quoted_source message =
    trim_end (join (codes "\n") (keep (λ line. not (is_gutter line)) (lines message)))

-- `message`, of a kind and of the text that figment prints.
unfoldable pub message_of : FailureKind → Text → Text
unfolding kind_of without_quoted_source
message_of (invalid_type actual expected) rendered =
    codes "invalid type: found " ++ (kind_of actual ++ (codes ", expected " ++ expected))
message_of (invalid_value actual expected) rendered =
    codes "invalid value: found " ++ (kind_of actual ++ (codes ", expected " ++ expected))
message_of (FailureKind.message text) rendered = without_quoted_source rendered
message_of (missing_field field) rendered = without_quoted_source rendered
message_of (invalid_length found expected) rendered = without_quoted_source rendered
message_of (isize_out_of_range found) rendered = without_quoted_source rendered
message_of (usize_out_of_range found) rendered = without_quoted_source rendered
message_of (other_kind carried) rendered = without_quoted_source rendered

-- `kind_of_error`, of a kind and a path.
unfoldable pub kind_of_error : FailureKind → List Text → ErrorKind
kind_of_error (missing_field field) path = ErrorKind.missing
kind_of_error (invalid_type actual expected) path = ErrorKind.type
kind_of_error (invalid_value actual expected) path = ErrorKind.type
kind_of_error (invalid_length found expected) path = ErrorKind.type
kind_of_error (isize_out_of_range found) path = ErrorKind.type
kind_of_error (usize_out_of_range found) path = ErrorKind.type
kind_of_error (FailureKind.message text) path =
    if is_empty path then ErrorKind.parse else ErrorKind.type
kind_of_error (other_kind carried) path = ErrorKind.backend

-- `error_path`, of a kind and a path.
unfoldable pub error_path : FailureKind → List Text → List Text
error_path (missing_field field) [] = field ∷ []
error_path kind path = path

-- The loop of `translate`, which goes through the path backwards.
unfoldable pub prepend_all : List Text → Error → Error
unfolding prepend_key
prepend_all [] e = e
prepend_all (segment ∷ rest) e = prepend_key segment (prepend_all rest e)

-- `translate`
unfoldable pub translate : Failure → Error
unfolding kind_of_error message_of error_path prepend_all
translate failure =
    prepend_all (error_path failure.kind failure.path) (
      Error.new (kind_of_error failure.kind failure.path)
        (message_of failure.kind failure.rendered))

-- `trim_end_matches` of a suffix, on fuel: each round takes a character at least.
unfoldable pub trim_suffixes : Text → Text → Text → Text
unfolding strip_suffix
trim_suffixes [] suffix text = text
trim_suffixes (_ ∷ fuel) suffix text = elim (strip_suffix suffix text) [
  | none ↦ text
  | some rest ↦ trim_suffixes fuel suffix rest
]

-- `trim_matches('`')`, from the front and from the back.
unfoldable pub trim_quotes_start : Text → Text
trim_quotes_start [] = []
trim_quotes_start (c ∷ cs) = if text_eq (c ∷ []) (codes "`") then trim_quotes_start cs else c ∷ cs

unfoldable pub trim_quotes : Text → Text
unfolding trim_quotes_start
trim_quotes text = List.reverse (trim_quotes_start (List.reverse (trim_quotes_start text)))

abbrev pub env_suffix : Text
env_suffix = codes "environment variable(s)"

-- `env_prefix`
unfoldable pub env_prefix : Text → Text
unfolding trim_suffixes trim trim_quotes
env_prefix name =
    let prefix = trim_quotes (trim (trim_suffixes name env_suffix name)) in
    if is_empty prefix then codes "the environment" else prefix ++ codes "*"

abbrev pub ends_in : Text → Text → Bool
ends_in suffix text = elim (strip_suffix suffix text) [ none ↦ false | some rest ↦ true ]

-- The last part of `origin_of`, which reads the source.
unfoldable pub origin_of_source : Text → Option MetadataSource → Origin
unfolding display strip_suffix env_prefix
origin_of_source name (some (from_file path)) = Origin.file (display path)
origin_of_source name (some (custom provider)) = Origin.env provider
origin_of_source name (some code) = Origin.inline
origin_of_source name none =
    if ends_in env_suffix name
    then Origin.env (env_prefix name)
    else if ends_in (codes "source string") name
    then Origin.inline
    else Origin.unknown

-- The part of `origin_of` that reads a prefix of the name.
unfoldable pub origin_of_prefix : Metadata → Origin
unfolding strip_prefix origin_of_source
origin_of_prefix metadata = elim (strip_prefix (codes "the environment variable ") metadata.name) [
  | some variable ↦ Origin.env variable
  | none ↦ elim (strip_prefix (codes "the file ") metadata.name) [
    | some file ↦ Origin.file file
    | none ↦ elim (strip_prefix (codes "the remote store ") metadata.name) [
      | some store ↦ Origin.remote store
      | none ↦ origin_of_source metadata.name metadata.source
    ]
  ]
]

-- `origin_of`
unfoldable pub origin_of : Metadata → Origin
unfolding origin_of_prefix
origin_of metadata =
    if text_eq metadata.name defaults_name
    then Origin.runtime (codes "default")
    else if text_eq metadata.name overrides_name
    then Origin.runtime (codes "override")
    else if text_eq metadata.name flags_name
    then Origin.runtime (codes "command-line flag")
    else if text_eq metadata.name (codes "the last configuration that worked")
    then Origin.runtime (codes "cached configuration")
    else origin_of_prefix metadata

-- `map_or(Origin::Unknown, origin_of)`
unfoldable pub origin_or_unknown : Option Metadata → Origin
unfolding origin_of
origin_or_unknown none = Origin.unknown
origin_or_unknown (some metadata) = origin_of metadata

abbrev pub upper : Text → Text
upper = List.map to_ascii_uppercase

-- `std::env::var_os(..)`, and what the code asks of it.
module _ (has_variable : Text → Bool) where
  unfoldable pub claimed : Origin → (stem : Text) → List Text → (nest : Text) → Origin
  unfolding join to_ascii_uppercase
  claimed origin stem [] nest = origin
  claimed origin stem (segment ∷ rest) nest =
      let variable = stem ++ join (upper nest) (upper segment ∷ List.map upper rest) in
      if has_variable variable then Origin.env variable else origin

  -- `refine_env`
  unfoldable pub refine_env : Origin → List Text → (nest : Text) → Origin
  unfolding strip_suffix claimed
  refine_env (Origin.env prefix) path nest = elim (strip_suffix (codes "*") prefix) [
    | none ↦ Origin.env prefix
    | some stem ↦ claimed (Origin.env prefix) stem path nest
  ]
  refine_env origin path nest = origin

  -- `convert`, at a spec's separator
  unfoldable pub convert : (nest : Text) → Failure → Error
  unfolding refine_env origin_or_unknown error_path translate with_origin
  convert nest failure =
      with_origin
        (refine_env (origin_or_unknown failure.metadata) (error_path failure.kind failure.path)
          nest)
        (translate failure)
