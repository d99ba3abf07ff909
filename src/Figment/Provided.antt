-- ===== src/Figment/Provided.antt =====
-- Providers, profiles and errors of the `figment` crate, as the loader reads and makes them.
use dynamic_config.Prelude.{Option, none, List, []}
use dynamic_config.Prelude.Text.{Text}
use dynamic_config.Prelude.Str.{to_ascii_lowercase}
use dynamic_config.Prelude.Results.{Result}
use dynamic_config.Prelude.Paths.{FilePath}
use dynamic_config.Map.{Map}
use dynamic_config.Figment.{Dict}
use mathlib.Core.List

-- What a provider gives: a dictionary for each profile.
abbrev pub Documents : Type 0
Documents = Map Dict

-- `figment::Source`
pub data MetadataSource : Type 0 where
  from_file : FilePath → MetadataSource
  custom : Text → MetadataSource
  code : MetadataSource

-- `figment::Metadata`, as far as the loader reads it.
pub record Metadata : Type 0 where
  pub name : Text
  pub source : Option MetadataSource

-- `Metadata::named`
abbrev pub named : Text → Metadata
named name = record { name = name; source = none }

-- `figment::error::Actual`, with the value that was there where it carries one.
pub data Actual : Type 0 where
  bool unsigned signed float char str bytes other : Text → Actual
  unit option newtype_struct seq map enum unit_variant newtype_variant : Actual
  tuple_variant struct_variant : Actual

-- `figment::error::Kind`: the kinds that the loader tells apart, each with what it carries, as a text
-- where the loader does not look at it. `other_kind` stands for all that the loader has no case for.
pub data FailureKind : Type 0 where
  message missing_field : Text → FailureKind
  invalid_type invalid_value : Actual → Text → FailureKind
  invalid_length : (found expected : Text) → FailureKind
  isize_out_of_range usize_out_of_range other_kind : Text → FailureKind

-- `figment::Error`: `rendered` is how it prints.
pub record Failure : Type 0 where
  pub kind : FailureKind
  pub path : List Text
  pub metadata : Option Metadata
  pub rendered : Text

-- `figment::Error::from(String)`
abbrev pub failure : Text → Failure
failure text = record { kind = message text; path = []; metadata = none; rendered = text }

-- What one provider answers: `metadata`, and `data` with a dictionary for each profile.
pub record Provided : Type 0 where
  pub metadata : Metadata
  pub documents : Result Failure Documents

-- `figment::Profile::from`: a profile is a text that is compared without regard to case, and stands
-- here in lower case.
unfoldable pub profile_from : Text → Text
unfolding to_ascii_lowercase
profile_from name = List.map to_ascii_lowercase name
