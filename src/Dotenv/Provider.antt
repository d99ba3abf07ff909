-- ===== src/Dotenv/Provider.antt =====
-- dynamic-config/src/dotenv.rs: the variables of one `.env` file as the environment layer sees them.
use dynamic_config.Prelude.{
  Bool, Option, none, some, [], ◌∷◌, ◌++◌, ◌&&◌, ◌||◌, not, is_empty, map, if◌then◌else◌,
}
use dynamic_config.Prelude.Text.{Text, codes, split}
use dynamic_config.Prelude.Str.{trim, replace, strip_prefix_ignoring_case, to_ascii_lowercase}
use dynamic_config.Prelude.Results.{ok}
use dynamic_config.Map.{Map}
use dynamic_config.Tree.{end}
use dynamic_config.Figment.{FigmentValue, Dict}
use dynamic_config.Figment.Provided.{Provided, named}
use dynamic_config.Layer.{any_empty, insert_path}

-- The key path that a variable's name spells behind the prefix, if it spells one.
unfoldable pub path_of_variable : (prefix nest name : Text) → Option Text
unfolding strip_prefix_ignoring_case to_ascii_lowercase replace any_empty split
path_of_variable prefix nest name = elim (strip_prefix_ignoring_case name prefix) [
  | none ↦ none
  | some rest ↦
      let path = replace (map to_ascii_lowercase rest) nest (codes ".") in
      if is_empty path || any_empty (split b'.' path) then none else some path
]

-- One round of the loop of `data`: the values with one more variable, or without it.
unfoldable pub add_variable : (Text → FigmentValue) → Bool → Text → Option Text → Dict → Dict
unfolding trim insert_path
add_variable read allow_empty text none values = values
add_variable read allow_empty text (some path) values =
    if is_empty (trim text) && not allow_empty then values else insert_path values path (read text)

-- `data`: `read` is figment's loose reading of a text.
unfoldable pub values_of :
    (Text → FigmentValue) → Bool → (prefix nest : Text) → Map Text → Dict → Dict
unfolding path_of_variable add_variable
values_of read allow_empty prefix nest [] values = values
values_of read allow_empty prefix nest ((name, text) ∷ rest) values =
    values_of read allow_empty prefix nest rest
      (add_variable read allow_empty text (path_of_variable prefix nest name) values)

-- `DotenvProvider`, for `path` as the file's name and `profile` its section's.
unfoldable pub provider_of :
    (Text → FigmentValue)
    → (allow_empty : Bool) → (prefix nest path profile : Text) → Map Text
    → Provided
unfolding values_of
provider_of read allow_empty prefix nest path profile entries = record {
  metadata = named (codes "the file " ++ path);
  documents = ok ((profile, values_of read allow_empty prefix nest entries end) ∷ []);
}
