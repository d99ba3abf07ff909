-- ===== src/Layer.antt =====
-- dynamic-config/src/layer.rs: values set from code, addressed by dotted path, and their expansion
-- into the nested shape that the loader merges.
pub mod InsertPath
pub mod Expand
pub mod Entries
mod Examples
use dynamic_config.Prelude.{
  ℕ, Bool, true, false, Option, none, some, List, [], ◌∷◌, ◌++◌, ◌||◌, is_empty, if◌then◌else◌,
  is_some,
}
use dynamic_config.Prelude.Text.{Text, codes, split}
use dynamic_config.Prelude.Str.{contains, split_once, trim}
use dynamic_config.Prelude.Results.{Result, ok, err, ◌>>=◌, ◌>>◌}
use dynamic_config.Error
use dynamic_config.Error.{Error, ErrorKind}
use dynamic_config.Map
use dynamic_config.Map.{Map}
use dynamic_config.Tree.{Tree, Table, leaf, array, table, end, entry, get, insert}
use dynamic_config.Figment.{FigmentValue, Dict}

-- `aliases::SECTION`
abbrev pub section : Text
section = codes "::"

unfoldable pub any_empty : List Text → Bool
any_empty [] = false
any_empty (s ∷ ss) = is_empty s || any_empty ss

-- `check_path`: a path has no empty segment and names no other section.
unfoldable pub check_path : Text → Result Error (Unit {0})
unfolding any_empty split contains
check_path path =
    if is_empty path || any_empty (split b'.' path)
    then err (Error.new ErrorKind.type (codes "`" ++ (path ++ codes "` is not a usable key path")))
    else if contains path section
    then err (
        Error.new ErrorKind.type (
          codes "`"
          ++ (path
              ++ codes
                  "` names another section, and this path is relative to the section being loaded; `::` is only meaningful in the old path of an alias")))
    else ok tt

module _ {L : Type 0} where
  -- The table under a key: what is there, if it is a table, and an empty one in place of anything else.
  unfoldable pub nested : Option (Tree L) → Table L
  nested (some (table t)) = t
  nested (some (leaf x)) = end
  nested (some (array x)) = end
  nested none = end

  -- The loop of `insert_path` over the segments: the last one holds the value.
  unfoldable pub insert_segments : Table L → List Text → Tree L → Table L
  unfolding nested
  insert_segments root [] value = root
  insert_segments root (s ∷ []) value = insert s value root
  insert_segments root (s ∷ t ∷ ss) value =
      insert s (table (insert_segments (nested (get root s)) (t ∷ ss) value)) root

  -- `insert_path`
  unfoldable pub insert_path : Table L → Text → Tree L → Table L
  unfolding insert_segments split
  insert_path root path value = insert_segments root (split b'.' path) value

-- `struct Layer`, with the map that its lock guards.
pub record Layer : Type 0 where
  pub entries : Map FigmentValue

-- `Layer::new`
abbrev pub new : Layer
new = record { entries = [] }

-- `Value::serialize(value).map_err(..)`, for what the serializer gave.
serialized_at : Text → Result Text FigmentValue → Result Error FigmentValue
serialized_at path (err message) = err (Error.prepend_key path (Error.new ErrorKind.type message))
serialized_at path (ok value) = ok value

-- `self.lock().insert(path, value)`, after the `?` on the value.
put_entry : Layer → Text → Result Error FigmentValue → Layer × Result Error (Unit {0})
put_entry layer path (err e) = (layer, err e)
put_entry layer path (ok value) = (record { entries = Map.insert path value layer.entries }, ok tt)

-- `Layer::set`: `serialized` is what `Value::serialize` gave for the value.
unfoldable pub set : Layer → Text → Result Text FigmentValue → Layer × Result Error (Unit {0})
unfolding check_path put_entry serialized_at
set layer path serialized =
    put_entry layer path (check_path path >>= λ _. serialized_at path serialized)

-- The loop of `set_struct` over the fields of the serialized struct.
unfoldable pub insert_all : Map FigmentValue → Dict → Map FigmentValue
insert_all entries end = entries
insert_all entries (entry path value rest) = insert_all (Map.insert path value entries) rest

not_a_struct : Text
not_a_struct =
    codes "defaults must be a struct or a map; a bare value has no field name to live under"

-- `Layer::set_struct`
unfoldable pub set_struct : Layer → Result Text FigmentValue → Layer × Result Error (Unit {0})
unfolding insert_all not_a_struct
set_struct layer (err message) = (
  layer,
  err (Error.new ErrorKind.type (codes "the defaults struct did not serialize: " ++ message)),
)
set_struct layer (ok (table fields)) = (record { entries = insert_all layer.entries fields }, ok tt)
set_struct layer (ok (leaf x)) = (layer, err (Error.new ErrorKind.type not_a_struct))
set_struct layer (ok (array xs)) = (layer, err (Error.new ErrorKind.type not_a_struct))

-- `Layer::unset`
unfoldable pub unset : Layer → Text → Layer × Bool
unset layer path =
    (record { entries = Map.remove path layer.entries }, is_some (Map.get layer.entries path))

-- `Layer::clear`
unfoldable pub clear : Layer → Layer
clear layer = record { entries = [] }

-- `Layer::is_empty`
unfoldable pub is_clear : Layer → Bool
is_clear layer = is_empty layer.entries

-- The loop of `Layer::dict` over the entries, in key order.
unfoldable pub expand : Dict → Map FigmentValue → Dict
unfolding insert_path
expand root [] = root
expand root ((path, value) ∷ rest) = expand (insert_path root path value) rest

-- `Layer::dict`
unfoldable pub dict : Layer → Dict
unfolding expand
dict layer = expand end layer.entries

-- `read` is `text.parse::<Value>().unwrap_or_else(|_| Value::from(text))`, figment's loose reading.
module _ (read : Text → FigmentValue) where
  -- `Layer::set_text`
  unfoldable pub set_text : Layer → Text → Text → Layer × Result Error (Unit {0})
  unfolding check_path put_entry
  set_text layer path text = put_entry layer path (check_path path >>= λ _. ok (read text))

  -- The body of the loop of `set_assignments`.
  unfoldable pub assign : Layer → Text → Layer × Result Error (Unit {0})
  unfolding set_text split_once trim
  assign layer assignment = elim (split_once (b'=' ∷ []) assignment) [
    | none ↦ (
      layer,
      err (
          Error.new ErrorKind.type
            (codes "`" ++ (assignment ++ codes "` is not a `key=value` assignment"))),
    )
    | some (path, value) ↦ set_text layer (trim path) value
  ]

  -- `Layer::set_assignments`: the first failing assignment ends the loop.
  unfoldable pub set_assignments : Layer → List Text → Layer × Result Error (Unit {0})
  unfolding assign
  set_assignments layer [] = (layer, ok tt)
  set_assignments layer (assignment ∷ rest) =
      let (layer', outcome) = assign layer assignment in
      let later = set_assignments layer' rest in
      elim outcome [ ok u ↦ later | err e ↦ (layer', err e) ]
