-- ===== src/Layer/Examples.antt =====
-- A layer that is filled from code and read back.
use dynamic_config.Prelude.{some, true, List, [], ◌∷◌, ◌≡◌, ◌++◌, refl, subst}
use dynamic_config.Prelude.Text.{Text, codes, cmp, split}
use dynamic_config.Prelude.Results.{Result, ok, err}
use dynamic_config.Error
use dynamic_config.Error.{Error, ErrorKind}
use dynamic_config.Map
use dynamic_config.Tree.{table, leaf, end, entry, get, insert}
use dynamic_config.Figment.{FigmentValue, Datum}
use dynamic_config.Value.{walk}
use dynamic_config.Value.WellFormed.{IsWellFormed}
use dynamic_config.Layer.{Layer, check_path, set, dict, set_assignments, assign}
use dynamic_config.Layer.InsertPath.{Diverge}
use dynamic_config.Layer.Expand.{Apart, walk-dict-set}
use dynamic_config.Layer.Entries.{IsValid, set_assignments-stops}

abbrev on : FigmentValue
on = leaf (Datum.bool true)

abbrev text : FigmentValue
text = leaf (Datum.string (codes "x"))

-- `server.host` is set.
abbrev layer : Layer
layer = record { entries = (codes "server.host", text) ∷ [] }

layer-IsValid : IsValid layer
layer-IsValid = record { sorted = (tt, tt); values = (tt, tt) }

abbrev path : Text
path = codes "server.tls.enabled"

path_ok : check_path path ≡ ok tt
unfolding check_path cmp
path_ok = refl

apart : Apart path layer.entries
unfolding cmp split
apart = (tt, tt)

walk-dict-set_example : walk (table (dict (set layer path (ok on)).0)) (split b'.' path) ≡ some on
walk-dict-set_example = walk-dict-set layer path on (tt, tt) path_ok apart

nested_shape :
    dict (set layer path (ok on)).0
    ≡ entry
        (codes "server")
        (table (
          entry
            (codes "host")
            text
            (entry (codes "tls") (table (entry (codes "enabled") on end)) end)))
        end
unfolding dict set cmp get Map.insert insert
nested_shape = refl

not_a_path :
    check_path (codes "a..b")
    ≡ err (Error.new ErrorKind.type (codes "`a..b` is not a usable key path"))
unfolding check_path cmp
not_a_path = refl

abbrev read : Text → FigmentValue
read s = leaf (Datum.string s)

-- The second assignment has no `=`.
abbrev assignments : List Text
assignments = codes "a=1" ∷ codes "b" ∷ codes "c=2" ∷ []

abbrev after_first : Layer
after_first = record { entries = (codes "a", read (codes "1")) ∷ layer.entries }

abbrev no_assignment : Error
no_assignment = Error.new ErrorKind.type (codes "`b` is not a `key=value` assignment")

stopped : set_assignments read layer assignments ≡ (after_first, err no_assignment)
unfolding set_assignments cmp Map.insert
stopped = refl

set_assignments-stops_example :
    (done : List Text) × (failed : Text) × (rest : List Text) × (assignments
      ≡ done ++ (failed ∷ rest))
    × (set_assignments read layer done ≡ (after_first, ok tt))
    × (assign read after_first failed ≡ (after_first, err no_assignment))
set_assignments-stops_example =
    set_assignments-stops read layer after_first assignments no_assignment stopped

abbrev serialized : Result Text FigmentValue
serialized = ok on

serialized_ok : (v : FigmentValue) → serialized ≡ ok v → IsWellFormed v
serialized_ok v e = let same : on ≡ v = cc in subst IsWellFormed same tt

diverge : Diverge (codes "server" ∷ []) (codes "db" ∷ codes "port" ∷ [])
unfolding cmp
diverge = tt
