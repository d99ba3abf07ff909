-- ===== src/Value/Examples.antt =====
-- Trees of a file under an environment variable, merged.
use dynamic_config.Prelude.{some, List, [], ◌∷◌, ◌≡◌, refl}
use dynamic_config.Prelude.Int.{pos}
use dynamic_config.Prelude.Text.{Text, codes, cmp, join}
use dynamic_config.Tree.{Table, leaf, table, end, entry, get, insert}
use dynamic_config.Value.{
  Value, Scalar, merge, merge_into, walk, get_path, leaf_paths, overlapping_paths,
}
use dynamic_config.Value.WellFormed.{IsWellFormed}
use dynamic_config.Value.Merge.{merged, get-merge_into}
use dynamic_config.Value.Precedence.{Misses}

abbrev port : Value
port = leaf (Scalar.integer (pos 8080))

abbrev other_port : Value
other_port = leaf (Scalar.integer (pos 9090))

abbrev host : Value
host = leaf (Scalar.string (codes "localhost"))

-- `{ "db": { "host": "localhost", "port": 8080 } }`
abbrev file_db : Table Scalar
file_db = entry (codes "host") host (entry (codes "port") port end)

abbrev file_table : Table Scalar
file_table = entry (codes "db") (table file_db) end

abbrev file : Value
file = table file_table

-- `{ "db": { "port": 9090 } }`
abbrev env_table : Table Scalar
env_table = entry (codes "db") (table (entry (codes "port") other_port end)) end

abbrev env : Value
env = table env_table

-- `{ "db": { "user": "localhost" } }`
abbrev apart : Value
apart = table (entry (codes "db") (table (entry (codes "user") host end)) end)

abbrev both : Table Scalar
both = entry (codes "host") host (entry (codes "port") other_port end)

merged_file : merge file env ≡ table (entry (codes "db") (table both) end)
unfolding merge get cmp insert
merged_file = refl

read_back : get_path (merge file env) (codes "db.port") ≡ some other_port
unfolding get_path merge get cmp insert
read_back = refl

collision : overlapping_paths file env ≡ codes "db.port" ∷ []
unfolding overlapping_paths get cmp join
collision = refl

leaves_of_file : leaf_paths file ≡ codes "db.host" ∷ codes "db.port" ∷ []
unfolding leaf_paths join
leaves_of_file = refl

file_ok : IsWellFormed file
unfolding cmp
file_ok = ((tt, tt), ((((refl, tt), (tt, tt)), (tt, (tt, tt))), tt))

env_ok : IsWellFormed env
unfolding cmp
env_ok = ((tt, tt), (((tt, tt), (tt, tt)), tt))

apart_ok : IsWellFormed apart
unfolding cmp
apart_ok = ((tt, tt), (((tt, tt), (tt, tt)), tt))

get-merge_into_example :
    get (merge_into file_table env_table) (codes "db")
    ≡ merged (get file_table (codes "db")) (get env_table (codes "db"))
get-merge_into_example = get-merge_into file_table env_table (codes "db") (tt, tt)

no_collision : overlapping_paths file apart ≡ []
unfolding overlapping_paths get cmp
no_collision = refl

abbrev port_path : List Text
port_path = codes "db" ∷ codes "port" ∷ []

abbrev host_path : List Text
host_path = codes "db" ∷ codes "host" ∷ []

env_port : walk env port_path ≡ some other_port
unfolding walk get cmp
env_port = refl

env-Misses : Misses host_path env
unfolding get cmp
env-Misses = tt
