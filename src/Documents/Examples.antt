-- ===== src/Documents/Examples.antt =====
-- Folds of two sections that are apart and of two that collide.
use mathlib.Core.List.{Permᴰ}
use dynamic_config.Prelude.{some, List, [], ◌∷◌, ◌≡◌, refl, if◌then◌else◌}
use dynamic_config.Prelude.Int.{pos}
use dynamic_config.Prelude.Text.{Text, codes, cmp, join, text_eq}
use dynamic_config.Prelude.Results.{Result, ok, err}
use dynamic_config.Error.{Error}
use dynamic_config.Tree.{leaf, table, end, entry, get, insert}
use dynamic_config.Value.{Value, Scalar, walk}
use dynamic_config.Value.WellFormed.{IsWellFormed}
use dynamic_config.Remote.{Format, json, Fetched}
use dynamic_config.Documents.{
  Parsed, refused, fold_parsed, fold_all, merged, remote, under_prefix, within_key_budget,
}
use dynamic_config.Documents.Fold.{fold_all-leaf}
use dynamic_config.Documents.Order.{fold_all-perm}

abbrev port : Value
port = leaf (Scalar.integer (pos 8080))

abbrev db : Value
db = table (entry (codes "db") port end)

abbrev server : Value
server = table (entry (codes "server") port end)

abbrev both : Value
both = table (entry (codes "db") port (entry (codes "server") port end))

-- A reader of two documents.
abbrev parse : Text → Format → Result Error Value
parse text format = if text_eq text (codes "d") then ok db else ok server

abbrev render : Value → Format → Result Error Text
render v format = ok (codes "merged")

abbrev documents : List (Text × Text)
documents = (codes "app/db", codes "d") ∷ (codes "app/server", codes "s") ∷ []

abbrev rest : List Parsed
rest = (codes "app/server", server) ∷ []

abbrev out : Fetched
out = record { text = codes "merged"; format = json }

sections : merged parse render documents json refused (codes "store") ≡ ok out
unfolding merged cmp get insert
sections = refl

db-IsWellFormed : IsWellFormed db
db-IsWellFormed = ((tt, tt), (tt, tt))

folded_both : fold_parsed refused (codes "store") rest db rest ≡ ok both
unfolding fold_parsed cmp get insert
folded_both = refl

-- Two keys that supply one path.
collided :
    fold_parsed refused
      (codes "store")
      ((codes "a", db) ∷ (codes "b", db) ∷ [])
      db
      ((codes "b", db) ∷ [])
    ≡ err (
        remote (
          codes
            "store: `a` and `b` both supply db; keys read as a prefix are sections that must not overlap, and the order a server lists them in is not a precedence — name the keys instead if one is meant to win"))
unfolding fold_parsed cmp get join
collided = refl

accepted : under_prefix (codes "app/db") (codes "app/") (codes "store") ≡ ok tt
unfolding under_prefix
accepted = refl

budget : within_key_budget 512 (codes "store") ≡ ok tt
unfolding within_key_budget
budget = refl

abbrev listed : List Parsed
listed = (codes "app/db", db) ∷ (codes "app/server", server) ∷ []

abbrev listed_otherwise : List Parsed
listed_otherwise = (codes "app/server", server) ∷ (codes "app/db", db) ∷ []

folded_listed : fold_all refused (codes "store") listed ≡ ok both
unfolding fold_all cmp get insert
folded_listed = refl

fold_all-perm_example : fold_all refused (codes "store") listed_otherwise ≡ ok both
fold_all-perm_example =
    fold_all-perm (codes "store") listed listed_otherwise both (Permᴰ.swap refl refl)
      (((tt, tt), (tt, tt)), (((tt, tt), (tt, tt)), tt)) (tt, (tt, tt)) folded_listed

first_read : walk db (codes "db" ∷ []) ≡ some port
unfolding walk cmp get
first_read = refl

-- The first document's value stays.
fold_all-leaf_example : walk both (codes "db" ∷ []) ≡ some port
fold_all-leaf_example =
    fold_all-leaf (codes "store") [] (codes "app/db") db ((codes "app/server", server) ∷ []) both
      (codes "db" ∷ []) port (((tt, tt), (tt, tt)), (((tt, tt), (tt, tt)), tt)) folded_listed
      first_read tt
