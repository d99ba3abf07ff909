-- ===== src/Documents.antt =====
-- dynamic-config-store-core/src/documents.rs: the keys that a store read, folded into the one
-- document that a fetch returns.
pub mod Fold
pub mod Order
pub mod Prefix
mod Examples
use dynamic_config.Prelude.{
  ℕ, Bool, true, false, Option, none, some, List, [], ◌∷◌, ◌++◌, ◌-◌, ◌==◌, leb, if◌then◌else◌,
  is_empty, is_some, length, take,
}
use dynamic_config.Prelude.Text.{Text, codes, join, text_eq}
use dynamic_config.Prelude.Str.{starts_with}
use dynamic_config.Prelude.Results.{Result, ok, err, ◌>>=◌}
use dynamic_config.Error
use dynamic_config.Error.{Error, ErrorKind, display}
use dynamic_config.Remote.{Format, json, toml, yaml, Fetched}
use dynamic_config.Units.{decimal}
use dynamic_config.Value.{Value, merge, get_path, overlapping_paths}

-- `MOST_KEYS` and `MOST_REPORTED_PATHS`
abbrev pub most_keys : ℕ
most_keys = 512

abbrev pub most_reported_paths : ℕ
most_reported_paths = 8

pub data Overlap : Type 0 where
  later_wins refused : Overlap

-- A key, and the tree that its text was parsed to.
abbrev pub Parsed : Type 0
Parsed = Text × Value

-- `Error::remote`
abbrev pub remote : Text → Error
remote message = Error.new ErrorKind.remote message

-- `{format:?}`, which `Debug` derives.
unfoldable pub format_name : Format → Text
format_name json = codes "Json"
format_name toml = codes "Toml"
format_name yaml = codes "Yaml"

-- `parsed[..before]`: what stands before the first document of the key.
unfoldable pub before_key : Text → List Parsed → List Parsed
before_key key [] = []
before_key key ((name, value) ∷ rest) =
    let later = before_key key rest in if text_eq name key then [] else (name, value) ∷ later

-- The last of the documents that holds something at the path, and `found` if none does.
unfoldable pub nearest : Text → Text → List Parsed → Text
unfolding get_path
nearest path found [] = found
nearest path found ((name, value) ∷ rest) =
    nearest path (if is_some (get_path value path) then name else found) rest

-- `collision`
unfoldable pub collision : List Parsed → Text → List Text → Text → Error
unfolding before_key nearest decimal join
collision parsed key clashes described =
    let nobody : Text = codes "an earlier key" in
    let earlier : Text = elim clashes [
      | [] ↦ nobody
      | path ∷ paths ↦ nearest path nobody (before_key key parsed)
    ] in
    let named : List Text = take most_reported_paths clashes in
    let more : ℕ = length clashes - length named in
    let and_more : Text =
      if more == 0 then [] else codes " (and " ++ (decimal more ++ codes " more)") in
    remote (
      described
      ++ (codes ": `"
          ++ (earlier
              ++ (codes "` and `"
                  ++ (key
                      ++ (codes "` both supply "
                          ++ (join (codes ", ") named
                              ++ (and_more
                                  ++ codes
                                      "; keys read as a prefix are sections that must not overlap, and the order a server lists them in is not a precedence — name the keys instead if one is meant to win"))))))))

-- The second loop of `folded`: `parsed` is all the documents, and the last argument those to come.
unfoldable pub fold_parsed : Overlap → Text → List Parsed → Value → List Parsed → Result Error Value
unfolding collision overlapping_paths merge
fold_parsed overlap described parsed folded [] = ok folded
fold_parsed later_wins described parsed folded ((key, value) ∷ rest) =
    fold_parsed later_wins described parsed (merge folded value) rest
fold_parsed refused described parsed folded ((key, value) ∷ rest) =
    let clashes = overlapping_paths folded value in
    let later = fold_parsed refused described parsed (merge folded value) rest in
    if is_empty clashes then later else err (collision parsed key clashes described)

-- The fold from the first document on. The code is called with one document at least, and would
-- panic on none.
unfoldable pub fold_all : Overlap → Text → List Parsed → Result Error Value
unfolding fold_parsed
fold_all overlap described [] = err (remote [])
fold_all overlap described ((key, value) ∷ rest) =
    fold_parsed overlap described ((key, value) ∷ rest) value rest

-- `parse` is `Value::parse` and `render` is `Value::render`, in a format.
module _ (parse : Text → Format → Result Error Value) where
  not_a_document : Text → Text → Format → Error → Error
  not_a_document described key format e = remote (
      described
      ++ (codes ": `"
          ++ (key
              ++ (codes "` is not a "
                  ++ (format_name format ++ (codes " document: " ++ display e))))))

  parse_one : Text → Format → Text × Text → Result Error Parsed
  parse_one described format (key, text) = elim (parse text format) [
    | err e ↦ err (not_a_document described key format e)
    | ok value ↦ ok (key, value)
  ]

  -- The first loop of `folded`
  unfoldable pub parse_all : Text → Format → List (Text × Text) → Result Error (List Parsed)
  unfolding parse_one not_a_document format_name display
  parse_all described format [] = ok []
  parse_all described format (document ∷ rest) = do
    one ← parse_one described format document
    more ← parse_all described format rest
    ok (one ∷ more)

  -- `folded`
  unfoldable pub folded : List (Text × Text) → Format → Overlap → Text → Result Error Value
  unfolding parse_all fold_all
  folded documents format overlap described =
      parse_all described format documents >>= λ parsed. fold_all overlap described parsed

  module _ (render : Value → Format → Result Error Text) where
    -- `merged`
    unfoldable pub merged : List (Text × Text) → Format → Overlap → Text → Result Error Fetched
    unfolding folded
    merged [] format overlap described =
        err (remote (described ++ codes ": no key held a value, so there is nothing to load"))
    merged ((key, only) ∷ []) format overlap described =
        ok (record { text = only; format = format })
    merged (first ∷ second ∷ rest) format overlap described =
        folded (first ∷ second ∷ rest) format overlap described >>= λ tree.
        elim (render tree format) [
          | err e ↦ err (
              remote (
                described
                ++ (codes ": the merged document cannot be written back as "
                    ++ (format_name format ++ (codes ": " ++ display e)))))
          | ok text ↦ ok (record { text = text; format = format })
        ]

-- `within_key_budget`
unfoldable pub within_key_budget : ℕ → Text → Result Error (Unit {0})
unfolding decimal
within_key_budget matched described =
    if leb matched most_keys
    then ok tt
    else err (
        remote (
          described
          ++ (codes ": the prefix matches "
              ++ (decimal matched
                  ++ (codes " keys, above the "
                      ++ (decimal most_keys
                          ++ codes " one document is folded from; narrow the prefix"))))))

-- `under_prefix`
unfoldable pub under_prefix : Text → Text → Text → Result Error (Unit {0})
unfolding starts_with
under_prefix key prefix described =
    if starts_with key prefix
    then ok tt
    else err (
        remote (
          described
          ++ (codes ": the store answered with `"
              ++ (key ++ codes "`, which is not under the prefix that was asked for"))))
