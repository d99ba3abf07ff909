-- ===== src/Explain.antt =====
-- dynamic-config/src/explain.rs: which layer supplies a path, and which one wins.
pub mod Winner
mod Examples
use dynamic_config.Prelude.{
  Bool, true, false, Option, none, some, List, [], ◌∷◌, ◌++◌, ◌&&◌, ◌||◌, not, is_some,
  if◌then◌else◌, map,
}
use dynamic_config.Prelude.Text.{Text, codes, text_eq}
use dynamic_config.Prelude.Results.{Result, ok, err, ◌>>=◌}
use dynamic_config.Error.{Error, Origin, file, env, remote, runtime, inline, unknown, is_unknown}

-- `struct Contribution`
pub record Contribution : Type 0 where
  pub layer : Text
  pub origin : Option Origin
  pub value : Option Text
  pub aliased_from : Option Text

-- `Contribution::label`
unfoldable pub label : Contribution → Text
label row = elim row.aliased_from [ none ↦ row.layer | some from ↦ row.layer ++ (b' ' ∷ from) ]

-- `struct Explanation`
pub record Explanation : Type 0 where
  pub path : Text
  pub rows : List Contribution

-- `rows.iter().rev().find(|row| row.value.is_some())`: the last row with a value.
unfoldable pub last_with_value : List Contribution → Option Contribution
last_with_value [] = none
last_with_value (row ∷ rest) =
    let later = last_with_value rest in
    elim later [ some r ↦ some r | none ↦ (if is_some row.value then some row else none) ]

-- `Explanation::winner`
unfoldable pub winner : Explanation → Option Contribution
unfolding last_with_value
winner e = last_with_value e.rows

-- The loop of `redacted`.
unfoldable pub redact_rows : List Contribution → List Contribution
redact_rows [] = []
redact_rows (row ∷ rest) =
    (if is_some row.value then record row { value = some (codes "***") } else row)
    ∷ redact_rows rest

-- `Explanation::redacted`
unfoldable pub redacted : Explanation → Explanation
unfolding redact_rows
redacted e = record e { rows = redact_rows e.rows }

-- `Origin == Origin`
unfoldable pub same_origin : Origin → Origin → Bool
same_origin (file a) (file b) = text_eq a b
same_origin (env a) (env b) = text_eq a b
same_origin (remote a) (remote b) = text_eq a b
same_origin (runtime a) (runtime b) = text_eq a b
same_origin inline inline = true
same_origin unknown unknown = true
same_origin _ _ = false

-- What figment finds at the path in one layer: the rendered value, and where it came from.
pub record Found : Type 0 where
  pub rendered : Text
  pub origin : Origin

-- The loop over the layers.
unfoldable pub contributions : List (Text × Option Found) → List Contribution
contributions [] = []
contributions ((name, found) ∷ rest) =
    record {
      layer = name;
      origin = elim found [ none ↦ none | some it ↦ some it.origin ];
      value = elim found [ none ↦ none | some it ↦ some it.rendered ];
      aliased_from = none;
    }
    ∷ contributions rest

-- `aliased_from`: the first alias whose new path is the one asked for.
unfoldable pub aliased_from : List (Text × Text) → Text → Option Text
aliased_from [] path = none
aliased_from ((from, to) ∷ rest) path =
    if text_eq to path then some from else aliased_from rest path

-- `disagrees`
unfoldable pub disagrees : Option Contribution → Origin → Bool
unfolding same_origin
disagrees none origin = true
disagrees (some row) origin =
    not (is_unknown origin)
    && not (elim row.origin [ none ↦ false | some it ↦ same_origin it origin ])

-- The rows that the merged figment adds: one for an alias, where the walk over the layers missed it.
unfoldable pub alias_row :
    List (Text × Text) → Text → Option Found → List Contribution → List Contribution
unfolding disagrees aliased_from last_with_value
alias_row pairs path none rows = rows
alias_row pairs path (some it) rows =
    if disagrees (last_with_value rows) it.origin
    then rows
      ++ (record {
        layer = codes "alias";
        origin = some it.origin;
        value = some it.rendered;
        aliased_from = aliased_from pairs path;
      }
          ∷ [])
    else rows

-- `explain`: `layers` is what `layer_figments` answers, at the path; `merged` what the merged
-- figment has there; `pairs` the aliases, or none.
unfoldable pub explain :
    Result Error (List (Text × Option Found))
    → Result Error (Option Found)
    → List (Text × Text)
    → Text
    → Result Error Explanation
unfolding contributions alias_row
explain layers merged pairs path = do
  found ← layers
  final ← merged
  ok (record { path = path; rows = alias_row pairs path final (contributions found) })
