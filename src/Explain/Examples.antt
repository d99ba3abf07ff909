-- ===== src/Explain/Examples.antt =====
-- A path that the environment supplies over a file, and one that only an alias supplies.
use dynamic_config.Prelude.{none, some, List, [], ◌∷◌, ◌≡◌, ◌⊎◌, Option, refl}
use dynamic_config.Prelude.Text.{Text, codes, cmp}
use dynamic_config.Prelude.Results.{ok}
use dynamic_config.Error.{file, unknown}
use dynamic_config.Explain.{Contribution, Explanation, Found, explain, winner}
use dynamic_config.Explain.Winner.{explain-winner}

abbrev layers : List (Text × Option Found)
layers =
    (codes "file", some (record { rendered = codes "64"; origin = file (codes "app.toml") }))
    ∷ (codes "env", none)
    ∷ []

abbrev moved : Found
moved = record { rendered = codes "8"; origin = file (codes "old.toml") }

abbrev explained : Explanation
explained = record {
  path = codes "max";
  rows =
      record {
        layer = codes "file";
        origin = some (file (codes "app.toml"));
        value = some (codes "64");
        aliased_from = none;
      }
      ∷ record { layer = codes "env"; origin = none; value = none; aliased_from = none }
      ∷ record {
        layer = codes "alias";
        origin = some (file (codes "old.toml"));
        value = some (codes "8");
        aliased_from = some (codes "size");
      }
      ∷ [];
}

alias_wins :
    explain (ok layers) (ok (some moved)) ((codes "size", codes "max") ∷ []) (codes "max")
    ≡ ok explained
unfolding explain cmp
alias_wins = refl

explain-winner_example :
    (row : Contribution) × (winner explained ≡ some row)
    × ((row.origin ≡ some moved.origin) ⊎ (moved.origin ≡ unknown))
explain-winner_example =
    explain-winner layers moved ((codes "size", codes "max") ∷ []) (codes "max") explained
      alias_wins
