-- ===== src/Aliases/Examples.antt =====
-- A chain of renames, the cycle that is refused, and a pass that carries a value along the chain.
use dynamic_config.Prelude.{ℕ, false, some, [], ◌∷◌, ◌≡◌, refl, All, is_some}
use dynamic_config.Prelude.Text.{Text, codes, cmp}
use dynamic_config.Prelude.Results.{ok, err}
use dynamic_config.Map.{Map, insert, get}
use dynamic_config.Aliases.{add, closes_cycle, Gaps, Filling, apply_aliases}
use dynamic_config.Aliases.Acyclic.{IsAcyclic, last, add-IsAcyclic}
use dynamic_config.Aliases.Pass.{IsSettled, apply_aliases_total}

abbrev renamed : Map Text
renamed = (codes "b", codes "c") ∷ []

abbrev chained : Map Text
chained = (codes "a", codes "b") ∷ (codes "b", codes "c") ∷ []

none-IsAcyclic : IsAcyclic []
unfolding get
none-IsAcyclic = record { ends = λ k. last refl }

first_is_added : add (codes "b") (codes "c") [] ≡ some (ok renamed)
unfolding add cmp
first_is_added = refl

second_is_added : add (codes "a") (codes "b") renamed ≡ some (ok chained)
unfolding add cmp
second_is_added = refl

cycle_is_refused :
    add (codes "c") (codes "a") chained ≡ some (err (closes_cycle (codes "c") (codes "a")))
unfolding add cmp
cycle_is_refused = refl

renamed-IsAcyclic : IsAcyclic renamed
renamed-IsAcyclic =
    (add-IsAcyclic (codes "b") (codes "c") [] renamed none-IsAcyclic first_is_added).1

add-IsAcyclic_example : (chained ≡ insert (codes "a") (codes "b") renamed) × IsAcyclic chained
add-IsAcyclic_example =
    add-IsAcyclic (codes "a") (codes "b") renamed chained renamed-IsAcyclic second_is_added

-- A figment here is the map of its values, and nothing is a default.
abbrev gaps : Gaps (Map ℕ) ℕ
gaps = record {
  supplied = λ f to. is_some (get f to);
  value_at = λ f from. get f from;
  fill = λ f from to value. insert to value f;
}

carried :
    apply_aliases gaps ((codes "b", codes "c") ∷ (codes "x", codes "b") ∷ []) ((codes "x", 7) ∷ [])
    ≡ some (record {
      figment = (codes "b", 7) ∷ (codes "c", 7) ∷ (codes "x", 7) ∷ [];
      filled = codes "c" ∷ codes "b" ∷ [];
      progressed = false;
    })
unfolding apply_aliases cmp get insert
carried = refl

apply_aliases_total_example :
    (s : Filling (Map ℕ)) × (apply_aliases gaps
        ((codes "b", codes "c") ∷ (codes "x", codes "b") ∷ [])
        ((codes "x", 7) ∷ [])
      ≡ some s)
    × All (IsSettled gaps s) ((codes "b", codes "c") ∷ (codes "x", codes "b") ∷ [])
apply_aliases_total_example =
    apply_aliases_total gaps ((codes "b", codes "c") ∷ (codes "x", codes "b") ∷ [])
      ((codes "x", 7) ∷ [])
