-- ===== src/Watch/Examples.antt =====
-- The watch at concrete events.
use dynamic_config.Prelude.{
  ℕ, Option, none, some, List, [], ◌∷◌, ◌+◌, ◌*◌, ◌≤◌, ◌≡◌, ◌≢◌, ◌⊎◌, refl, arith, true, false,
}
use dynamic_config.Prelude.Text.{codes, cmp, split}
use dynamic_config.Prelude.Paths.{FilePath, components}
use dynamic_config.Watch.{dirty, disconnected, collect_relevant, Reloading, run_rounds}
use dynamic_config.Watch.Relevance.{modify, Message, event, Watched, is_ours, trigger_of}
use dynamic_config.Watch.Quiet.{outcome, collect_relevant-keep}
use dynamic_config.Watch.Reloads.{AreServed, run_rounds-AreServed}
use dynamic_config.Watch.Ends.{collect_relevant-ends}

abbrev watched : Watched
watched = record {
  files = components (codes "config/app.toml") ∷ [];
  search_directories = [];
  search_name = none;
}

-- An event path is absolute, and a remounted ConfigMap shows in its marker alone.
absolute_is_ours : is_ours (components (codes "/srv/config/app.toml")) watched ≡ true
unfolding is_ours components split cmp
absolute_is_ours = refl

remount_is_ours : is_ours (components (codes "/srv/config/..data")) watched ≡ true
unfolding is_ours components split cmp
remount_is_ours = refl

neighbour_is_not : is_ours (components (codes "/srv/config/app.log")) watched ≡ false
unfolding is_ours components split cmp
neighbour_is_not = refl

abbrev ours : FilePath
ours = codes "/" ∷ codes "srv" ∷ codes "config" ∷ codes "app.toml" ∷ []

abbrev saved : Message
saved = event (record { kind = modify; paths = ours ∷ [] })

abbrev logged : Message
logged = event (record {
  kind = modify;
  paths = (codes "/" ∷ codes "srv" ∷ codes "config" ∷ codes "app.log" ∷ []) ∷ [];
})

abbrev flurry : List (ℕ × Message)
flurry = (20, saved) ∷ (70, logged) ∷ (90, saved) ∷ (700, saved) ∷ []

collect_relevant-ends_example :
    (20 ≤ (collect_relevant watched 100 none 0 ((10, logged) ∷ flurry)).time)
    × ((collect_relevant watched 100 none 0 ((10, logged) ∷ flurry)).time ≤ 20 + 100 * 4)
    × (((collect_relevant watched 100 none 0 ((10, logged) ∷ flurry)).collected ≡ dirty ours)
        ⊎ (((collect_relevant watched 100 none 0 ((10, logged) ∷ flurry)).collected ≡ disconnected)
            × (◌≢◌ {A = Option ℕ} none none)))
unfolding trigger_of cmp split components
collect_relevant-ends_example =
    collect_relevant-ends watched 100 none ((10, logged) ∷ []) 0 20 saved ours
      ((70, logged) ∷ (90, saved) ∷ (700, saved) ∷ []) (refl, tt) refl

collect_relevant-keep_example :
    outcome (collect_relevant watched 100 none 0 flurry)
    ≡ outcome (collect_relevant watched 100 none 0 ((20, saved) ∷ (90, saved) ∷ (700, saved) ∷ []))
unfolding trigger_of cmp split collect_relevant components
collect_relevant-keep_example =
    collect_relevant-keep watched 100 none 0 0 flurry
      (omega arith, (omega arith, (omega arith, (omega arith, tt))))

ends_at : outcome (collect_relevant watched 100 none 0 flurry) ≡ (dirty ours, 190)
unfolding collect_relevant cmp split components
ends_at = refl

run_rounds-AreServed_example :
    (reloads : List Reloading) × (run_rounds watched 100 none (λ t. 1_000) 5 0 flurry
      ≡ some reloads)
    × AreServed watched reloads flurry
run_rounds-AreServed_example =
    run_rounds-AreServed watched 100 (λ t. 1_000) 5 0 flurry (omega arith)
