-- ===== src/Watch.antt =====
-- dynamic-config/src/watch: the background loop that waits out a flurry of events and reloads once
-- (debounce.rs), and what is watched (mod.rs). Times are nanoseconds;
-- handling a message takes none, and one that arrives when a wait ends comes after it.
pub mod Relevance
pub mod Ends
pub mod Quiet
pub mod Reloads
mod Examples
use dynamic_config.Prelude.{
  ℕ, zero, suc, Bool, true, false, Option, none, some, List, [], ◌∷◌, ◌++◌, ◌+◌, ◌*◌, ◌^◌, ◌-◌,
  ◌||◌, leb, ltb, min, is_some, if◌then◌else◌,
}
use dynamic_config.Prelude.Text.{Text, codes}
use dynamic_config.Prelude.Str.{starts_with}
use dynamic_config.Prelude.Paths.{FilePath, components, file_name, parent, same_path, ends_with}
use dynamic_config.Source.{Source, LoadSpec, Search, source_path}
use dynamic_config.Source.Discovery.{expand_home, is_candidate}
use dynamic_config.Units.{duration_mod}
use dynamic_config.Watch.Relevance.{Watched, Message, trigger_of, event, failed}

-- `enum Collected`, and that the loop blocks for ever.
pub data Collected : Type 0 where
  dirty : FilePath → Collected
  disconnected blocked : Collected

-- How a round of collecting ends: with what, when, and what is left in the channel. A round that blocks
-- for ever has 0 as its time.
pub record Round : Type 0 where
  pub collected : Collected
  pub time : ℕ
  pub left : List (ℕ × Message)

-- The later of two times.
abbrev pub later_of : ℕ → ℕ → ℕ
later_of a b = if leb a b then b else a

-- The wait that finds nothing in the channel.
unfoldable pub last_wait : Option ℕ → (now target : ℕ) → FilePath → Round
last_wait none now target trigger = record { collected = dirty trigger; time = target; left = [] }
last_wait (some c) now target trigger =
    if ltb (later_of now c) target
    then record { collected = disconnected; time = later_of now c; left = [] }
    else record { collected = dirty trigger; time = target; left = [] }

module _ (watched : Watched) (debounce : ℕ) (closes : Option ℕ) where
  -- `quiet_until` after a message
  unfoldable pub quiet_after : Option FilePath → (quiet now : ℕ) → ℕ
  quiet_after none quiet now = quiet
  quiet_after (some path) quiet now = now + debounce

  -- The second loop of `collect_relevant`.
  unfoldable pub wait_out : (deadline quiet now : ℕ) → FilePath → List (ℕ × Message) → Round
  unfolding trigger_of quiet_after last_wait
  wait_out deadline quiet now trigger [] =
      if leb (min quiet deadline) now
      then record { collected = dirty trigger; time = now; left = [] }
      else last_wait closes now (min quiet deadline) trigger
  wait_out deadline quiet now trigger ((arrives, message) ∷ rest) =
      let went = later_of now arrives in
      let further =
        wait_out deadline (quiet_after (trigger_of watched message) quiet went) went trigger rest in
      if leb (min quiet deadline) now
      then record { collected = dirty trigger; time = now; left = (arrives, message) ∷ rest }
      else if ltb went (min quiet deadline)
      then further
      else record {
        collected = dirty trigger;
        time = min quiet deadline;
        left = (arrives, message) ∷ rest;
      }

  -- `debounce.saturating_mul(4)`
  abbrev pub max_wait : ℕ
  max_wait = min (debounce * 4) (duration_mod - 1)

  -- The end of the first loop of `collect_relevant`, where the channel is empty.
  unfoldable pub no_more : Option ℕ → ℕ → Round
  no_more none now = record { collected = blocked; time = 0; left = [] }
  no_more (some c) now = record { collected = disconnected; time = later_of now c; left = [] }

  -- `collect_relevant`, from a time on.
  unfoldable pub collect_relevant : ℕ → List (ℕ × Message) → Round
  unfolding trigger_of wait_out no_more
  collect_relevant now [] = no_more closes now
  collect_relevant now ((arrives, message) ∷ rest) =
      let went = later_of now arrives in
      let further = collect_relevant went rest in
      elim (trigger_of watched message) [
        | none ↦ further
        | some path ↦ wait_out (went + max_wait) (went + debounce) went path rest
      ]

-- `ATOMIC_SAVE_GRACE`
abbrev pub atomic_save_grace : ℕ
atomic_save_grace = 25 * 1_000_000

-- A reload: the path that triggered it and when it starts.
pub record Reloading : Type 0 where
  pub trigger : FilePath
  pub starts : ℕ

module _ (watched : Watched) (debounce : ℕ) (closes : Option ℕ) (lasts : ℕ → ℕ) where
  -- `run`, on fuel: one round more than there are messages. `lasts` is how long the reload takes that
  -- starts at a time, whatever its outcome, which is only logged; `none` is that the fuel ran out.
  unfoldable pub run_rounds : ℕ → (now : ℕ) → List (ℕ × Message) → Option (List Reloading)
  unfolding collect_relevant
  run_rounds zero now queue = none
  run_rounds (suc fuel) now queue =
      let round = collect_relevant watched debounce closes now queue in
      let starts = round.time + atomic_save_grace in
      let later = run_rounds fuel (starts + lasts starts) round.left in
      elim round.collected [
        | disconnected ↦ some []
        | blocked ↦ some []
        | dirty path ↦ elim later [
          | none ↦ none
          | some rest ↦ some (record { trigger = path; starts = starts } ∷ rest)
        ]
      ]

-- The paths of the sources that are files.
unfoldable pub source_paths : List Source → List FilePath
unfolding components
source_paths [] = []
source_paths (s ∷ rest) =
    let later = source_paths rest in
    elim (source_path s) [ none ↦ later | some path ↦ components path ∷ later ]

-- `search_directories` of discovery.rs
unfoldable pub search_directories : (Text → Option Text) → List Text → List FilePath
unfolding expand_home
search_directories environment [] = []
search_directories environment (path ∷ rest) =
    let later = search_directories environment rest in
    elim (expand_home environment (λ p. true) path) [ none ↦ later | some d ↦ d ∷ later ]

-- `Watched::from_spec`
unfoldable pub from_spec : (Text → Option Text) → LoadSpec → Watched
unfolding source_paths search_directories
from_spec environment spec = elim spec.search [
  | none ↦ record { files = source_paths spec.sources; search_directories = []; search_name = none }
  | some search ↦ record {
    files = source_paths spec.sources;
    search_directories = search_directories environment search.paths;
    search_name = some search.name;
  }
]
