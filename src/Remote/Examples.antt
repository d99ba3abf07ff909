-- ===== src/Remote/Examples.antt =====
-- Fetches that are overtaken, deliveries that come late, and watches that are stopped.
use dynamic_config.Prelude.{ℕ, some, none, List, [], ◌∷◌, ◌<◌, ◌≡◌, refl, arith, Bool, true, ltb}
use dynamic_config.Prelude.Text.{Text, codes}
use dynamic_config.Prelude.Results.{Result, ok, err}
use dynamic_config.Error.{Error}
use dynamic_config.Remote
use dynamic_config.Remote.{
  State, Kind, blocking, Fetched, json, fence_of, commit, record_fetch, counted, count_u32,
  install_if, superseded,
}
use dynamic_config.Remote.Ops.{Op, run}
use dynamic_config.Remote.Fencing.{InRange, commit_overtaken, commit_lands}
use dynamic_config.Remote.Refresh.{refresh, refresh_overtaken}
use dynamic_config.Remote.Sink
use dynamic_config.Remote.Sink.{sink_of, replaced_meanwhile, apply_stale, apply_current}

-- A source is installed, and nothing is fetched.
abbrev start : State
start = record {
  source = some (blocking 1);
  fetched = none;
  generation = 1;
  cleared = 0;
  status = Remote.empty;
}

start-InRange : InRange start
start-InRange = record { generation = omega arith; cleared = omega arith }

abbrev document : Fetched
document = record { text = codes "{}"; format = json }

-- Others install a second source, and drop the document.
abbrev replaced : List Op
replaced = Op.set (blocking 2) ∷ []

abbrev delivered : List Op
delivered = Op.install_if 1 document 3 ∷ []

abbrev describe : ℕ → Text
describe source = codes "a store"

abbrev fetch : ℕ → Result Error Fetched
fetch source = ok document

commit_overtaken_example :
    commit document (fence_of start) (run replaced start) ≡ run replaced start
commit_overtaken_example =
    commit_overtaken start replaced document start-InRange (omega arith) (omega arith) (omega arith)

commit_lands_example :
    (commit document (fence_of start) (run delivered start)).fetched ≡ some document
commit_lands_example = commit_lands start delivered document start-InRange refl refl

refresh_overtaken_example :
    refresh describe fetch replaced [] 3 4 start ≡ (run [] (run replaced start), ok tt)
refresh_overtaken_example =
    refresh_overtaken describe fetch replaced [] 3 4 start refl start-InRange (omega arith)
      (omega arith) (omega arith)

apply_stale_example :
    Sink.apply (sink_of start) document 5 [] (ok tt) (run replaced start)
    ≡ record { state = run replaced start; reloads = 0; outcome = err superseded }
apply_stale_example =
    apply_stale start replaced document 5 [] (ok tt) start-InRange (omega arith) (omega arith)

-- The flag is cleared before the second test.
abbrev stopping : ℕ → Bool
stopping i = ltb i 1

going_before : (j : ℕ) → j < 1 → stopping j ≡ true
going_before j h = ground arith
