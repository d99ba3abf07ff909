-- ===== src/Remote/Attempts.antt =====
-- dynamic-config-store-core/src/attempts.rs: where the watch loop of a store reports an attempt that
-- came back with nothing.
use dynamic_config.Prelude.{ℕ, Bool, Option, none, some, is_some, List, ◌^◌, ◌<◌, ◌≡◌, arith}
use dynamic_config.Error.{Error}
use dynamic_config.Remote.{State, record_fetch_failure}
use dynamic_config.Remote.Ops.{Op, run, sets}
use dynamic_config.Remote.Sink.{RemoteSink, sink_of, failed}
use dynamic_config.Remote.Fencing.{InRange, generation-run}

-- `struct Attempts`
pub record Attempts : Type 0 where
  pub sink : Option RemoteSink

-- `Attempts::to`
abbrev pub to_sink : RemoteSink → Attempts
to_sink sink = record { sink = some sink }

unfoldable pub report : Option RemoteSink → Error → ℕ → State → State
report none e now s = s
report (some sink) e now s = failed sink e now s

-- `Attempts::failed`
unfoldable pub failed_attempt : Attempts → Error → ℕ → State → State
unfolding report
failed_attempt a e now s = report a.sink e now s

-- `Attempts::is_reporting`
abbrev pub is_reporting : Attempts → Bool
is_reporting a = is_some a.sink

-- A failure that the loop of a source reports after the source was replaced, fewer than 2^64 times and
-- with counters in range, is not counted against the replacement.
failed_attempt-stale :
    (s : State) (between : List Op) (e : Error) (now : ℕ)
    → InRange s
    → 0 < sets between
    → sets between < 2 ^ 64
    → failed_attempt (to_sink (sink_of s)) e now (run between s) ≡ run between s
unfolding failed_attempt report failed record_fetch_failure sink_of
failed_attempt-stale s between e now h p q = ground (arith, generation-run between s h)
