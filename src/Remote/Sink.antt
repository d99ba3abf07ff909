-- ===== src/Remote/Sink.antt =====
-- dynamic-config/src/remote/sink.rs: what a watch loop delivers through. A sink remembers the
-- generation of the source that it was taken for.
use dynamic_config.Prelude.{ℕ, List, ◌^◌, ◌<◌, ◌≡◌, arith, true, false, ◌==◌, if◌then◌else◌}
use dynamic_config.Prelude.Text.{codes}
use dynamic_config.Prelude.Results.{Result, ok, err}
use dynamic_config.Error
use dynamic_config.Error.{Error, ErrorKind}
use dynamic_config.Remote.{State, Fetched, install_if, record_fetch_failure, superseded}
use dynamic_config.Remote.Ops.{Op, run, sets}
use dynamic_config.Remote.Fencing.{InRange, generation-run, apply-InRange}

pub record RemoteSink : Type 0 where
  pub generation : ℕ

-- `RemoteSink::new`
unfoldable pub sink_of : State → RemoteSink
sink_of s = record { generation = s.generation }

-- `RemoteSink::failed`
unfoldable pub failed : RemoteSink → Error → ℕ → State → State
unfolding record_fetch_failure
failed sink e now s = record_fetch_failure e now sink.generation s

abbrev pub replaced_meanwhile : Error
replaced_meanwhile = Error.new ErrorKind.backend (
    codes
      "the remote source this sink was created for was replaced while its delivery reloaded; the replacement's state was restored — stop the old watch loop and take a fresh sink from `remote_sink()`")

-- What `RemoteSink::apply` did: the state, how many times it reloaded, and its result.
pub record Applied : Type 0 where
  pub state : State
  pub reloads : ℕ
  pub outcome : Result Error (Unit {0})

-- `RemoteSink::apply`: `during` is what others did while the delivery reloaded, and `reloaded` what
-- that reload returned.
unfoldable pub apply :
    RemoteSink
    → Fetched
    → (now : ℕ) → (during : List Op) → (reloaded : Result Error (Unit {0})) → State
    → Applied
unfolding install_if run
apply sink d now during reloaded s =
    let (s', installed) = install_if sink.generation d now s in
    let s'' = run during s' in
    elim installed [
      | err e ↦ record { state = s'; reloads = 0; outcome = err e }
      | ok u ↦ elim (s''.generation == sink.generation) [
        | true ↦ record { state = s''; reloads = 1; outcome = reloaded }
        | false ↦ record { state = s''; reloads = 2; outcome = err replaced_meanwhile }
      ]
    ]

-- A sink whose source was replaced before the delivery, fewer than 2^64 times and with counters in
-- range, changes nothing, reloads nothing and fails as superseded.
pub apply_stale :
    (s : State) (between : List Op) (d : Fetched) (now : ℕ) (during : List Op)
    (reloaded : Result Error (Unit {0}))
    → InRange s
    → 0 < sets between
    → sets between < 2 ^ 64
    → apply (sink_of s) d now during reloaded (run between s)
      ≡ record { state = run between s; reloads = 0; outcome = err superseded }
unfolding apply sink_of
apply_stale s between d now during reloaded h p q = ground (arith, generation-run between s h)

-- With counters in range and fewer than 2^64 installs meanwhile: a delivery by a sink of the
-- installed source has the result of its reload; if the source is
-- replaced meanwhile it reloads once more, for the replacement, and fails.
pub apply_current :
    (s : State) (d : Fetched) (now : ℕ) (during : List Op) (reloaded : Result Error (Unit {0}))
    → InRange s
    → sets during < 2 ^ 64
    → apply (sink_of s) d now during reloaded s ≡ (
        let s' = (install_if s.generation d now s).0 in
        if sets during == 0
        then record { state = run during s'; reloads = 1; outcome = reloaded }
        else record { state = run during s'; reloads = 2; outcome = err replaced_meanwhile })
unfolding apply sink_of
apply_current s d now during reloaded h q = ground (
  arith,
  generation-run during (install_if s.generation d now s).0
      (apply-InRange (Op.install_if s.generation d now) h),
)
