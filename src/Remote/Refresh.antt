-- ===== src/Remote/Refresh.antt =====
-- `Remote::refresh` and `refresh_async`: the lock is let go for the fetch, and again between the
-- commit and the status. `during` and `after` are what others did in the two gaps; `started` and
-- `ended` are the clock before and after the fetch.
use dynamic_config.Prelude.{ℕ, none, some, List, [], ◌++◌, ◌+◌, ◌-◌, ◌^◌, ◌<◌, ◌≡◌, refl, arith}
use dynamic_config.Prelude.Text.{Text, codes}
use dynamic_config.Prelude.Results.{Result, ok, err}
use dynamic_config.Error
use dynamic_config.Error.{Error, ErrorKind}
use dynamic_config.Reload.{failure_of}
use dynamic_config.Remote.{
  State, Kind, blocking, asynchronous, Fetched, Fence, fence_of, commit, record_fetch,
  record_fetch_failure, counted, count_u32,
}
use dynamic_config.Remote.Ops.{Op, run, sets, clears}
use dynamic_config.Remote.Fencing.{InRange, generation-run, commit_overtaken, InRange-run}

none_installed : Error
none_installed =
    Error.new ErrorKind.remote (codes "no remote source is installed; call `set_remote` first")

-- `describe` is the source's own description of itself.
is_async : (ℕ → Text) → ℕ → Error
is_async describe source = Error.new ErrorKind.remote (
    codes "`"
    ++ (describe source ++ codes "` is an async source; refresh it with `refresh_remote_async`"))

-- The first lock of `refresh`: the source to ask, and the fence.
unfoldable pub begin : (ℕ → Text) → State → Result Error (ℕ × Fence)
unfolding none_installed is_async
begin describe s = elim s.source [
  | none ↦ err none_installed
  | some kind ↦ elim kind [
    | blocking source ↦ ok (source, fence_of s)
    | asynchronous source ↦ err (is_async describe source)
  ]
]

-- The first lock of `refresh_async`, which takes either kind.
unfoldable pub begin_async : State → Result Error (Kind × Fence)
unfolding none_installed
begin_async s = elim s.source [ none ↦ err none_installed | some kind ↦ ok (kind, fence_of s) ]

-- What follows the fetch, in both.
unfoldable pub finish :
    Fence
    → Result Error Fetched
    → (after : List Op) → (started ended : ℕ) → State
    → State × Result Error (Unit {0})
unfolding commit record_fetch record_fetch_failure run
finish fence (ok d) after started ended s = (
  record_fetch (some (ended - started)) ended fence.generation (run after (commit d fence s)),
  ok tt,
)
finish fence (err e) after started ended s =
    (record_fetch_failure e ended fence.generation s, err e)

-- `Remote::refresh`; `fetch` is what the source answers.
unfoldable pub refresh :
    (describe : ℕ → Text) (fetch : ℕ → Result Error Fetched) (during after : List Op)
    → (started ended : ℕ) → State
    → State × Result Error (Unit {0})
unfolding begin finish
refresh describe fetch during after started ended s = elim (begin describe s) [
  | err e ↦ (s, err e)
  | ok (source, fence) ↦ finish fence (fetch source) after started ended (run during s)
]

-- `Remote::refresh_async`
unfoldable pub refresh_async :
    (fetch : Kind → Result Error Fetched) (during after : List Op)
    → (started ended : ℕ) → State
    → State × Result Error (Unit {0})
unfolding begin_async finish
refresh_async fetch during after started ended s = elim (begin_async s) [
  | err e ↦ (s, err e)
  | ok (kind, fence) ↦ finish fence (fetch kind) after started ended (run during s)
]

module _ (describe : ℕ → Text) (fetch : ℕ → Result Error Fetched) (during after : List Op)
    (started ended : ℕ) (s : State) {source : ℕ}
    (installed : s.source ≡ some (blocking source)) where
  -- With a blocking source installed, counters in range and fewer than 2^64 installs and clears
  -- meanwhile: a refresh during which a source was installed leaves the state exactly as the others left it,
  -- document, status and all; its result is still that of its own fetch.
  pub refresh_overtaken :
      InRange s
      → 0 < sets during
      → sets during + sets after < 2 ^ 64
      → clears during < 2 ^ 64
      → refresh describe fetch during after started ended s ≡ elim (fetch source) [
        | ok d ↦ (run after (run during s), ok tt)
        | err e ↦ (run during s, err e)
      ]
  unfolding refresh
  refresh_overtaken h p q r = answered (fetch source) refl
    where
      answered :
          (answer : Result Error Fetched)
          → fetch source ≡ answer
          → refresh describe fetch during after started ended s
            ≡ elim answer as (λ _. State × Result Error (Unit {0})) [
              | ok d ↦ (run after (run during s), ok tt)
              | err e ↦ (run during s, err e)
            ]
      answered (ok d) f = ground (
        arith,
        installed,
        f,
        commit_overtaken s during d h,
        generation-run during s h,
        generation-run after (run during s) (InRange-run during h),
      )
      answered (err e) f = ground (arith, installed, f, generation-run during s h)

  -- With a blocking source installed and counters in range: a refresh that fewer than 2^64 clears
  -- and at least one overtook, and no `set`, and whose fetch succeeds, counts its fetch and leaves the document as
  -- the others left it.
  pub refresh_cleared :
      InRange s
      → sets during ≡ 0
      → sets after ≡ 0
      → 0 < clears during
      → clears during < 2 ^ 64
      → (d : Fetched) → fetch source ≡ ok d
      → refresh describe fetch during after started ended s ≡ (
        record_fetch (some (ended - started)) ended s.generation (run after (run during s)),
        ok tt,
      )
  unfolding refresh fence_of
  refresh_cleared h p q c r d f = ground (arith, installed, f, commit_overtaken s during d h)

  -- With a blocking source installed: an undisturbed refresh installs its document and counts the fetch; a failed one keeps the
  -- document that was there and counts the failure.
  pub refresh_alone : refresh describe fetch [] [] started ended s ≡ elim (fetch source) [
    | ok d ↦ (
      record s { fetched = some d; status = counted (some (ended - started)) ended s.status },
      ok tt,
    )
    | err e ↦ (
      record s {
        status = record s.status {
          consecutive_failures = count_u32 s.status.consecutive_failures;
          last_failure = some (failure_of ended e);
        };
      },
      err e,
    )
  ]
  unfolding refresh
  refresh_alone = answered (fetch source) refl
    where
      answered :
          (answer : Result Error Fetched)
          → fetch source ≡ answer
          → refresh describe fetch [] [] started ended s
            ≡ elim answer as (λ _. State × Result Error (Unit {0})) [
              | ok d ↦ (
                record s {
                  fetched = some d;
                  status = counted (some (ended - started)) ended s.status;
                },
                ok tt,
              )
              | err e ↦ (
                record s {
                  status = record s.status {
                    consecutive_failures = count_u32 s.status.consecutive_failures;
                    last_failure = some (failure_of ended e);
                  };
                },
                err e,
              )
            ]
      answered (ok d) f = ground (arith, installed, f)
      answered (err e) f = ground (arith, installed, f)
