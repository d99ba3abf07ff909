-- ===== src/Remote.antt =====
-- dynamic-config/src/remote/mod.rs and status.rs: the installed remote source, the last document it
-- gave, and the fence that keeps a fetch which was overtaken from landing. Every function here is
-- what one holder of the lock does; a refresh takes the lock twice or more, with the fetch between.
pub mod Ops
pub mod Fencing
pub mod Refresh
pub mod Sink
pub mod Watch
pub mod Attempts
mod Examples
use dynamic_config.Prelude.{
  ℕ, Bool, true, false, Option, none, some, ◌+◌, ◌-◌, ◌%◌, ◌^◌, ◌&&◌, ◌==◌, ltb, min, if◌then◌else◌,
}
use dynamic_config.Prelude.Text.{Text, codes}
use dynamic_config.Prelude.Results.{Result, ok, err}
use dynamic_config.Error
use dynamic_config.Error.{Error, ErrorKind}
use dynamic_config.Reload.{FailureStatus, failure_of}

pub data Format : Type 0 where
  json toml yaml : Format

-- `struct Fetched` of source.rs
pub record Fetched : Type 0 where
  pub text : Text
  pub format : Format

-- `enum Kind`: the number tells one installed source object from another.
pub data Kind : Type 0 where
  blocking asynchronous : ℕ → Kind

-- `struct RemoteStatus`
pub record RemoteStatus : Type 0 where
  pub fetches : ℕ
  pub last_fetch : Option ℕ
  pub last_fetch_duration : Option ℕ
  pub last_failure : Option FailureStatus
  pub consecutive_failures : ℕ

-- `RemoteStatus::empty`
abbrev pub empty : RemoteStatus
empty = record {
  fetches = 0;
  last_fetch = none;
  last_fetch_duration = none;
  last_failure = none;
  consecutive_failures = 0;
}

-- `RemoteStatus::reachable`
unfoldable pub reachable : RemoteStatus → Option Bool
reachable s =
    if s.fetches == 0 && s.consecutive_failures == 0
    then none
    else some (s.consecutive_failures == 0)

-- `wrapping_add(1)` on a `u64`
abbrev pub next_u64 : ℕ → ℕ
next_u64 n = (n + 1) % 2 ^ 64

-- `saturating_add(1)` on a `u64` and on a `u32`
abbrev pub count_u64 : ℕ → ℕ
count_u64 n = min (n + 1) (2 ^ 64 - 1)

abbrev pub count_u32 : ℕ → ℕ
count_u32 n = min (n + 1) (2 ^ 32 - 1)

-- `struct State`, what the lock of `Remote` guards.
pub record State : Type 0 where
  pub source : Option Kind
  pub fetched : Option Fetched
  pub generation : ℕ
  pub cleared : ℕ
  pub status : RemoteStatus

-- `Remote::new`
abbrev pub new : State
new = record { source = none; fetched = none; generation = 0; cleared = 0; status = empty }

pub record Fence : Type 0 where
  pub generation : ℕ
  pub cleared : ℕ

-- `Fence::of`
unfoldable pub fence_of : State → Fence
fence_of s = record { generation = s.generation; cleared = s.cleared }

-- `Fence == Fence`
unfoldable pub same_fence : Fence → Fence → Bool
same_fence a b = a.generation == b.generation && a.cleared == b.cleared

-- `Remote::set` and `Remote::set_async`
unfoldable pub set : Kind → State → State
set source s = record s {
  source = some source;
  fetched = none;
  status = empty;
  generation = next_u64 s.generation;
}

-- `Remote::clear`
unfoldable pub clear : State → State
clear s = record s { fetched = none; cleared = next_u64 s.cleared }

-- `Remote::commit`
unfoldable pub commit : Fetched → Fence → State → State
unfolding fence_of same_fence
commit fetched fence s =
    if same_fence (fence_of s) fence then record s { fetched = some fetched } else s

-- What a fetch that arrived writes to the status.
unfoldable pub counted : Option ℕ → ℕ → RemoteStatus → RemoteStatus
counted elapsed now s = record s {
  fetches = count_u64 s.fetches;
  last_fetch = some now;
  last_fetch_duration = elapsed;
  consecutive_failures = 0;
}

-- `Remote::record_fetch`
unfoldable pub record_fetch : Option ℕ → ℕ → ℕ → State → State
unfolding counted
record_fetch elapsed now generation s =
    if s.generation == generation then record s { status = counted elapsed now s.status } else s

-- `Remote::record_fetch_failure`
unfoldable pub record_fetch_failure : Error → ℕ → ℕ → State → State
record_fetch_failure error now generation s =
    if s.generation == generation
    then record s {
      status = record s.status {
        consecutive_failures = count_u32 s.status.consecutive_failures;
        last_failure = some (failure_of now error);
      };
    }
    else s

abbrev pub superseded : Error
superseded = Error.new ErrorKind.backend (
    codes
      "the remote source this sink was created for has been replaced; stop the old watch loop and take a fresh sink from `remote_sink()`")

-- `Remote::install_if`
unfoldable pub install_if : ℕ → Fetched → ℕ → State → State × Result Error (Unit {0})
unfolding counted
install_if generation document now s =
    if s.generation == generation
    then (record s { fetched = some document; status = counted none now s.status }, ok tt)
    else (s, err superseded)
