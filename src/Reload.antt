-- ===== src/Reload.antt =====
-- dynamic-config/src/reload.rs: why a snapshot was installed, and what is remembered of a failure.
-- An `Instant` is a reading of the monotonic clock, and is handed in where the code reads it.
use dynamic_config.Prelude.{ℕ, Bool, Option, ◌==◌}
use dynamic_config.Prelude.Text.{Text, codes}
use dynamic_config.Error.{Error, ErrorKind, dotted_path}

pub data ReloadReason : Type 0 where
  initial remote_changed manual recovered : ReloadReason
  file_changed : Text → ReloadReason

pub record FailureStatus : Type 0 where
  pub at : ℕ
  pub kind : ErrorKind
  pub path : Text

-- `FailureStatus::of`, which keeps no message.
unfoldable pub failure_of : ℕ → Error → FailureStatus
failure_of now e = record { at = now; kind = e.kind; path = dotted_path e }

-- `SnapshotMeta` of cell.rs
pub record SnapshotMeta : Type 0 where
  pub generation : ℕ
  pub loaded_at : ℕ

pub record ConfigStatus : Type 0 where
  pub generation : ℕ
  pub loaded_at : Option ℕ
  pub last_reason : Option ReloadReason
  pub last_failure : Option FailureStatus
  pub consecutive_failures : ℕ

-- `ConfigStatus::is_healthy`
unfoldable pub is_healthy : ConfigStatus → Bool
is_healthy s = s.consecutive_failures == 0

-- `ReloadReason::as_str`
unfoldable pub reason_text : ReloadReason → Text
reason_text initial = codes "initial"
reason_text (file_changed path) = codes "file-changed"
reason_text remote_changed = codes "remote-changed"
reason_text manual = codes "manual"
reason_text recovered = codes "recovered"
