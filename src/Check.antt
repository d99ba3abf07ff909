-- ===== src/Check.antt =====
-- dynamic-config/src/check.rs: the report of a check.
use dynamic_config.Prelude.{Bool, Option, List, ◌&&◌, not, is_some, is_empty}
use dynamic_config.Prelude.Text.{Text}
use dynamic_config.Error.{Origin}

pub record UnknownKey : Type 0 where
  pub path : Text
  pub suggestion : Option Text

pub record Resolved : Type 0 where
  pub path : Text
  pub origin : Origin

pub record Report : Type 0 where
  pub key : Text
  pub resolved : List Resolved
  pub unknown : List UnknownKey
  pub unknown_checked : Bool
  pub failure : Option Text

-- `Report::is_clean`
unfoldable pub is_clean : Report → Bool
is_clean r = not (is_some r.failure) && is_empty r.unknown
