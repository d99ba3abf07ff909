-- ===== src/Server/Responses.antt =====
-- dynamic-config-server/src/routes: the responses, their bodies and their status codes.
use dynamic_config.Prelude.{ℕ, Bool, Option, List, if◌then◌else◌}
use dynamic_config.Prelude.Text.{Text}
use dynamic_config.Prelude.Results.{Result}
use dynamic_config.Error.{Error}
use dynamic_config.Reload.{ConfigStatus}
use dynamic_config.Check.{Report}
use dynamic_config.Explain.{Explanation}
use dynamic_config.Cell.History.{Op}
use dynamic_config.Server.Auth.{Principal}
use dynamic_config.Server.Sections.{Document, Section}
use dynamic_config.Server.Audit.{AuditEntry}
use dynamic_config.Server.Streams.{Generations}

-- `StatusBody` and its `FailureBody`; a duration is the difference of two readings of the clock.
pub record FailureBody : Type 0 where
  pub kind : Text
  pub path : Text
  pub ago : ℕ

pub record StatusBody : Type 0 where
  pub application : Text
  pub profile : Text
  pub generation : ℕ
  pub ready : Bool
  pub healthy : Bool
  pub consecutive_failures : ℕ
  pub stale_for : Option ℕ
  pub last_reason : Option Text
  pub last_failure : Option FailureBody

-- `CheckBody`, with its rows.
pub record CheckBody : Type 0 where
  pub application : Text
  pub profile : Text
  pub clean : Bool
  pub resolved : List (Text × Text)
  pub unknown : List (Text × Option Text)
  pub failure : Option Text

-- `ExplainBody`, with its rows.
pub record ExplainRow : Type 0 where
  pub layer : Text
  pub origin : Option Text
  pub value : Option Text

pub record ExplainBody : Type 0 where
  pub application : Text
  pub profile : Text
  pub path : Text
  pub winner : Option Text
  pub rows : List ExplainRow

-- The responses of this crate.
pub data Response (L : Type 0) : Type 0 where
  unauthenticated not_found unready at_capacity healthy : Response L
  unavailable : (kind path : Text) → Response L
  readiness : Bool → Response L
  exposition : List (Text × Text × ConfigStatus) → Response L
  document_body :
      (application profile : Text) → (generation : ℕ) → (config : Document L) → Response L
  paths_body : (application profile : Text) → (generation : ℕ) → (paths : List Text) → Response L
  status_body : StatusBody → Response L
  check_body : CheckBody → Response L
  explain_body : ExplainBody → Response L
  event_stream : Generations → Response L

-- The status code of a response.
unfoldable pub status_code : {L : Type 0} → Response L → ℕ
status_code unauthenticated = 401
status_code not_found = 404
status_code unready = 503
status_code at_capacity = 503
status_code (unavailable kind path) = 500
status_code (readiness ready) = if ready then 200 else 503
status_code _ = 200

-- What a handler does: the entries it records, in order, its response, and how many streams are open
-- after it.
pub record Answer (L : Type 0) : Type 0 where
  pub recorded : List AuditEntry
  pub response : Response L
  pub streams : ℕ

-- `struct Admitted`
pub record Admitted (L : Type 0) : Type 0 where
  pub principal : Principal
  pub section : Section L
  pub endpoint : Text

-- The headers that the handlers read, each absent if it is not text; and what the sources answer
-- when a diagnostic reads them, what others install while a handler reads, and the clock.
pub record Asked (L : Type 0) : Type 0 where
  pub authorization : Option Text
  pub last_event_id : Option ℕ
  pub checked : Section L → Result Error Report
  pub explained : Section L → Text → Result Error Explanation
  pub between : List (Op (Document L))
  pub now : ℕ
