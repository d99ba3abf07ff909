-- ===== src/Server/Routes.antt =====
-- dynamic-config-server/src/routes: what each request is answered, and what is recorded of it. The
-- router itself is axum's: a request names its endpoint and the segments of its path, as text.
pub mod Handled
pub mod Oracle
pub mod Served
pub mod Recorded
use dynamic_config.Server.Responses.{
  StatusBody, CheckBody, ExplainRow, ExplainBody, Response, exposition, document_body, paths_body,
  status_body, check_body, explain_body, event_stream, healthy, readiness, not_found, Answer, Asked,
}
use dynamic_config.Server.Admit.{
  answer, refuse, admit, or_refused, served, unready_answer, at_capacity_answer, unavailable_answer,
  refused_at,
}
use dynamic_config.Prelude.{
  ℕ, Bool, true, false, Option, none, some, List, [], ◌∷◌, ◌+◌, ◌-◌, ◌==◌, ◌&&◌, ltb, not,
  if◌then◌else◌, map, is_some, zero,
}
use dynamic_config.Prelude.Text.{Text, codes}
use dynamic_config.Prelude.Results.{Result, ok, err}
use dynamic_config.Error.{Error, as_str, dotted_path, Origin, origin_text}
use dynamic_config.Reload.{ConfigStatus, ReloadReason, is_healthy, FailureStatus, reason_text}
use dynamic_config.Check.{Report, Resolved, UnknownKey, is_clean}
use dynamic_config.Explain.{Explanation, Contribution, redacted, winner}
use dynamic_config.Cell
use dynamic_config.Cell.History.{Op, run}
use dynamic_config.Server.Auth.{Principal, authenticate, may_read}
use dynamic_config.Server.Names.{is_name, is_key_path}
use dynamic_config.Server.Document.{leaf_paths}
use dynamic_config.Server.Sections.{
  Document, Section, Server, installed, section_ready, section, is_ready, current,
}
use dynamic_config.Server.Audit.{AuditEntry, Outcome}
use dynamic_config.Server.Streams.{Generations, streams_enabled, open_stream}

module _ {L : Type 0} (server : Server L) (asked : Asked L) where
  -- `document`
  unfoldable pub document : Text → Text → Answer L
  unfolding admit installed unready_answer
  document application profile =
      or_refused server asked (admit server asked application profile (codes "document"))
        (λ admitted. elim (installed asked.between admitted.section) [
          | none ↦ unready_answer server asked admitted
          | some (generation, config) ↦ served server asked admitted generation (
              document_body admitted.section.application admitted.section.profile generation config)
        ])

  -- `paths`
  unfoldable pub paths : Text → Text → Answer L
  unfolding admit installed unready_answer leaf_paths
  paths application profile =
      or_refused server asked (admit server asked application profile (codes "paths")) (λ admitted.
        elim (installed asked.between admitted.section) [
          | none ↦ unready_answer server asked admitted
          | some (generation, config) ↦ served server asked admitted generation (
              paths_body admitted.section.application admitted.section.profile generation
                (leaf_paths config))
        ])

  -- `status`
  unfoldable pub status : Text → Text → Answer L
  unfolding admit section_ready is_healthy Cell.status reason_text as_str
  status application profile =
      or_refused server asked (admit server asked application profile (codes "status")) (λ admitted.
        let s = Cell.status admitted.section.config in
        served server asked admitted s.generation (
          status_body (record {
            application = admitted.section.application;
            profile = admitted.section.profile;
            generation = s.generation;
            ready = section_ready admitted.section;
            healthy = is_healthy s;
            consecutive_failures = s.consecutive_failures;
            stale_for = elim s.loaded_at [ none ↦ none | some at ↦ some (asked.now - at) ];
            last_reason = elim s.last_reason [
              | none ↦ none
              | some reason ↦ some (reason_text reason)
            ];
            last_failure = elim s.last_failure [
              | none ↦ none
              | some failure ↦ some (record {
                kind = as_str failure.kind;
                path = failure.path;
                ago = asked.now - failure.at;
              })
            ];
          })))

  -- The generation, read after what others install meanwhile.
  abbrev pub generation_after : Section L → ℕ
  generation_after s = Cell.generation (run asked.between s.config)

  -- `check`
  unfoldable pub check : Text → Text → Answer L
  unfolding admit unavailable_answer is_clean origin_text
  check application profile =
      or_refused server asked (admit server asked application profile (codes "check")) (λ admitted.
        elim (asked.checked admitted.section) [
          | err e ↦ unavailable_answer server asked admitted e
          | ok report ↦ served server asked admitted (generation_after admitted.section) (
              check_body (record {
                application = admitted.section.application;
                profile = admitted.section.profile;
                clean = is_clean report;
                resolved =
                    map (λ (it : Resolved). (it.path, origin_text it.origin)) report.resolved;
                unknown = map (λ (it : UnknownKey). (it.path, it.suggestion)) report.unknown;
                failure = report.failure;
              }))
        ])

  abbrev pub explain_row : Contribution → ExplainRow
  explain_row row = record {
    layer = row.layer;
    origin = elim row.origin [ none ↦ none | some it ↦ some (origin_text it) ];
    value = row.value;
  }

  -- `explain`
  unfoldable pub explain : Text → Text → Text → Answer L
  unfolding admit unavailable_answer refuse is_key_path redacted winner origin_text
  explain application profile path =
      or_refused server asked (admit server asked application profile (codes "explain"))
        (λ admitted.
          if not (is_key_path path)
          then refused_at server asked admitted Outcome.malformed
          else elim (asked.explained admitted.section path) [
            | err e ↦ unavailable_answer server asked admitted e
            | ok explanation ↦
                let shown = redacted explanation in
                served server asked admitted (generation_after admitted.section) (
                  explain_body (record {
                    application = admitted.section.application;
                    profile = admitted.section.profile;
                    path = path;
                    winner = elim (winner shown) [ none ↦ none | some row ↦ some row.layer ];
                    rows = map explain_row shown.rows;
                  }))
          ])

  -- The loop of `metrics` over the sections.
  unfoldable pub exposed :
      Principal → List ((Text × Text) × Section L) → List (Text × Text × ConfigStatus)
  unfolding may_read Cell.status
  exposed principal [] = []
  exposed principal ((k, s) ∷ rest) =
      let later = exposed principal rest in
      if may_read principal s.application
      then (s.application, s.profile, Cell.status s.config) ∷ later
      else later

  -- `metrics`
  unfoldable pub metrics : Answer L
  unfolding authenticate refuse exposed
  metrics = elim (authenticate server.authenticator asked.authorization) [
    | none ↦ refuse server asked (codes "metrics") Outcome.unauthenticated none none
    | some principal ↦
        answer server asked
          (record {
            caller = some principal.name;
            application = none;
            profile = none;
            endpoint = codes "metrics";
            outcome = Outcome.served;
            generation = none;
          })
          (exposition (exposed principal server.sections))
  ]

  -- `stream`
  unfoldable pub stream : Text → Text → Answer L
  unfolding admit refuse streams_enabled open_stream at_capacity_answer Cell.generation
  stream application profile =
      or_refused server asked (admit server asked application profile (codes "stream")) (λ admitted.
        if not (streams_enabled server.max_streams)
        then refused_at server asked admitted Outcome.not_found
        else elim (open_stream server.max_streams server.streams) [
          | none ↦ at_capacity_answer server asked admitted
          | some streams ↦
              record (served server asked admitted (Cell.generation admitted.section.config) (
                event_stream (record {
                  application = admitted.section.application;
                  profile = admitted.section.profile;
                  sent = none;
                  resume = asked.last_event_id;
                }))) { streams = streams }
        ])

-- The routes, and any other path.
pub data Route : Type 0 where
  healthz_route readyz_route metrics_route other_route : Route
  document_route paths_route check_route status_route stream_route :
      (application profile : Text) → Route
  explain_route : (application profile path : Text) → Route

-- `router`, with `healthz`, `readyz` and the fallback, which record nothing.
unfoldable pub respond : {L : Type 0} → Server L → Asked L → Route → Answer L
unfolding document paths status check explain metrics stream is_ready
respond server asked healthz_route = record {
  recorded = [];
  response = healthy;
  streams = server.streams;
}
respond server asked readyz_route = record {
  recorded = [];
  response = readiness (is_ready server);
  streams = server.streams;
}
respond server asked other_route = record {
  recorded = [];
  response = not_found;
  streams = server.streams;
}
respond server asked metrics_route = metrics server asked
respond server asked (document_route application profile) =
    document server asked application profile
respond server asked (paths_route application profile) = paths server asked application profile
respond server asked (check_route application profile) = check server asked application profile
respond server asked (status_route application profile) = status server asked application profile
respond server asked (stream_route application profile) = stream server asked application profile
respond server asked (explain_route application profile path) =
    explain server asked application profile path
