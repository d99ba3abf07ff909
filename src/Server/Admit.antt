-- ===== src/Server/Admit.antt =====
-- dynamic-config-server/src/routes/admit.rs: who may ask, and every way a request is refused.
pub mod Granted
use dynamic_config.Prelude.{ℕ, Bool, Option, none, some, List, [], ◌∷◌, ◌&&◌, not, if◌then◌else◌}
use dynamic_config.Prelude.Text.{Text}
use dynamic_config.Prelude.Results.{Result, ok, err}
use dynamic_config.Error.{Error, as_str, dotted_path}
use dynamic_config.Server.Auth.{Principal, authenticate, may_read}
use dynamic_config.Server.Names.{is_name}
use dynamic_config.Server.Sections.{Section, Server, section}
use dynamic_config.Server.Audit.{AuditEntry, Outcome}
use dynamic_config.Server.Responses.{
  Response, unauthenticated, not_found, unready, at_capacity, unavailable, Answer, Admitted, Asked,
}

module _ {L : Type 0} (server : Server L) (asked : Asked L) where
  abbrev pub answer : AuditEntry → Response L → Answer L
  answer entry response = record {
    recorded = entry ∷ [];
    response = response;
    streams = server.streams;
  }

  -- `refuse`
  unfoldable pub refuse : Text → Outcome → Option Text → Option (Text × Text) → Answer L
  refuse endpoint outcome caller at =
      answer
        (record {
          caller = caller;
          application = elim at [ none ↦ none | some (application, profile) ↦ some application ];
          profile = elim at [ none ↦ none | some (application, profile) ↦ some profile ];
          endpoint = endpoint;
          outcome = outcome;
          generation = none;
        })
        (elim outcome [ Outcome.unauthenticated ↦ unauthenticated | _ ↦ not_found ])

  -- The entry of `served`, and of `unready`, `at_capacity` and `unavailable`.
  abbrev pub entry_of : Admitted L → Outcome → Option ℕ → AuditEntry
  entry_of admitted outcome generation = record {
    caller = some admitted.principal.name;
    application = some admitted.section.application;
    profile = some admitted.section.profile;
    endpoint = admitted.endpoint;
    outcome = outcome;
    generation = generation;
  }

  -- `admit`
  unfoldable pub admit : Text → Text → Text → Result (Answer L) (Admitted L)
  unfolding refuse authenticate is_name may_read section
  admit application profile endpoint =
      elim (authenticate server.authenticator asked.authorization) [
        | none ↦ err (refuse endpoint Outcome.unauthenticated none none)
        | some principal ↦
            if not (is_name application && is_name profile)
            then err (refuse endpoint Outcome.malformed (some principal.name) none)
            else if not (may_read principal application)
            then err (
                refuse endpoint Outcome.not_found (some principal.name)
                  (some (application, profile)))
            else elim (section server application profile) [
              | none ↦ err (
                  refuse endpoint Outcome.not_found (some principal.name)
                    (some (application, profile)))
              | some found ↦
                  ok (record { principal = principal; section = found; endpoint = endpoint })
            ]
      ]

  -- `match admit(..) { Ok(admitted) => .., Err(response) => return *response }`
  abbrev pub or_refused : Result (Answer L) (Admitted L) → (Admitted L → Answer L) → Answer L
  or_refused (ok admitted) handler = handler admitted
  or_refused (err refused) handler = refused

  -- `served`, with the response that follows it.
  abbrev pub served : Admitted L → ℕ → Response L → Answer L
  served admitted generation response =
      answer (entry_of admitted Outcome.served (some generation)) response

  -- `unready`
  unfoldable pub unready_answer : Admitted L → Answer L
  unready_answer admitted = answer (entry_of admitted Outcome.unavailable none) unready

  -- `at_capacity`
  unfoldable pub at_capacity_answer : Admitted L → Answer L
  at_capacity_answer admitted = answer (entry_of admitted Outcome.unavailable none) at_capacity

  -- `unavailable`
  unfoldable pub unavailable_answer : Admitted L → Error → Answer L
  unfolding as_str dotted_path
  unavailable_answer admitted e =
      answer (entry_of admitted Outcome.unavailable none)
        (unavailable (as_str e.kind) (dotted_path e))

  -- The answer that a caller who asks for a path or a stream that is not to be had is refused with.
  abbrev pub refused_at : Admitted L → Outcome → Answer L
  refused_at admitted outcome =
      refuse admitted.endpoint outcome (some admitted.principal.name)
        (some (admitted.section.application, admitted.section.profile))
