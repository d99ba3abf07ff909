-- ===== src/Server/Routes/Handled.antt =====
-- The two ways a request for a section is answered: it is refused before any section is looked at
-- for the caller, or a handler answers it for a caller who was granted it.
use dynamic_config.Prelude.{
  ℕ, Option, none, some, [], ◌∷◌, ◌≡◌, ◌⊎◌, refl, subst, Bool-cases, inl, inr, Option-cases,
}
use dynamic_config.Prelude.Text.{Text, codes}
use dynamic_config.Prelude.Results.{Result, ok, err, Result-cases}
use dynamic_config.Server.Auth.{Principal, authenticate}
use dynamic_config.Server.Names.{is_key_path}
use dynamic_config.Server.Sections.{Server, installed}
use dynamic_config.Server.Audit.{Outcome}
use dynamic_config.Server.Streams.{open_stream, streams_enabled}
use dynamic_config.Server.Responses.{Answer, Admitted, Asked, Response, status_code}
use dynamic_config.Server.Admit.{admit, or_refused, entry_of}
use dynamic_config.Server.Admit.Granted.{
  IsGranted, Cases, granted, refused, refused_as, admit-Cases,
}
use dynamic_config.Server.Routes.{
  Route, healthz_route, readyz_route, metrics_route, other_route, document_route, paths_route,
  check_route, status_route, stream_route, explain_route, respond, document, paths, check, status,
  stream, explain,
}

-- The application and the profile that a route names, and the endpoint that it is recorded as.
pub record Target : Type 0 where
  pub application : Text
  pub profile : Text
  pub endpoint : Text

abbrev pub target : Route → Option Target
target (document_route a p) =
    some (record { application = a; profile = p; endpoint = codes "document" })
target (paths_route a p) = some (record { application = a; profile = p; endpoint = codes "paths" })
target (check_route a p) = some (record { application = a; profile = p; endpoint = codes "check" })
target (status_route a p) =
    some (record { application = a; profile = p; endpoint = codes "status" })
target (stream_route a p) =
    some (record { application = a; profile = p; endpoint = codes "stream" })
target (explain_route a p path) =
    some (record { application = a; profile = p; endpoint = codes "explain" })
target _ = none

-- The status codes that go with an outcome.
abbrev pub Tallies : Outcome → ℕ → Type 0
Tallies Outcome.served code = code ≡ 200
Tallies Outcome.unauthenticated code = code ≡ 401
Tallies Outcome.not_found code = code ≡ 404
Tallies Outcome.malformed code = code ≡ 404
Tallies Outcome.unavailable code = (code ≡ 503) ⊎ (code ≡ 500)

module _ {L : Type 0} (server : Server L) (asked : Asked L) (t : Target) where
  pub data Handled : Answer L → Type 0 where
    rejected :
        (who : Option Principal)
        → authenticate server.authenticator asked.authorization ≡ who
        → Handled (refused_as server asked t.application t.profile t.endpoint who)
    handled :
        (admitted : Admitted L)
        → IsGranted server asked t.application t.profile admitted.principal admitted.section
        → admitted.endpoint ≡ t.endpoint
        → (outcome : Outcome) (generation : Option ℕ) (response : Response L) (streams : ℕ)
        → Tallies outcome (status_code response)
        → Handled (record {
          recorded = entry_of server asked admitted outcome generation ∷ [];
          response = response;
          streams = streams;
        })

  or_refused-Handled :
      (r : Result (Answer L) (Admitted L)) (handler : Admitted L → Answer L)
      → Cases server asked t.application t.profile t.endpoint r
      → ((admitted : Admitted L)
          → IsGranted server asked t.application t.profile admitted.principal admitted.section
          → admitted.endpoint ≡ t.endpoint
          → Handled (handler admitted))
      → Handled (or_refused server asked r handler)
  or_refused-Handled (ok a) handler (granted a' g e) h = h a g e
  or_refused-Handled (err answer) handler (refused who q) h = rejected who q

abbrev pub at : Text → Text → Text → Target
at application profile endpoint = record {
  application = application;
  profile = profile;
  endpoint = endpoint;
}

module _ {L : Type 0} (server : Server L) (asked : Asked L) where
  admitted-Handled :
      (a p endpoint : Text) (handler : Admitted L → Answer L)
      → ((admitted : Admitted L)
          → IsGranted server asked a p admitted.principal admitted.section
          → admitted.endpoint ≡ endpoint
          → Handled server asked (at a p endpoint) (handler admitted))
      → Handled server asked
          (at a p endpoint)
          (or_refused server asked (admit server asked a p endpoint) handler)
  admitted-Handled a p endpoint handler h =
      or_refused-Handled server asked (at a p endpoint) (admit server asked a p endpoint) handler
        (admit-Cases server asked a p endpoint) h

  document-Handled :
      (a p : Text) → Handled server asked (at a p (codes "document")) (document server asked a p)
  unfolding document status_code
  document-Handled a p = admitted-Handled a p (codes "document") _ (λ m g e.
      elim (Option-cases (installed asked.between m.section)) [
        | inl q ↦
            rw q (handled m g e Outcome.unavailable none Response.unready server.streams (inl refl))
        | inr (d, q) ↦ rw q (
            handled m g e Outcome.served (some d.0)
              (Response.document_body m.section.application m.section.profile d.0 d.1)
              server.streams refl)
      ])

  paths-Handled :
      (a p : Text) → Handled server asked (at a p (codes "paths")) (paths server asked a p)
  unfolding paths status_code
  paths-Handled a p = admitted-Handled a p (codes "paths") _ (λ m g e.
      elim (Option-cases (installed asked.between m.section)) [
        | inl q ↦
            rw q (handled m g e Outcome.unavailable none Response.unready server.streams (inl refl))
        | inr (d, q) ↦ rw q (handled m g e Outcome.served (some d.0) _ server.streams refl)
      ])

  status-Handled :
      (a p : Text) → Handled server asked (at a p (codes "status")) (status server asked a p)
  unfolding status status_code
  status-Handled a p =
      admitted-Handled a p (codes "status") _
        (λ m g e. handled m g e Outcome.served (some _) _ server.streams refl)

  check-Handled :
      (a p : Text) → Handled server asked (at a p (codes "check")) (check server asked a p)
  unfolding check status_code
  check-Handled a p = admitted-Handled a p (codes "check") _ (λ m g e.
      elim (Result-cases (asked.checked m.section)) [
        | inl (report, q) ↦ rw q (handled m g e Outcome.served (some _) _ server.streams refl)
        | inr (f, q) ↦ rw q (handled m g e Outcome.unavailable none _ server.streams (inr refl))
      ])

  stream-Handled :
      (a p : Text) → Handled server asked (at a p (codes "stream")) (stream server asked a p)
  unfolding stream status_code
  stream-Handled a p = admitted-Handled a p (codes "stream") _ (λ m g e.
      elim (Bool-cases (streams_enabled server.max_streams)) [
        | inr q ↦ rw q (handled m g e Outcome.not_found none Response.not_found server.streams refl)
        | inl q ↦ rw q (elim (Option-cases (open_stream server.max_streams server.streams)) [
          | inl f ↦ rw f (
              handled m g e Outcome.unavailable none Response.at_capacity server.streams (inl refl))
          | inr (n, f) ↦ rw f (handled m g e Outcome.served (some _) _ n refl)
        ])
      ])

  explain-Handled :
      (a p path : Text)
      → Handled server asked (at a p (codes "explain")) (explain server asked a p path)
  unfolding explain status_code
  explain-Handled a p path = admitted-Handled a p (codes "explain") _ (λ m g e.
      elim (Bool-cases (is_key_path path)) [
        | inr q ↦ rw q (handled m g e Outcome.malformed none Response.not_found server.streams refl)
        | inl q ↦ rw q (elim (Result-cases (asked.explained m.section path)) [
          | inl (x, f) ↦ rw f (handled m g e Outcome.served (some _) _ server.streams refl)
          | inr (x, f) ↦ rw f (handled m g e Outcome.unavailable none _ server.streams (inr refl))
        ])
      ])

  -- What `Handled` says of a route, if the route is one of a section.
  abbrev HandledAt : Route → Option Target → Type 0
  HandledAt route none = Unit
  HandledAt route (some t) = Handled server asked t (respond server asked route)

  respond-HandledAt : (route : Route) → HandledAt route (target route)
  unfolding respond
  respond-HandledAt (document_route a p) = document-Handled a p
  respond-HandledAt (paths_route a p) = paths-Handled a p
  respond-HandledAt (check_route a p) = check-Handled a p
  respond-HandledAt (status_route a p) = status-Handled a p
  respond-HandledAt (stream_route a p) = stream-Handled a p
  respond-HandledAt (explain_route a p path) = explain-Handled a p path
  respond-HandledAt healthz_route = tt
  respond-HandledAt readyz_route = tt
  respond-HandledAt metrics_route = tt
  respond-HandledAt other_route = tt

  pub respond-Handled :
      (route : Route) (t : Target)
      → target route ≡ some t
      → Handled server asked t (respond server asked route)
  respond-Handled route t e = subst (HandledAt route) e (respond-HandledAt route)
