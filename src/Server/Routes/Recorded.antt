-- ===== src/Server/Routes/Recorded.antt =====
-- What the audit log has of a request.
use dynamic_config.Prelude.{
  ℕ, Bool, true, false, Option, none, some, [], ◌∷◌, ◌&&◌, ◌≡◌, refl, arith,
}
use dynamic_config.Prelude.Text.{Text}
use dynamic_config.Server.Auth.{Principal, authenticate}
use dynamic_config.Server.Names.{is_name}
use dynamic_config.Server.Sections.{Server, section}
use dynamic_config.Server.Sections.Lookup.{Labelled, find-Labelled}
use dynamic_config.Server.Audit.{AuditEntry}
use dynamic_config.Server.Responses.{Answer, Asked, status_code}
use dynamic_config.Server.Admit.{refuse, entry_of}
use dynamic_config.Server.Admit.Granted.{refused_as, refused_named}
use dynamic_config.Server.Routes.{Route, respond}
use dynamic_config.Server.Routes.Handled.{
  Target, target, Handled, rejected, handled, respond-Handled, Tallies,
}

-- Nothing, or the text itself, which is a valid name.
abbrev pub IsHarmless : Option Text → Text → Type 0
IsHarmless none asked = Unit
IsHarmless (some text) asked = (text ≡ asked) × (is_name text ≡ true)

-- The entry of a request: it names the caller who authenticated, the route's endpoint and outcome,
-- and of the path only valid names.
pub record Describes {L : Type 0} (server : Server L) (asked : Asked L) (t : Target) (code : ℕ)
    (e : AuditEntry) : Type 0 where
  pub caller :
      e.caller
      ≡ elim (authenticate server.authenticator asked.authorization) as (λ _. Option Text) [
        | none ↦ none
        | some principal ↦ some principal.name
      ]
  pub endpoint : e.endpoint ≡ t.endpoint
  pub outcome : Tallies e.outcome code
  pub application : IsHarmless e.application t.application
  pub profile : IsHarmless e.profile t.profile

module _ {L : Type 0} (server : Server L) (asked : Asked L) (t : Target) where
  -- The answer records one entry, and it describes the request.
  abbrev pub RecordsOne : Answer L → Type 0
  RecordsOne a =
      (e : AuditEntry) × (a.recorded ≡ e ∷ []) × Describes server asked t (status_code a.response) e

  refused_as-RecordsOne :
      (who : Option Principal)
      → authenticate server.authenticator asked.authorization ≡ who
      → RecordsOne (refused_as server asked t.application t.profile t.endpoint who)
  unfolding refuse status_code
  refused_as-RecordsOne none q = (
    _,
    refl,
    record { caller = rw q refl; endpoint = refl; outcome = refl; application = tt; profile = tt },
  )
  refused_as-RecordsOne (some principal) q = at (is_name t.application && is_name t.profile) refl
    where
      at :
          (b : Bool)
          → is_name t.application && is_name t.profile ≡ b
          → RecordsOne (refused_named server asked t.application t.profile t.endpoint b principal)
      at false n = (
        _,
        refl,
        record {
          caller = rw q refl;
          endpoint = refl;
          outcome = refl;
          application = tt;
          profile = tt;
        },
      )
      at true n = (
        _,
        refl,
        record {
          caller = rw q refl;
          endpoint = refl;
          outcome = refl;
          application = (refl, ground (arith, n));
          profile = (refl, ground (arith, n));
        },
      )

  Handled-RecordsOne :
      Labelled server.sections
      → (answer : Answer L) → Handled server asked t answer
      → RecordsOne answer
  unfolding section
  Handled-RecordsOne l _ (rejected who q) = refused_as-RecordsOne who q
  Handled-RecordsOne l _ (handled admitted g e outcome generation response streams c) =
      let (a, p) =
        find-Labelled (t.application, t.profile) admitted.section server.sections l g.served in
      (
        entry_of server asked admitted outcome generation,
        refl,
        record {
          caller = let caller = g.caller in rw caller refl;
          endpoint = e;
          outcome = c;
          application = (a, a_name a);
          profile = (p, p_name p);
        },
      )
    where
      a_name :
          admitted.section.application ≡ t.application → is_name admitted.section.application ≡ true
      a_name a = rw a g.named

      p_name : admitted.section.profile ≡ t.profile → is_name admitted.section.profile ≡ true
      p_name p = rw p g.profiled

  -- Where every section stands under its own names, each request for a section is recorded in
  -- exactly one entry. It names the caller as the one who authenticated, has the outcome that the
  -- status code tells, and holds nothing of the request's path that is not a valid name.
  pub respond-RecordsOne :
      (route : Route)
      → target route ≡ some t
      → Labelled server.sections
      → RecordsOne (respond server asked route)
  respond-RecordsOne route e l =
      Handled-RecordsOne l (respond server asked route) (respond-Handled server asked route t e)
