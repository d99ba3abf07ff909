-- ===== src/Server/Admit/Granted.antt =====
-- What an admission shows of the caller, and what a refusal answers.
use dynamic_config.Prelude.{Bool, true, false, Option, none, some, ◌&&◌, ◌≡◌, refl, arith}
use dynamic_config.Prelude.Text.{Text}
use dynamic_config.Prelude.Results.{Result, ok, err}
use dynamic_config.Server.Auth.{Principal, authenticate, may_read}
use dynamic_config.Server.Names.{is_name}
use dynamic_config.Server.Sections.{Section, Server, section}
use dynamic_config.Server.Audit.{Outcome}
use dynamic_config.Server.Responses.{Answer, Admitted, Asked}
use dynamic_config.Server.Admit.{refuse, admit}

-- A caller who was let in: who it is, that it may read the application, and which section it reads.
pub record IsGranted {L : Type 0} (server : Server L) (asked : Asked L) (application profile : Text)
    (principal : Principal) (s : Section L) : Type 0 where
  pub caller : authenticate server.authenticator asked.authorization ≡ some principal
  pub named : is_name application ≡ true
  pub profiled : is_name profile ≡ true
  pub granted : may_read principal application ≡ true
  pub served : section server application profile ≡ some s

module _ {L : Type 0} (server : Server L) (asked : Asked L)
    (application profile endpoint : Text) where
  -- The refusals, by who is calling and whether it may read the application.
  abbrev pub refused_named : Bool → Principal → Answer L
  refused_named true principal =
      refuse server asked endpoint Outcome.not_found (some principal.name)
        (some (application, profile))
  refused_named false principal =
      refuse server asked endpoint Outcome.malformed (some principal.name) none

  abbrev pub refused_as : Option Principal → Answer L
  refused_as none = refuse server asked endpoint Outcome.unauthenticated none none
  refused_as (some principal) = refused_named (is_name application && is_name profile) principal

  -- The two answers of an admission.
  pub data Cases : Result (Answer L) (Admitted L) → Type 0 where
    granted :
        (admitted : Admitted L)
        → IsGranted server asked application profile admitted.principal admitted.section
        → admitted.endpoint ≡ endpoint
        → Cases (ok admitted)
    refused :
        (who : Option Principal)
        → authenticate server.authenticator asked.authorization ≡ who
        → Cases (err (refused_as who))

  pub admit-Cases : Cases (admit server asked application profile endpoint)
  unfolding admit
  admit-Cases =
      at (authenticate server.authenticator asked.authorization) refl (is_name application) refl
        (is_name profile) refl
    where
      found :
          (principal : Principal)
          → authenticate server.authenticator asked.authorization ≡ some principal
          → is_name application ≡ true
          → is_name profile ≡ true
          → (g : Bool) → may_read principal application ≡ g
          → (o : Option (Section L)) → section server application profile ≡ o
          → Cases (admit server asked application profile endpoint)
      found principal q a p false g o e =
          let shape : admit server asked application profile endpoint
              ≡ err (refused_as (some principal)) =
            ground (arith, q, a, p, g) in
          rw shape (refused (some principal) q)
      found principal q a p true g none e =
          let shape : admit server asked application profile endpoint
              ≡ err (refused_as (some principal)) =
            ground (arith, q, a, p, g, e) in
          rw shape (refused (some principal) q)
      found principal q a p true g (some s) e =
          let admitted : Admitted L = record {
            principal = principal;
            section = s;
            endpoint = endpoint;
          } in
          let shape : admit server asked application profile endpoint ≡ ok admitted =
            ground (arith, q, a, p, g, e) in
          rw shape (
            granted admitted
              (record { caller = q; named = a; profiled = p; granted = g; served = e }) refl)

      malformed :
          (principal : Principal)
          → authenticate server.authenticator asked.authorization ≡ some principal
          → is_name application && is_name profile ≡ false
          → Cases (admit server asked application profile endpoint)
      malformed principal q n =
          let shape : admit server asked application profile endpoint
              ≡ err (refused_as (some principal)) =
            ground (arith, q, n) in
          rw shape (refused (some principal) q)

      at :
          (who : Option Principal)
          → authenticate server.authenticator asked.authorization ≡ who
          → (a : Bool) → is_name application ≡ a
          → (p : Bool) → is_name profile ≡ p
          → Cases (admit server asked application profile endpoint)
      at none q a n p m =
          let shape : admit server asked application profile endpoint ≡ err (refused_as none) =
            ground (arith, q) in
          rw shape (refused none q)
      at (some principal) q false n p m = malformed principal q (ground (arith, n))
      at (some principal) q true n false m = malformed principal q (ground (arith, n, m))
      at (some principal) q true n true m =
          found principal q n m (may_read principal application) refl
            (section server application profile) refl
