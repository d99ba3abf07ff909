-- ===== src/Server/Routes/Oracle.antt =====
-- A caller learns nothing of an application that it was not granted.
use dynamic_config.Prelude.{
  Bool, true, false, Option, none, some, List, ◌&&◌, ◌≡◌, ◌≢◌, refl, sym, ap, ◌∙◌, arith,
}
use dynamic_config.Prelude.Text.{Text}
use dynamic_config.Server.Auth.{Principal, authenticate, may_read}
use dynamic_config.Server.Names.{is_name}
use dynamic_config.Server.Sections.{Server, Section}
use dynamic_config.Server.Audit.{AuditEntry}
use dynamic_config.Server.Responses.{Answer, Asked, Response, status_code}
use dynamic_config.Server.Admit.{refuse}
use dynamic_config.Server.Admit.Granted.{IsGranted, refused_as, refused_named}
use dynamic_config.Server.Routes.{Route, respond}
use dynamic_config.Server.Routes.Handled.{
  Target, target, Handled, rejected, handled, respond-Handled,
}

-- A caller that may not read the application, or nobody.
abbrev pub IsUngranted : Option Principal → Text → Type 0
IsUngranted none application = Unit
IsUngranted (some principal) application = may_read principal application ≡ false

-- What a caller sees of an answer, with what is recorded.
abbrev pub seen : {L : Type 0} → Answer L → List AuditEntry × Response L
seen a = (a.recorded, a.response)

module _ {L : Type 0} where
  Handled-IsUngranted :
      (server : Server L) (asked : Asked L) (t : Target) (answer : Answer L)
      → Handled server asked t answer
      → IsUngranted (authenticate server.authenticator asked.authorization) t.application
      → answer
        ≡ refused_as server asked t.application t.profile t.endpoint
            (authenticate server.authenticator asked.authorization)
  Handled-IsUngranted server asked t _ (rejected who q) u = rw q refl
  Handled-IsUngranted server asked t _ (handled admitted g e outcome generation response streams c)
        u =
      let caller = g.caller in
      let ungranted : IsUngranted (some admitted.principal) t.application = rw caller at u in
      absurd (ground (arith, g.granted, ungranted))

  seen-refused_as :
      (s r : Server L) (asked heard : Asked L) (a p endpoint : Text) (who : Option Principal)
      → seen (refused_as s asked a p endpoint who) ≡ seen (refused_as r heard a p endpoint who)
  unfolding refuse
  seen-refused_as s r asked heard a p endpoint none = refl
  seen-refused_as s r asked heard a p endpoint (some principal) = at (is_name a && is_name p)
    where
      at :
          (b : Bool)
          → seen (refused_named s asked a p endpoint b principal)
            ≡ seen (refused_named r heard a p endpoint b principal)
      at true = refl
      at false = refl

  -- Two servers with the same clients answer a caller who was not granted the application alike, and
  -- record the same, whatever sections they have, whatever these hold and whatever happens to them
  -- meanwhile: the answer tells nothing of whether the application is served.
  pub respond-hidden :
      (s r : Server L) (asked heard : Asked L) (route : Route) (t : Target)
      → target route ≡ some t
      → s.authenticator ≡ r.authenticator
      → asked.authorization ≡ heard.authorization
      → IsUngranted (authenticate s.authenticator asked.authorization) t.application
      → seen (respond s asked route) ≡ seen (respond r heard route)
  respond-hidden s r asked heard route t e a h u =
      let who = authenticate s.authenticator asked.authorization in
      let same : authenticate r.authenticator heard.authorization ≡ who = rw (a, h) refl in
      let here =
        Handled-IsUngranted s asked t (respond s asked route) (respond-Handled s asked route t e)
          u in
      let there =
        Handled-IsUngranted r heard t (respond r heard route) (respond-Handled r heard route t e)
          (rw same u) in
      ap seen here
      ∙ (seen-refused_as s r asked heard t.application t.profile t.endpoint who
          ∙ sym (
              ap seen there
              ∙ ap (λ w. seen (refused_as r heard t.application t.profile t.endpoint w)) same))

  pub refused_as-code :
      (server : Server L) (asked : Asked L) (a p endpoint : Text) (who : Option Principal)
      → status_code (refused_as server asked a p endpoint who).response ≢ 200
  unfolding refuse status_code
  refused_as-code server asked a p endpoint none = λ e. absurd (omega arith)
  refused_as-code server asked a p endpoint (some principal) = at (is_name a && is_name p)
    where
      at :
          (b : Bool)
          → status_code (refused_named server asked a p endpoint b principal).response ≢ 200
      at true = λ e. absurd (omega arith)
      at false = λ e. absurd (omega arith)

  -- A request for a section that is answered with a 200 comes from a caller who authenticated, who
  -- was granted the application, and asks by valid names for a section that is served.
  pub respond-IsGranted :
      (server : Server L) (asked : Asked L) (route : Route) (t : Target)
      → target route ≡ some t
      → status_code (respond server asked route).response ≡ 200
      → (principal : Principal) × (s : Section L) × IsGranted server asked t.application t.profile
          principal s
  respond-IsGranted server asked route t e c =
      at (respond server asked route) (respond-Handled server asked route t e) c
    where
      at :
          (answer : Answer L)
          → Handled server asked t answer
          → status_code answer.response ≡ 200
          → (principal : Principal) × (s : Section L) × IsGranted server asked t.application
              t.profile principal s
      at _ (rejected who q) c =
          absurd (refused_as-code server asked t.application t.profile t.endpoint who c)
      at _ (handled admitted g e outcome generation response streams k) c =
          (admitted.principal, admitted.section, g)
