-- ===== src/Server/Routes/Served.antt =====
-- Which document, under which generation, a caller is served.
use dynamic_config.Prelude.{ℕ, Option, none, some, List, [], ◌∷◌, ◌+◌, ◌≡◌, refl, ap, ◌∙◌, arith}
use dynamic_config.Prelude.Text.{Text, codes}
use dynamic_config.Prelude.Results.{Result, ok, err}
use dynamic_config.Cell
use dynamic_config.Cell.History.{Op, run, installs, visible, last_installed, run-generation}
use dynamic_config.Server.Auth.{Principal}
use dynamic_config.Server.Sections.{Server, Section, Document, installed, current}
use dynamic_config.Server.Responses.{Answer, Admitted, Asked, document_body, status_code}
use dynamic_config.Server.Admit.{admit, unready_answer}
use dynamic_config.Server.Audit.{Outcome}
use dynamic_config.Server.Admit.Granted.{
  IsGranted, Cases, granted, refused, refused_as, admit-Cases,
}
use dynamic_config.Server.Routes.{document}
use dynamic_config.Server.Routes.Oracle.{refused_as-code}

module _ {L : Type 0} where
  -- What `installed` gives: the generation as it was before the others' steps, and the document
  -- that was installed last after them.
  pub installed_lem :
      (between : List (Op (Document L))) (s : Section L) (generation : ℕ) (d : Document L)
      → installed between s ≡ some (generation, d)
      → (generation ≡ Cell.generation s.config)
        × (last_installed (visible s.config) between ≡ some d)
  unfolding installed current
  installed_lem between s generation d h = at (Cell.load (run between s.config)) refl
    where
      at :
          (o : Option (Cell.Shared (Document L)))
          → Cell.load (run between s.config) ≡ o
          → (generation ≡ Cell.generation s.config)
            × (last_installed (visible s.config) between ≡ some d)
      at none q = absurd (ground (arith, h, q))
      at (some it) q =
          let (counted, seen) = run-generation between s.config in
          (ground (arith, h, q), ground (arith, h, q, seen))

  -- What a caller who gets a document gets: it was granted the application, the document is the one
  -- installed last when it was read, the generation is that of before the read, so that it lags by
  -- the installs in between and never leads, and the log has the entry of this generation.
  pub record IsServed (server : Server L) (asked : Asked L) (a p : Text) (generation : ℕ)
      (config : Document L) (principal : Principal) (s : Section L) : Type 0 where
    pub granted : IsGranted server asked a p principal s
    pub current : last_installed (visible s.config) asked.between ≡ some config
    pub lags : generation + installs asked.between ≡ Cell.generation (run asked.between s.config)
    pub recorded :
        (document server asked a p).recorded
        ≡ record {
          caller = some principal.name;
          application = some s.application;
          profile = some s.profile;
          endpoint = codes "document";
          outcome = Outcome.served;
          generation = some generation;
        }
          ∷ []

  -- A response with a document answers a caller who authenticated, was granted the application and
  -- asks for a section that is served. The document is the one that was installed last when it was
  -- read; the generation with it counts the installs before the read, less those that others made
  -- while the request was handled, so it never leads; and one entry records it.
  pub document-IsServed :
      (server : Server L) (asked : Asked L) (a p application profile : Text) (generation : ℕ)
      (config : Document L)
      → (document server asked a p).response ≡ document_body application profile generation config
      → (principal : Principal) × (s : Section L) × IsServed server asked a p generation config
          principal s
  unfolding document unready_answer status_code
  document-IsServed server asked a p application profile generation config h =
      at (admit server asked a p (codes "document"))
        (admit-Cases server asked a p (codes "document")) refl
    where
      none_served :
          (who : Option Principal)
          → (refused_as server asked a p (codes "document") who).response
            ≡ document_body application profile generation config
          → ⊥
      none_served who e = refused_as-code server asked a p (codes "document") who (ap status_code e)

      at :
          (r : Result (Answer L) (Admitted L))
          → Cases server asked a p (codes "document") r
          → admit server asked a p (codes "document") ≡ r
          → (principal : Principal) × (s : Section L) × IsServed server asked a p generation config
              principal s
      at (err _) (refused who q) e = absurd (none_served who (ground (arith, h, e)))
      at (ok m) (granted _ g f) e = found (installed asked.between m.section) refl
        where
          found :
              (o : Option (ℕ × Document L))
              → installed asked.between m.section ≡ o
              → (principal : Principal) × (s : Section L) × IsServed server asked a p generation
                  config principal s
          found none q = absurd (ground (arith, h, e, q))
          found (some (n, d)) q =
              let (before, last) = installed_lem asked.between m.section n d q in
              let (counted, seen) = run-generation asked.between m.section.config in
              let same_n : n ≡ generation = ground (arith, h, e, q) in
              let same_d : d ≡ config = ground (arith, h, e, q) in
              (
                m.principal,
                m.section,
                record {
                  granted = g;
                  current = last ∙ ap some same_d;
                  lags = omega (arith, counted, before, same_n);
                  recorded = ground (arith, e, q, f, same_n);
                },
              )
