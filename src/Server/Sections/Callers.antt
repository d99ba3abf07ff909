-- ===== src/Server/Sections/Callers.antt =====
-- A server that started knows each client by its token and serves each grant.
use dynamic_config.Prelude.{
  ℕ, Bool, true, false, Option, none, some, List, [], ◌∷◌, ◌++◌, ◌≡◌, ◌⊎◌, refl, sym, ap, ◌∙◌,
  arith, Bool-cases, inl, inr, All, subst,
}
use dynamic_config.Prelude.Text.{Text, text_eq, text_eq_iff}
use dynamic_config.Prelude.Utf8.{IsChar}
use dynamic_config.Prelude.Results.{Result, ok}
use dynamic_config.Error.{Error}
use dynamic_config.Cell.{ConfigCell}
use dynamic_config.Server.Auth.{Token, Principal, authenticate, bearer, may_read}
use dynamic_config.Server.Auth.Grant.{authenticate-first_of}
use dynamic_config.Server.Config.{ServerConfig, SectionConfig, ClientConfig, TlsConfig, serves}
use dynamic_config.Server.Config.Valid.{check_clients-alone, check_clients-at, check_grants-serves}
use dynamic_config.Server.Sections.{Server, Document, start_with, section}
use dynamic_config.Server.Sections.Lookup.{load_sections-at, load_sections-Labelled, Labelled}
use dynamic_config.Server.Sections.Start.{
  start_with-Started, Started, principal_of, TokensAreChars, tokens_of-IsChar, first_of-tokens_of,
  tokens_of, enrol-alone,
}

-- A section with the application stands among the sections.
serves-at :
    (application : Text) (sections : List SectionConfig)
    → serves application sections ≡ true
    → (before after : List SectionConfig) × (d : SectionConfig) × (sections ≡ before ++ (d ∷ after))
      × (d.application ≡ application)
unfolding serves
serves-at application [] h = absurd (cc)
serves-at application (d ∷ rest) h =
    at (Bool-cases (text_eq d.application application)) (serves-at application rest)
  where
    at :
        (text_eq d.application application ≡ true) ⊎ (text_eq d.application application ≡ false)
        → (serves application rest ≡ true
            → (before after : List SectionConfig) × (e : SectionConfig) × (rest
                ≡ before ++ (e ∷ after))
              × (e.application ≡ application))
        → (before after : List SectionConfig) × (e : SectionConfig) × (d ∷ rest
            ≡ before ++ (e ∷ after))
          × (e.application ≡ application)
    at (inl same) ih = ([], rest, d, refl, (text_eq_iff d.application application).0 same)
    at (inr other) ih =
        let (before, after, e, q, r) = ih (ground (arith, h, other)) in
        (d ∷ before, after, e, ap (λ t. d ∷ t) q, r)

module _ {L : Type 0} (with_tls : Bool) (loopback_of : Text → Option Bool)
    (load_tls : TlsConfig → Result Text (Unit {0}))
    (init : SectionConfig → Result Error (ConfigCell (Document L)))
    (watch : SectionConfig → ℕ → Result Text (Unit {0})) (config : ServerConfig) (server : Server L)
    (started : start_with with_tls loopback_of load_tls init watch config ≡ ok server) where
  facts : Started with_tls loopback_of load_tls init watch config server
  facts = start_with-Started with_tls loopback_of load_tls init watch config server started

  -- On a server that started, a header whose bearer token is that of a configured client
  -- authenticates as this client, with its name and grants. The header and the tokens are Unicode
  -- texts.
  pub start_with-authenticate :
      (before : List ClientConfig) (client : ClientConfig) (after : List ClientConfig)
      (token : Token) (header : Text)
      → config.clients ≡ before ++ (client ∷ after)
      → client.token ≡ some token
      → bearer header ≡ some token.secret
      → All IsChar header
      → TokensAreChars config.clients
      → authenticate server.authenticator (some header) ≡ some (principal_of client)
  start_with-authenticate before client after token header e t b a cs =
      let known : server.authenticator.clients ≡ tokens_of config.clients = facts.clients in
      let chars =
        subst (All (λ (c : Token × Principal). All IsChar c.0.secret)) (sym known)
          (tokens_of-IsChar config.clients cs) in
      let plain = authenticate-first_of server.authenticator header a chars in
      let tokens = facts.passed.tokens in
      let first = first_of-tokens_of before client after token (rw e at tokens) t in
      rw plain (rw (b, known, e) first)

  -- On a server that started, a request without an `Authorization` header is the configured client
  -- that has no token, and such a client is there only if the configuration allows it.
  start_with-anonymous :
      (before : List ClientConfig) (client : ClientConfig) (after : List ClientConfig)
      → config.clients ≡ before ++ (client ∷ after)
      → client.token ≡ none
      → (authenticate server.authenticator none ≡ some (principal_of client))
        × (config.allow_anonymous ≡ true)
  unfolding authenticate
  start_with-anonymous before client after e t =
      let clients = facts.passed.clients in
      let at_client = rw e at clients in
      let rest =
        check_clients-alone config.allow_anonymous config.sections [] 0 before client after
          at_client t in
      let last = enrol-alone [] none before client after rest t in
      let both =
        check_clients-at config.allow_anonymous config.sections [] 0 before client after
          at_client in
      (facts.anonymous ∙ rw e last, both.1 t)

  -- On a server that started, every application that a configured client may read is served: there
  -- is a section under it, which holds the cell of the first load.
  pub start_with-serves :
      (before : List ClientConfig) (client : ClientConfig) (after : List ClientConfig)
      (application : Text)
      → config.clients ≡ before ++ (client ∷ after)
      → may_read (principal_of client) application ≡ true
      → (d : SectionConfig) × (cell : ConfigCell (Document L)) × (init d ≡ ok cell)
        × (section server application d.profile
            ≡ some (record { application = application; profile = d.profile; config = cell }))
  unfolding may_read section
  start_with-serves before client after application e g =
      let clients = facts.passed.clients in
      let both =
        check_clients-at config.allow_anonymous config.sections [] 0 before client after
          (rw e at clients) in
      let named =
        check_grants-serves config.sections client.name application client.applications both.0 g in
      let (front, back, d, q, r) = serves-at application config.sections named in
      let checked = facts.passed.sections in
      let loaded = facts.loaded in
      let (cell, loads, found) =
        load_sections-at with_tls loopback_of load_tls init watch config.watch_debounce_ms [] []
          server.sections front d back (rw q at checked) (rw q at loaded) in
      (d, cell, loads, rw r at found)

  -- On a server that started, every section stands under its own application and profile.
  pub start_with-Labelled : Labelled server.sections
  start_with-Labelled =
      load_sections-Labelled with_tls loopback_of load_tls init watch config.watch_debounce_ms []
        server.sections config.sections tt facts.loaded
