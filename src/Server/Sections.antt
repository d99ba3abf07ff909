-- ===== src/Server/Sections.antt =====
-- dynamic-config-server/src/server.rs: the served sections, what is read of them, and how a server
-- starts.
pub mod Lookup
pub mod Start
pub mod Callers
use dynamic_config.Prelude.{
  ℕ, Bool, true, false, Option, none, some, List, [], ◌∷◌, ◌++◌, ◌&&◌, ltb, is_some, if◌then◌else◌,
  lt, eq, gt, ◌==◌, Ordering,
}
use dynamic_config.Prelude.Text.{Text, cmp}
use dynamic_config.Prelude.Results.{Result, ok, err, ◌>>=◌}
use dynamic_config.Tree.{Tree}
use dynamic_config.Error.{Error}
use dynamic_config.Reload.{ConfigStatus, is_healthy}
use dynamic_config.Cell
use dynamic_config.Cell.{ConfigCell}
use dynamic_config.Cell.History.{Op, run}
use dynamic_config.Server.Auth.{Token, Principal, Authenticator}
use dynamic_config.Server.Config.{
  ServerConfig, SectionConfig, ClientConfig, TlsConfig, Refusal, validate, unparsable_bind,
}

-- `struct Document`, over what stands at a leaf.
abbrev pub Document : Type 0 → Type 0
Document L = Tree L

-- `struct Section`, with the cell of its configuration.
pub record Section (L : Type 0) : Type 0 where
  pub application : Text
  pub profile : Text
  pub config : ConfigCell (Document L)

-- The order of the keys of `sections`, pairs of texts.
unfoldable pub cmp_pair : Text × Text → Text × Text → Ordering
cmp_pair (a, p) (b, q) = elim (cmp a b) [ lt ↦ lt | eq ↦ cmp p q | gt ↦ gt ]

-- `struct Server`: the sections by key, with the ceiling on open streams and how many are open.
pub record Server (L : Type 0) : Type 0 where
  pub sections : List ((Text × Text) × Section L)
  pub authenticator : Authenticator
  pub max_streams : ℕ
  pub streams : ℕ

-- `enum StartupError`
pub data StartupError : Type 0 where
  refused : Refusal → StartupError
  section_error : (application profile : Text) → Error → StartupError
  watch_error : (application profile : Text) → Text → StartupError
  tls_error : Text → StartupError

module _ {L : Type 0} where
  -- `Section::current`
  unfoldable pub current : Section L → Option (Document L)
  current s = elim (Cell.load s.config) [ none ↦ none | some it ↦ some it.value ]

  -- `Section::installed`: the generation is read, others install in `between`, then the document is
  -- read.
  unfoldable pub installed : List (Op (Document L)) → Section L → Option (ℕ × Document L)
  unfolding current run
  installed between s =
      let generation = Cell.generation s.config in
      elim (current (record s { config = run between s.config })) [
        | none ↦ none
        | some document ↦ some (generation, document)
      ]

  -- `Section::is_ready`
  unfoldable pub section_ready : Section L → Bool
  unfolding current is_healthy Cell.status
  section_ready s = is_some (current s) && is_healthy (Cell.status s.config)

  -- `BTreeMap::get`
  unfoldable pub find : Text × Text → List ((Text × Text) × Section L) → Option (Section L)
  unfolding cmp_pair cmp
  find k [] = none
  find k ((j, s) ∷ rest) = elim (cmp_pair k j) [ eq ↦ some s | _ ↦ find k rest ]

  -- `BTreeMap::insert`
  unfoldable pub insert :
      Text × Text → Section L → List ((Text × Text) × Section L) → List ((Text × Text) × Section L)
  unfolding cmp_pair cmp
  insert k s [] = (k, s) ∷ []
  insert k s ((j, t) ∷ rest) = elim (cmp_pair k j) [
    | lt ↦ (k, s) ∷ (j, t) ∷ rest
    | eq ↦ (k, s) ∷ rest
    | gt ↦ (j, t) ∷ insert k s rest
  ]

  -- `Server::section`
  unfoldable pub section : Server L → Text → Text → Option (Section L)
  unfolding find
  section server application profile = find (application, profile) server.sections

  all_ready : List ((Text × Text) × Section L) → Bool
  all_ready [] = true
  all_ready ((k, s) ∷ rest) = section_ready s && all_ready rest

  -- `Server::is_ready`
  unfoldable pub is_ready : Server L → Bool
  unfolding all_ready section_ready
  is_ready server = all_ready server.sections

-- The loop of `start_with` over the clients, which leaves their tokens in order and the last client
-- without one.
unfoldable pub enrol :
    List (Token × Principal)
    → Option Principal
    → List ClientConfig
    → List (Token × Principal) × Option Principal
enrol clients anonymous [] = (clients, anonymous)
enrol clients anonymous (client ∷ rest) =
    let principal : Principal = record { name = client.name; applications = client.applications } in
    enrol (elim client.token [ none ↦ clients | some token ↦ clients ++ ((token, principal) ∷ []) ])
      (elim client.token [ none ↦ some principal | some token ↦ anonymous ]) rest

-- What starting a server calls: `init` is the first load of a section and `watch` says whether its
-- watch starts; `load_tls` reads the certificate and the key.
module _ {L : Type 0} (with_tls : Bool) (loopback_of : Text → Option Bool)
    (load_tls : TlsConfig → Result Text (Unit {0}))
    (init : SectionConfig → Result Error (ConfigCell (Document L)))
    (watch : SectionConfig → ℕ → Result Text (Unit {0})) where
  -- `config.init()`
  unfoldable initialised : SectionConfig → Result StartupError (ConfigCell (Document L))
  initialised described = elim (init described) [
    | ok config ↦ ok config
    | err e ↦ err (section_error described.application described.profile e)
  ]

  -- `config.watch(debounce)`, unless watching is turned off.
  unfoldable watched : SectionConfig → ℕ → Result StartupError (Unit {0})
  watched described debounce = if debounce == 0 then ok tt else elim (watch described debounce) [
    | ok u ↦ ok tt
    | err e ↦ err (watch_error described.application described.profile e)
  ]

  -- `load_section`
  unfoldable pub load_section : SectionConfig → ℕ → Result StartupError (Section L)
  unfolding initialised watched
  load_section described debounce = do
    config ← initialised described
    u ← watched described debounce
    ok (record {
      application = described.application;
      profile = described.profile;
      config = config;
    })

  -- The loop of `start_with` over the sections.
  unfoldable pub load_sections :
      ℕ
      → List ((Text × Text) × Section L)
      → List SectionConfig
      → Result StartupError (List ((Text × Text) × Section L))
  unfolding load_section insert
  load_sections debounce loaded [] = ok loaded
  load_sections debounce loaded (described ∷ rest) = do
    s ← load_section described debounce
    load_sections debounce (insert (described.application, described.profile) s loaded) rest

  -- `config.validate()?`
  unfoldable pub checked : ServerConfig → Result StartupError (Unit {0})
  unfolding validate
  checked config = elim (validate with_tls loopback_of config) [
    | ok u ↦ ok tt
    | err e ↦ err (refused e)
  ]

  -- `config.address()?`
  unfoldable pub address : ServerConfig → Result StartupError (Unit {0})
  address config = elim (loopback_of config.bind) [
    | none ↦ err (refused (unparsable_bind config.bind))
    | some loopback ↦ ok tt
  ]

  -- `config.tls.as_ref().map(Tls::load).transpose()`
  unfoldable pub loaded_tls : ServerConfig → Result StartupError (Unit {0})
  loaded_tls config = elim config.tls [
    | none ↦ ok tt
    | some tls ↦ elim (load_tls tls) [ ok u ↦ ok tt | err e ↦ err (tls_error e) ]
  ]

  -- `Server::start_with`
  unfoldable pub start_with : ServerConfig → Result StartupError (Server L)
  unfolding load_sections enrol checked address loaded_tls
  start_with config = do
    a ← checked config
    b ← address config
    c ← loaded_tls config
    sections ← load_sections config.watch_debounce_ms [] config.sections
    let enrolled = enrol [] none config.clients
    ok (record {
      sections = sections;
      authenticator = record { clients = enrolled.0; anonymous = enrolled.1 };
      max_streams = config.max_stream_connections;
      streams = 0;
    })
