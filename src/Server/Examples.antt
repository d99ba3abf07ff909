-- ===== src/Server/Examples.antt =====
-- A server with one section and two clients, and what it answers.
use dynamic_config.Prelude.{
  ℕ, Bool, true, false, Option, none, some, List, [], ◌∷◌, ◌≡◌, ◌≤◌, refl, arith,
}
use dynamic_config.Prelude.Text.{Text, codes, cmp}
use dynamic_config.Prelude.Results.{Result, ok}
use dynamic_config.Tree.{leaf, table, end, entry}
use dynamic_config.Error.{Error}
use dynamic_config.Reload.{initial, manual}
use dynamic_config.Cell
use dynamic_config.Cell.{ConfigCell, store_with}
use dynamic_config.Cell.History.{install}
use dynamic_config.Server.Auth.{Token, Principal, bearer, authenticate, may_read}
use dynamic_config.Server.Auth.Grant.{first_of, authenticate-first_of}
use dynamic_config.Server.Config.{ServerConfig, SectionConfig, ClientConfig, TlsConfig}
use dynamic_config.Server.Sections.{Server, Section, Document, section, start_with}
use dynamic_config.Server.Sections.Start.{principal_of}
use dynamic_config.Server.Sections.Callers.{start_with-authenticate, start_with-serves}
use dynamic_config.Server.Audit.{entry_text, Outcome}
use dynamic_config.Server.Streams.{Generations, poll_all}
use dynamic_config.Server.Streams.Ascending.{Ascends, IsFresh, sent_so_far, poll_all-Ascends}
use dynamic_config.Server.Streams.Ceiling.{
  Request, arriving, holding, Move, moves, held, moves-held,
}
use dynamic_config.Server.Responses.{Asked, document_body, status_code, not_found}
use dynamic_config.Server.Admit.Granted.{IsGranted}
use dynamic_config.Server.Routes.{respond, document_route, paths_route, document}
use dynamic_config.Server.Routes.Handled.{at}
use dynamic_config.Server.Routes.Oracle.{seen, respond-hidden, respond-IsGranted}
use dynamic_config.Server.Routes.Served.{IsServed, document-IsServed}
use dynamic_config.Server.Routes.Recorded.{RecordsOne, respond-RecordsOne}

-- A leaf is a number here.
abbrev shown : Document ℕ
shown = table (entry (codes "port") (leaf 8080) end)

abbrev secret : Token
secret = record { secret = codes "0123456789abcdef0123456789abcdef" }

abbrev reader : ClientConfig
reader = record { name = codes "pod"; token = some secret; applications = codes "billing" ∷ [] }

abbrev passer_by : ClientConfig
passer_by = record { name = codes "anyone"; token = none; applications = [] }

abbrev billing : SectionConfig
billing = record {
  application = codes "billing";
  profile = codes "prod";
  files = codes "billing.toml" ∷ [];
  env_prefix = none;
  whole_document = false;
}

abbrev config : ServerConfig
config = record {
  bind = codes "127.0.0.1:8080";
  insecure = false;
  tls = none;
  allow_anonymous = true;
  watch_debounce_ms = 250;
  max_stream_connections = 2;
  sections = billing ∷ [];
  clients = reader ∷ passer_by ∷ [];
}

-- Every address is a loopback one, and every load gives the document above.
abbrev loopback_of : Text → Option Bool
loopback_of bind = some true

abbrev load_tls : TlsConfig → Result Text (Unit {0})
load_tls tls = ok tt

abbrev first_cell : ConfigCell (Document ℕ)
first_cell = record (Cell.new {T = Document ℕ}) {
  inner = some (record { address = 0; value = shown });
  meta = some (record { generation = 1; loaded_at = 5 });
  last_reason = some initial;
  allocated = 1;
}

first_cell_is_stored : (store_with shown initial 5 (Cell.new {T = Document ℕ})).cell ≡ first_cell
unfolding store_with
first_cell_is_stored = refl

abbrev init : SectionConfig → Result Error (ConfigCell (Document ℕ))
init described = ok first_cell

abbrev watch : SectionConfig → ℕ → Result Text (Unit {0})
watch described debounce = ok tt

abbrev started_section : Section ℕ
started_section = record {
  application = codes "billing";
  profile = codes "prod";
  config = first_cell;
}

abbrev server : Server ℕ
server = record {
  sections = ((codes "billing", codes "prod"), started_section) ∷ [];
  authenticator = record {
    clients = (secret, principal_of reader) ∷ [];
    anonymous = some (principal_of passer_by);
  };
  max_streams = 2;
  streams = 0;
}

server_starts : start_with true loopback_of load_tls init watch config ≡ ok server
unfolding start_with
server_starts = refl

abbrev header : Text
header = codes "Bearer  0123456789abcdef0123456789abcdef"

header_has_token : bearer header ≡ some secret.secret
unfolding bearer
header_has_token = refl

authenticate-first_of_example :
    authenticate server.authenticator (some header) ≡ elim (bearer header) [
      | none ↦ none
      | some presented ↦ first_of presented server.authenticator.clients
    ]
authenticate-first_of_example =
    authenticate-first_of server.authenticator header (omega arith) (omega arith)

start_with-authenticate_example :
    authenticate server.authenticator (some header) ≡ some (principal_of reader)
start_with-authenticate_example =
    start_with-authenticate true loopback_of load_tls init watch config server server_starts []
      reader (passer_by ∷ []) secret header refl refl header_has_token (omega arith) (omega arith)

reader_is_allowed : may_read (principal_of reader) (codes "billing") ≡ true
unfolding may_read cmp
reader_is_allowed = refl

start_with-serves_example :
    (d : SectionConfig) × (cell : ConfigCell (Document ℕ)) × (init d ≡ ok cell)
    × (section server (codes "billing") d.profile
        ≡ some (record { application = codes "billing"; profile = d.profile; config = cell }))
start_with-serves_example =
    start_with-serves true loopback_of load_tls init watch config server server_starts [] reader
      (passer_by ∷ []) (codes "billing") refl reader_is_allowed

-- The reader asks, and another install lands while it is answered.
abbrev asked : Asked ℕ
asked = record {
  authorization = some header;
  last_event_id = none;
  checked = λ s.
      ok
        (record { key = []; resolved = []; unknown = []; unknown_checked = false; failure = none });
  explained = λ s path. ok (record { path = path; rows = [] });
  between = install (leaf 7) manual 9 ∷ [];
  now = 10;
}

-- The same caller without a token.
abbrev asked_by_anyone : Asked ℕ
asked_by_anyone = record asked { authorization = none }

-- A server that serves nothing, to the same clients.
abbrev empty_server : Server ℕ
empty_server = record server { sections = [] }

document_is_served :
    (document server asked (codes "billing") (codes "prod")).response
    ≡ document_body (codes "billing") (codes "prod") 1 (leaf 7)
unfolding document Cell.load store_with
document_is_served = refl

document_is_ok :
    status_code (respond server asked (document_route (codes "billing") (codes "prod"))).response
    ≡ 200
unfolding respond status_code Cell.load store_with
document_is_ok = refl

anyone_is_refused :
    (respond server asked_by_anyone (document_route (codes "billing") (codes "prod"))).response
    ≡ not_found
unfolding respond
anyone_is_refused = refl

anyone_may_not : may_read (principal_of passer_by) (codes "billing") ≡ false
unfolding may_read
anyone_may_not = refl

anyone_is_known : authenticate server.authenticator none ≡ some (principal_of passer_by)
unfolding authenticate
anyone_is_known = refl

respond-hidden_example :
    seen (respond server asked_by_anyone (document_route (codes "billing") (codes "prod")))
    ≡ seen (respond empty_server asked_by_anyone (document_route (codes "billing") (codes "prod")))
respond-hidden_example =
    respond-hidden server empty_server asked_by_anyone asked_by_anyone
      (document_route (codes "billing") (codes "prod"))
      (at (codes "billing") (codes "prod") (codes "document")) refl refl refl
      (rw anyone_is_known anyone_may_not)

respond-IsGranted_example :
    (principal : Principal) × (s : Section ℕ) × IsGranted server asked
      (codes "billing")
      (codes "prod")
      principal
      s
respond-IsGranted_example =
    respond-IsGranted server asked (document_route (codes "billing") (codes "prod"))
      (at (codes "billing") (codes "prod") (codes "document")) refl document_is_ok

document-IsServed_example :
    (principal : Principal) × (s : Section ℕ) × IsServed server asked
      (codes "billing")
      (codes "prod")
      1
      (leaf 7)
      principal
      s
document-IsServed_example =
    document-IsServed server asked (codes "billing") (codes "prod") (codes "billing") (codes "prod")
      1 (leaf 7) document_is_served

respond-RecordsOne_example :
    RecordsOne server asked
      (at (codes "billing") (codes "prod") (codes "paths"))
      (respond server asked (paths_route (codes "billing") (codes "prod")))
respond-RecordsOne_example =
    respond-RecordsOne server asked (at (codes "billing") (codes "prod") (codes "paths"))
      (paths_route (codes "billing") (codes "prod")) refl (refl, refl, tt)

-- The line of the test in audit.rs.
line :
    entry_text (record {
      caller = some (codes "billing-pod");
      application = some (codes "billing");
      profile = some (codes "prod");
      endpoint = codes "document";
      outcome = Outcome.served;
      generation = some 3;
    })
    ≡ codes
        "audit caller=billing-pod application=billing profile=prod endpoint=document outcome=served generation=3"
unfolding entry_text
line = refl

-- A client that resumes from 3, and is polled three times.
abbrev resumed : Generations
resumed = record { application = []; profile = []; sent = none; resume = some 3 }

resumed_sends :
    (poll_all ((0 ∷ 3 ∷ []) ∷ (3 ∷ 5 ∷ []) ∷ (5 ∷ 4 ∷ 7 ∷ []) ∷ []) resumed).1 ≡ 5 ∷ 7 ∷ []
unfolding poll_all
resumed_sends = refl

poll_all-Ascends_example :
    Ascends
      (sent_so_far resumed)
      (poll_all ((0 ∷ 3 ∷ []) ∷ (3 ∷ 5 ∷ []) ∷ (5 ∷ 4 ∷ 7 ∷ []) ∷ []) resumed).1
    × IsFresh resumed (poll_all ((0 ∷ 3 ∷ []) ∷ (3 ∷ 5 ∷ []) ∷ (5 ∷ 4 ∷ 7 ∷ []) ∷ []) resumed).1
poll_all-Ascends_example =
    poll_all-Ascends ((0 ∷ 3 ∷ []) ∷ (3 ∷ 5 ∷ []) ∷ (5 ∷ 4 ∷ 7 ∷ []) ∷ []) resumed

-- Two requests for the one place: the second's exchange fails.
abbrev racing : List Move
racing =
    record { request = 0; spurious = false }
    ∷ record { request = 1; spurious = false }
    ∷ record { request = 0; spurious = false }
    ∷ record { request = 1; spurious = false }
    ∷ record { request = 1; spurious = false }
    ∷ []

one_is_refused : moves 1 racing (arriving ∷ arriving ∷ []) 0 ≡ (holding ∷ Request.refused ∷ [], 1)
unfolding moves
one_is_refused = refl

moves-held_example :
    ((moves 1 racing (arriving ∷ arriving ∷ []) 0).1
      ≡ held (moves 1 racing (arriving ∷ arriving ∷ []) 0).0)
    × ((moves 1 racing (arriving ∷ arriving ∷ []) 0).1 ≤ 1)
moves-held_example =
    moves-held 1 racing (arriving ∷ arriving ∷ []) 0 (omega arith) refl (omega arith)
