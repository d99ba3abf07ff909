-- ===== src/Loader/Origin/Examples.antt =====
-- Origins at concrete failures.
use dynamic_config.Prelude.{All}
use dynamic_config.Prelude.{Bool, true, false, none, some, List, [], ◌∷◌, ◌++◌, ◌≡◌, refl, arith}
use dynamic_config.Prelude.Text.{Text, codes, cmp, split, text_eq}
use dynamic_config.Prelude.Str.{is_ascii_digit, is_whitespace}
use dynamic_config.Error.{Origin, display, origin_text, dotted_path}
use dynamic_config.Figment.Provided.{Actual, FailureKind, Failure, Metadata, named}
use dynamic_config.Prelude.Results.{ok}
use dynamic_config.Prelude.Paths
use dynamic_config.Prelude.Paths.{FilePath}
use dynamic_config.Tree.{leaf}
use dynamic_config.Figment.{Datum}
use dynamic_config.Layer.{Layer}
use dynamic_config.Bindings.{BindingProvider}
use dynamic_config.Remote.{Format}
use dynamic_config.Source
use dynamic_config.Source.{LoadSpec}
use dynamic_config.Dotenv.Provider.{provider_of}
use dynamic_config.Loader.Outside.{World, missing}
use dynamic_config.Loader.Sections.{renamed}
use dynamic_config.Loader.Secrets.{secret}
use dynamic_config.Loader.Layers.{
  layer_provider, binding_provider, defaults_name, overrides_name, flags_name,
}
use dynamic_config.Source.{Store}
use dynamic_config.Figment.Provided.{Provided}
use dynamic_config.Loader.{layer_of, has_document, has_bindings}
use dynamic_config.Loader.Outside.{done, section_profile}
use dynamic_config.Loader.Sections.{sectioned}
use dynamic_config.Loader.Environment.{merge_env_files}
use dynamic_config.Loader.Secrets.{merge_secrets_dir}
use dynamic_config.Loader.Layers.{
  merge_layer, merge_remote, merge_bindings, has_entries, providers_of, store_name,
}
use dynamic_config.Source.{full_env_prefix}
use dynamic_config.Loader.Origin.Named.{IsFrom, IsOneOf}
use dynamic_config.Loader.Origin.Traced.{layers-AreTraced}
use dynamic_config.Loader.Origin.{without_quoted_source, env_prefix, convert, refine_env, origin_of}
use dynamic_config.Loader.Origin.Redacted.{on_value, convert-mismatch}
use dynamic_config.Loader.Origin.Excerpt.{excerpt, convert-excerpt}

abbrev in_environment : Text → Bool
in_environment name = text_eq name (codes "APP_DB_PORT")

abbrev of_environment : Metadata
of_environment = named (codes "`APP_DB_` environment variable(s)")

abbrev port : List Text
port = codes "port" ∷ []

-- What is printed names the variable and not its value.
port_is_text :
    display (
      convert in_environment (codes "__") (
        on_value true
          (Actual.str (codes "hunter2"))
          (codes "u16")
          (codes "invalid type: found string \"hunter2\", expected u16")
          port
          (some of_environment)))
    ≡ codes "port: invalid type: found a string, expected u16 (from APP_DB_PORT)"
unfolding display origin_text dotted_path convert refine_env origin_of env_prefix cmp split
port_is_text = refl

convert-mismatch_example :
    convert in_environment (codes "__") (
      on_value true
        (Actual.str (codes "hunter2"))
        (codes "u16")
        (codes "found string \"hunter2\"")
        port
        (some of_environment))
    ≡ convert in_environment (codes "__") (
        on_value true
          (Actual.str (codes "swordfish"))
          (codes "u16")
          (codes "found string \"swordfish\"")
          port
          (some of_environment))
convert-mismatch_example =
    convert-mismatch in_environment (codes "__") true (Actual.str (codes "hunter2"))
      (Actual.str (codes "swordfish")) (codes "u16") (codes "found string \"hunter2\"")
      (codes "found string \"swordfish\"") port (some of_environment) refl

-- The rendering of a syntax error that the tests of the code keep.
quoted_line :
    without_quoted_source (
      codes
        "TOML parse error at line 2, column 25\n  |\n2 | password = \"hunter2\n  |    ^\ninvalid basic string\n")
    ≡ codes "TOML parse error at line 2, column 25\ninvalid basic string"
unfolding without_quoted_source cmp split
quoted_line = refl

prefix_of_environment : env_prefix (codes "`APP_DB_` environment variable(s)") ≡ codes "APP_DB_*"
unfolding env_prefix cmp
prefix_of_environment = refl

abbrev unreadable : Failure
unreadable = record {
  kind = FailureKind.message (codes "TOML parse error");
  path = [];
  metadata = none;
  rendered = [];
}

convert-excerpt_example :
    convert in_environment (codes "__") (record unreadable {
      rendered =
          codes "line 2"
          ++ (b'\n'
              ∷ (excerpt [] (codes "2") (codes " ") (codes " pw")
                  ++ (b'\n' ∷ codes "invalid basic string")));
    })
    ≡ convert in_environment
        (codes "__")
        (record unreadable { rendered = codes "line 2" ++ (b'\n' ∷ codes "invalid basic string") })
unfolding is_ascii_digit is_whitespace
convert-excerpt_example =
    convert-excerpt in_environment (codes "__") unreadable (codes "line 2")
      (codes "invalid basic string") [] (codes "2") (codes " ") (codes " pw") tt (refl, tt)
      (refl, tt)
      (omega arith, (omega arith, (omega arith, (omega arith, (omega arith, (omega arith, tt))))))

-- Nothing is outside but an environment without variables.
abbrev bare : World
bare = record {
  environment = λ name. none;
  variables = [];
  is_file = λ path. false;
  document = λ path format. record { metadata = named []; documents = ok [] };
  parsed = λ text format. record { metadata = named []; documents = ok [] };
  ciphertext = λ path. missing [];
  decrypt = λ bytes name. ok bytes;
  directory = λ path. missing [];
  is_regular = λ path. missing [];
  contents = λ path. missing [];
  env_file = λ path. ok [];
  prefixed = λ prefix keeps nest profile. record { metadata = named prefix; documents = ok [] };
  read = λ text. leaf (Datum.string text);
}

abbrev at_port : Layer
at_port = record { entries = (codes "port", leaf (Datum.string (codes "1"))) ∷ [] }

abbrev mounted : FilePath
mounted = codes "/" ∷ codes "run" ∷ codes "port" ∷ []

-- A machine with a `.env` file of one line and a directory with one secret.
abbrev furnished : World
furnished = record bare {
  env_file = λ path. ok ((codes "APP_DB_PORT", codes "2") ∷ []);
  directory = λ path. done (mounted ∷ []);
  is_regular = λ path. done true;
  contents = λ path. done (codes "3");
}

abbrev etcd : Store
etcd = record {
  document = some (record { text = codes "port = 4"; format = Format.toml });
  described = some (codes "etcd");
}

abbrev spec : LoadSpec
spec = record (Source.new (codes "db") []) {
  env_prefix = some (codes "APP_");
  defaults = some at_port;
  remote = some etcd;
  secrets_dir = some (codes "/run");
  env_files = codes ".env" ∷ [];
  env_bindings = some (record { entries = (codes "port", codes "PORT") ∷ [] });
  flags = some at_port;
  overrides = some at_port;
}

abbrev bound : BindingProvider
bound = record {
  key = codes "db";
  path = codes "port";
  variable = codes "PORT";
  allow_empty = false;
  fallback = (codes "APP_DB_PORT", codes "2") ∷ [];
}

abbrev set_as : Text → Provided
set_as name = layer_provider at_port (section_profile (codes "db")) name

abbrev stored : Provided
stored =
    renamed (codes "the remote store etcd") none
      (sectioned none (bare.parsed (codes "port = 4") Format.toml))

abbrev of_env_file : Provided
of_env_file =
    provider_of bare.read false (codes "APP_DB_") (codes "__") (codes ".env")
      (section_profile (codes "db")) ((codes "APP_DB_PORT", codes "2") ∷ [])

layers-AreTraced_example :
    All (IsFrom (IsOneOf (Origin.runtime (codes "default") ∷ []))) (set_as defaults_name ∷ [])
    × All (IsFrom (IsOneOf (Origin.remote (codes "etcd") ∷ []))) (stored ∷ [])
    × All
        (IsFrom (IsOneOf (Origin.file (Paths.display mounted) ∷ [])))
        (secret mounted (codes "port") (codes "3") (codes "db") ∷ [])
    × All (IsFrom (IsOneOf (Origin.file (codes ".env") ∷ []))) (of_env_file ∷ [])
    × All
        (IsFrom (IsOneOf (Origin.env (codes "PORT") ∷ [])))
        (binding_provider furnished bound ∷ [])
    × All
        (IsFrom (IsOneOf (Origin.runtime (codes "command-line flag") ∷ [])))
        (set_as flags_name ∷ [])
    × All (IsFrom (IsOneOf (Origin.runtime (codes "override") ∷ []))) (set_as overrides_name ∷ [])
unfolding layer_of merge_layer merge_remote merge_secrets_dir merge_env_files merge_bindings
    has_entries has_document has_bindings providers_of full_env_prefix split cmp store_name
layers-AreTraced_example =
    layers-AreTraced furnished spec (set_as defaults_name ∷ []) (stored ∷ [])
      (secret mounted (codes "port") (codes "3") (codes "db") ∷ []) (of_env_file ∷ [])
      (binding_provider furnished bound ∷ []) (set_as flags_name ∷ []) (set_as overrides_name ∷ [])
      refl refl refl refl refl refl refl
