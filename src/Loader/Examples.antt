-- ===== src/Loader/Examples.antt =====
-- The loader at concrete inputs, over a figment that keeps what is filed under each profile.
use dynamic_config.Prelude.{
  ℕ, Bool, true, false, Option, none, some, List, [], ◌∷◌, ◌++◌, ◌≡◌, ◌≢◌, refl, ap, subst, All,
  arith, length, if◌then◌else◌,
}
use dynamic_config.Prelude.Text.{Text, codes, cmp, split, text_eq}
use dynamic_config.Prelude.Results.{Result, ok, err}
use dynamic_config.Prelude.Paths.{components, file_name, front}
use dynamic_config.Error.{Error, Origin}
use dynamic_config.Map
use dynamic_config.Tree
use dynamic_config.Tree.{leaf, table, end, entry}
use dynamic_config.Figment.{FigmentValue, Dict, Datum}
use dynamic_config.Figment.Provided.{Provided, Documents, Failure, failure, profile_from, named}
use dynamic_config.Value.{merge_into, walk}
use dynamic_config.Layer.{Layer, insert_path}
use dynamic_config.Layer.Entries.{IsValid}
use dynamic_config.Value.Precedence.{Misses}
use dynamic_config.Source
use dynamic_config.Source.{LoadSpec, full_env_prefix}
use dynamic_config.Loader.{
  layers, build, has_document, has_bindings, default_layer, discovered_layer, file_layer,
  remote_layer, secrets_layer, env_file_layer, environment_layer, binding_layer, flag_layer,
  override_layer,
}
use dynamic_config.Loader.Outside.{World, missing, section_profile}
use dynamic_config.Loader.Layers.{
  layer_provider, providers_of, merge_layer, has_entries, defaults_name, flags_name, overrides_name,
}
use dynamic_config.Loader.Sections.{profile_is_safe, profile_variant}
use dynamic_config.Loader.Resolved.{Engine, add_all, merged, recovered, live}
use dynamic_config.Loader.Reading.{
  Documented, IsRead, IsElsewhere, IsQuiet, Says, of_profile, filed_under, layered,
}
use dynamic_config.Loader.Precedence.{merged-layer}
use dynamic_config.Loader.Recovery.{
  recovered-drops_runtime, cached_live, ok-injective, of_one, providers_of-IsRead,
  providers_of-IsElsewhere,
}
use dynamic_config.Loader.Questions.{Snapshot, resolved, recorded, origin_in, resolved-provenance}
use dynamic_config.Loader.Origin.{origin_of}
use dynamic_config.Loader.Siblings.{profile_variant-IsSibling}

-- What is filed, whether a provider failed, and the profile that is selected.
record Filed : Type 0 where
  of : Text → Dict
  sound : Bool
  selected : Text

abbrev took : Filed → Result Failure Documents → Filed
took f (err e) = record f { sound = false }
took f (ok documents) = record f {
  of = λ profile. merge_into (f.of profile) (of_profile documents profile);
}

abbrev taken : Filed → Result Failure Dict
taken f =
    if f.sound
    then ok (layered (f.of (codes "default")) (f.of f.selected) (f.of (codes "global")))
    else err (failure (codes "unreadable"))

abbrev filing : Engine Filed
filing = record {
  empty = record { of = λ profile. end; sound = true; selected = codes "default" };
  merge = λ f p. took f p.documents;
  select = λ f profile. record f { selected = profile };
  find_metadata = λ f path. none;
  find_value = λ f path. walk (table (f.of f.selected)) (split b'.' path);
  extract = taken;
}

filing-Documented : Documented filing
filing-Documented = record {
  filed = λ f. f.of;
  is_sound = λ f. f.sound;
  filed-empty = λ profile. refl;
  sound-empty = refl;
  filed-merge = λ f p documents profile sound e. rw e refl;
  sound-merge = λ f p documents sound e. rw e sound;
  extract-select = λ f profile sound. rw sound refl;
}

-- Nothing is outside but an environment without variables.
abbrev bare : World
bare = record {
  environment = λ name. none;
  variables = [];
  is_file = λ path. false;
  document = λ path format. record { metadata = named []; documents = ok [] };
  parsed = λ text format. record { metadata = named []; documents = ok [] };
  ciphertext = λ path. missing [];
  decrypt = λ bytes name. ok bytes;
  directory = λ path. missing [];
  is_regular = λ path. missing [];
  contents = λ path. missing [];
  env_file = λ path. ok [];
  prefixed = λ prefix keeps nest profile. record { metadata = named prefix; documents = ok [] };
  read = λ text. leaf (Datum.string text);
}

abbrev value : Text → FigmentValue
value text = leaf (Datum.string text)

abbrev layer_with : Text → Text → Layer
layer_with path text = record { entries = (path, value text) ∷ [] }

abbrev spec : LoadSpec
spec = record (Source.new (codes "db") []) {
  defaults = some (layer_with (codes "port") (codes "1"));
  flags = some (layer_with (codes "port") (codes "2"));
  overrides = some (layer_with (codes "host") (codes "h"));
}

layer_with-IsValid : (path text : Text) → IsValid (layer_with path text)
layer_with-IsValid path text = record { sorted = (tt, tt); values = (tt, tt) }

global-ne-section : codes "global" ≢ section_profile (codes "db")
unfolding section_profile
global-ne-section h = omega (arith, ap length h)

abbrev one : (path text name : Text) → Provided
one path text name = layer_provider (layer_with path text) (section_profile (codes "db")) name

one-IsRead : (path text name : Text) → IsRead (one path text name)
unfolding providers_of
one-IsRead path text name =
    (providers_of-IsRead (some (layer_with path text)) (section_profile (codes "db")) name
      (layer_with-IsValid path text)).0

one-IsLocal : (path text name : Text) → IsElsewhere (codes "global") (one path text name)
unfolding providers_of
one-IsLocal path text name =
    (providers_of-IsElsewhere (some (layer_with path text)) (section_profile (codes "db")) name
      (codes "global") global-ne-section).0

flag-Says :
    Says
      (section_profile (codes "db"))
      (codes "port" ∷ [])
      (value (codes "2"))
      (one (codes "port") (codes "2") flags_name)
unfolding layer_provider filed_under section_profile Map.get Tree.get walk cmp split insert_path
    Tree.insert
flag-Says documents e =
    subst
      (λ ds.
        walk (table (of_profile ds (section_profile (codes "db")))) (codes "port" ∷ [])
        ≡ some (value (codes "2")))
      (ok-injective e) refl

override-IsQuiet :
    IsQuiet
      (section_profile (codes "db"))
      (codes "port" ∷ [])
      (one (codes "host") (codes "h") overrides_name)
unfolding layer_provider filed_under section_profile Map.get Tree.get cmp split insert_path
    Tree.insert
override-IsQuiet documents e =
    subst (λ ds. Misses (codes "port" ∷ []) (table (of_profile ds (section_profile (codes "db")))))
      (ok-injective e) tt

-- The flag wins over the default, and the override has nothing to say about it.
merged-layer_example :
    (f : Filed) × (d : Dict) × (merged filing bare spec ≡ ok f)
    × (taken f ≡ ok d)
    × (walk (table d) (codes "port" ∷ []) ≡ some (value (codes "2")))
unfolding build layers full_env_prefix has_entries has_document has_bindings providers_of
    merge_layer
merged-layer_example =
    merged-layer bare spec filing filing-Documented
      (default_layer ∷ discovered_layer ∷ file_layer ∷ remote_layer ∷ secrets_layer ∷ env_file_layer
        ∷ environment_layer ∷ binding_layer ∷ [])
      (override_layer ∷ []) flag_layer [] []
      (one (codes "port") (codes "1") defaults_name
        ∷ one (codes "port") (codes "2") flags_name
        ∷ one (codes "host") (codes "h") overrides_name
        ∷ [])
      (one (codes "port") (codes "2") flags_name) (codes "port") [] (value (codes "2")) refl refl
      refl refl
      (
        one-IsRead (codes "port") (codes "1") defaults_name,
        (
          one-IsRead (codes "port") (codes "2") flags_name,
          (one-IsRead (codes "host") (codes "h") overrides_name, tt),
        ),
      )
      (
        one-IsLocal (codes "port") (codes "1") defaults_name,
        (
          one-IsLocal (codes "port") (codes "2") flags_name,
          (one-IsLocal (codes "host") (codes "h") overrides_name, tt),
        ),
      )
      flag-Says tt tt
      (
        λ ps e.
            subst (All (IsQuiet (section_profile (codes "db")) (codes "port" ∷ [])))
              (ok-injective e) (override-IsQuiet, tt),
        tt,
      )

abbrev cached : Dict
cached = entry (codes "port") (value (codes "9")) end

key-ne : (name : Text) → length name ≢ 2 → name ≢ profile_from (codes "db")
unfolding profile_from
key-ne name h e = h (omega (arith, ap length e))

-- The override of the host is lost, and the port is the cache's.
recovered-drops_runtime_example :
    (f : Filed) × (recovered filing bare spec cached ≡ ok f)
    × (taken f
        ≡ taken (
            filing.select
              (add_all filing filing.empty
                (cached_live filing filing-Documented bare spec cached []))
              (section_profile (codes "db"))))
unfolding live full_env_prefix
recovered-drops_runtime_example =
    recovered-drops_runtime filing filing-Documented bare spec cached [] refl refl
      (
        record {
          documents = (section_profile (codes "db"), cached) ∷ [];
          are_read = refl;
          are_ordered = of_one (section_profile (codes "db")) cached ((tt, tt), (tt, tt));
        },
        tt,
      )
      (layer_with-IsValid (codes "port") (codes "2"))
      (layer_with-IsValid (codes "host") (codes "h")) (key-ne (codes "default") (omega arith))
      (key-ne (codes "global") (omega arith))

abbrev found_in : Result Failure Dict → List Text → Option FigmentValue
found_in (err e) path = none
found_in (ok d) path = walk (table d) path

abbrev read_at : Result Error Filed → List Text → Option FigmentValue
read_at (err e) path = none
read_at (ok f) path = found_in (taken f) path

-- The override is read in a load, and not in a recovery.
loaded_host : read_at (merged filing bare spec) (codes "host" ∷ []) ≡ some (value (codes "h"))
unfolding merged build layers full_env_prefix has_entries has_document has_bindings providers_of
    merge_layer walk Tree.get merge_into Tree.insert Map.get filed_under cmp split insert_path
    section_profile
loaded_host = refl

recovered_host : read_at (recovered filing bare spec cached) (codes "host" ∷ []) ≡ none
unfolding recovered live full_env_prefix providers_of merge_layer walk Tree.get merge_into
    Tree.insert Map.get filed_under cmp split insert_path section_profile
recovered_host = refl

traversal_is_refused : profile_is_safe (codes "../../tmp/evil") ≡ false
unfolding profile_is_safe
traversal_is_refused = refl

varied :
    profile_variant (components (codes "conf.d/secrets.json.age")) (codes "production")
    ≡ some (codes "conf.d" ∷ codes "secrets.production.json.age" ∷ [])
unfolding profile_variant components split cmp
varied = refl

profile_variant-IsSibling_example :
    (v : Text) × (codes "conf.d" ∷ codes "secrets.production.json.age" ∷ []
      ≡ front (codes "conf.d" ∷ codes "secrets.json.age" ∷ []) ++ v ∷ [])
    × (components v ≡ v ∷ [])
    × (file_name (v ∷ []) ≡ some v)
unfolding profile_variant profile_is_safe components split cmp
profile_variant-IsSibling_example =
    profile_variant-IsSibling (codes "conf.d" ∷ codes "secrets.json.age" ∷ [])
      (codes "conf.d" ∷ codes "secrets.production.json.age" ∷ []) (codes "secrets.json.age")
      (codes "production") refl (omega arith) refl refl

-- A figment that has one value, from the command line.
abbrev flagged : Engine ℕ
flagged = record {
  empty = 0;
  merge = λ f p. f;
  select = λ f profile. f;
  find_metadata = λ f path. if text_eq path (codes "port") then some (named flags_name) else none;
  find_value = λ f path. none;
  extract = λ f.
      ok (entry (codes "host") (value (codes "h")) (entry (codes "port") (value (codes "2")) end));
}

abbrev shown : Snapshot
shown = record {
  values = entry (codes "host") (value (codes "h")) (entry (codes "port") (value (codes "2")) end);
  provenance = (codes "port", Origin.runtime (codes "command-line flag")) ∷ [];
}

-- The host has no row, since nothing says where it is from.
resolved-provenance_example :
    Map.get shown.provenance (codes "port") ≡ some (Origin.runtime (codes "command-line flag"))
unfolding resolved merged build layers full_env_prefix has_document has_bindings origin_in recorded
    origin_of cmp split Map.get has_entries
resolved-provenance_example =
    resolved-provenance flagged bare (Source.new (codes "db") []) shown 0 refl (codes "port")
