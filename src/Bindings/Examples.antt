-- ===== src/Bindings/Examples.antt =====
-- Bindings at concrete inputs.
use dynamic_config.Prelude.{Option, none, some, [], ◌∷◌, ◌≡◌, refl, false, if◌then◌else◌}
use dynamic_config.Prelude.Text.{Text, codes, cmp, text_eq, split}
use dynamic_config.Map
use dynamic_config.Map.{insert}
use dynamic_config.Tree.{leaf, table}
use dynamic_config.Value.{walk}
use dynamic_config.Figment.{FigmentValue, Datum}
use dynamic_config.Layer.{check_path}
use dynamic_config.Bindings.{BindingProvider, new, bind, variable, data_of}
use dynamic_config.Bindings.Resolved.{first_full, data_of-first_full}

-- A deployment left the variable blank, and a `.env` file has it.
abbrev environment : Text → Option Text
environment name = if text_eq name (codes "DB_URL") then some (codes "  ") else none

abbrev read : Text → FigmentValue
read text = leaf (Datum.string text)

abbrev bound : BindingProvider
bound = record {
  path = codes "db.url";
  variable = codes "DB_URL";
  key = codes "billing";
  allow_empty = false;
  fallback = (codes "DB_URL", codes "postgres") ∷ [];
}

is_bound :
    variable (bind (codes "db.url") (codes "DB_URL") new).0 (codes "db.url") ≡ some (codes "DB_URL")
unfolding variable bind check_path cmp insert Map.get
is_bound = refl

data_of-first_full_example :
    walk (table (data_of environment read bound).1) (codes "db" ∷ codes "url" ∷ [])
    ≡ some (read (codes "postgres"))
unfolding first_full cmp Map.get split
data_of-first_full_example = data_of-first_full environment read bound
