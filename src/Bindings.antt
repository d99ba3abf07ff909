-- ===== src/Bindings.antt =====
-- dynamic-config/src/bindings.rs: single keys bound to environment variables by name, and the document
-- each binding gives the loader.
pub mod Resolved
mod Examples
use dynamic_config.Prelude.{
  Bool, Option, none, some, List, [], ◌∷◌, ◌++◌, ◌&&◌, ◌||◌, not, is_empty, is_some, map,
  if◌then◌else◌,
}
use dynamic_config.Prelude.Text.{Text, codes}
use dynamic_config.Prelude.Str.{trim}
use dynamic_config.Prelude.Results.{Result, ok, err, ◌>>=◌}
use dynamic_config.Error.{Error}
use dynamic_config.Map
use dynamic_config.Map.{Map, insert, get}
use dynamic_config.Tree.{end}
use dynamic_config.Figment.{FigmentValue, Dict}
use dynamic_config.Layer.{check_path, insert_path}

-- `struct EnvBindings`, with the map that its lock guards: the variable of each path.
pub record EnvBindings : Type 0 where
  pub entries : Map Text

-- `EnvBindings::new`
abbrev pub new : EnvBindings
new = record { entries = [] }

-- `EnvBindings::bind`
unfoldable pub bind : Text → Text → EnvBindings → EnvBindings × Result Error (Unit {0})
unfolding check_path insert
bind path variable b = elim (check_path path) [
  | err e ↦ (b, err e)
  | ok u ↦ (record b { entries = insert path variable b.entries }, ok u)
]

-- `EnvBindings::clear`
abbrev pub clear : EnvBindings → EnvBindings
clear b = new

-- `EnvBindings::is_empty`
abbrev pub none_bound : EnvBindings → Bool
none_bound b = is_empty b.entries

-- `EnvBindings::variable`
unfoldable pub variable : EnvBindings → Text → Option Text
unfolding get
variable b path = get b.entries path

-- `struct BindingProvider`
pub record BindingProvider : Type 0 where
  pub path : Text
  pub variable : Text
  pub key : Text
  pub allow_empty : Bool
  pub fallback : Map Text

-- `EnvBindings::providers`
unfoldable pub providers : Text → Bool → Map Text → EnvBindings → List BindingProvider
providers key allow_empty fallback b =
    map
      (λ bound. record {
        path = bound.0;
        variable = bound.1;
        key = key;
        allow_empty = allow_empty;
        fallback = fallback;
      })
      b.entries

-- `metadata`: the name of the source.
abbrev pub metadata : BindingProvider → Text
metadata p = codes "the environment variable " ++ p.variable

-- `.filter(|text| allow_empty || !text.trim().is_empty())`
unfoldable pub unless_blank : Bool → Option Text → Option Text
unfolding trim
unless_blank allow_empty none = none
unless_blank allow_empty (some text) =
    if allow_empty || not (is_empty (trim text)) then some text else none

-- The text `resolve` goes on with, if there is one.
unfoldable pub chosen : Option Text → Option Text → Option Text
chosen (some text) fallback = some text
chosen none fallback = fallback

-- The end of `resolve`.
unfoldable pub accept : (Text → FigmentValue) → Bool → Option Text → Option FigmentValue
unfolding trim
accept read allow_empty none = none
accept read allow_empty (some text) =
    if is_empty (trim text) && not allow_empty then none else some (read text)

unfoldable pub with_value : Text → Option FigmentValue → Dict
unfolding insert_path
with_value path none = end
with_value path (some value) = insert_path end path value

module _ (environment : Text → Option Text) (read : Text → FigmentValue) where
  -- `resolve`: `environment` is `var_os` with `to_str`, and `read` figment's loose reading of a text.
  unfoldable pub resolve : Text → Bool → Map Text → Option FigmentValue
  unfolding chosen accept unless_blank get
  resolve name allow_empty fallback =
      accept read allow_empty
        (chosen (unless_blank allow_empty (environment name)) (get fallback name))

  -- `data`: the values, under `section_profile` of the provider's key.
  unfoldable pub data_of : BindingProvider → Text × Dict
  unfolding with_value resolve
  data_of p =
      (codes "section:" ++ p.key, with_value p.path (resolve p.variable p.allow_empty p.fallback))
