-- ===== src/Loader/Outside.antt =====
-- What dynamic-config/src/loader takes from outside: the files, the environment, and figment's reading
-- of them.
use dynamic_config.Prelude.{Bool, Option, List, ◌++◌}
use dynamic_config.Prelude.Text.{Text, codes}
use dynamic_config.Prelude.Results.{Result}
use dynamic_config.Prelude.Paths.{FilePath}
use dynamic_config.Error.{Error}
use dynamic_config.Map.{Map}
use dynamic_config.Figment.{FigmentValue}
use dynamic_config.Figment.Provided.{Provided, profile_from}
use dynamic_config.Remote.{Format}

-- An access to the disk: nothing is there, it failed otherwise, or what it gave.
pub data Io (A : Type 0) : Type 0 where
  missing : Text → Io A
  broken : Text → Io A
  done : A → Io A

-- The outside of one load. `document` and `parsed` are figment's providers of a file and of a text,
-- before sections; `prefixed` its environment provider: the values of the variables under a prefix
-- whose stripped names pass the test, nested at a separator. `read` is its loose reading of a text.
pub record World : Type 0 where
  pub environment : Text → Option Text
  pub variables : List (Option Text × Option Text)
  pub is_file : FilePath → Bool
  pub document : FilePath → Format → Provided
  pub parsed : Text → Format → Provided
  pub ciphertext : FilePath → Io Text
  pub decrypt : Text → Text → Result Error Text
  pub directory : FilePath → Io (List FilePath)
  pub is_regular : FilePath → Io Bool
  pub contents : FilePath → Io Text
  pub env_file : Text → Result Error (Map Text)
  pub prefixed : (prefix : Text) → (Text → Bool) → (nest profile : Text) → Provided
  pub read : Text → FigmentValue

-- `section_profile`, as a profile
unfoldable pub section_profile : Text → Text
unfolding profile_from
section_profile key = profile_from (codes "section:" ++ key)
