-- ===== src/Lifecycle/Examples.antt =====
-- A start from a cache, after the sources failed.
use dynamic_config.Prelude.{ℕ, none, some, [], ◌≡◌, ◌==◌, refl, if◌then◌else◌}
use dynamic_config.Prelude.Text.{codes}
use dynamic_config.Prelude.Results.{ok, err}
use dynamic_config.Error
use dynamic_config.Error.{Error, ErrorKind}
use dynamic_config.Cell
use dynamic_config.Cell.{ConfigCell, store_with}
use dynamic_config.Lifecycle.{Builder, Outside, full, fingerprint, usable, install}

abbrev problem : Error
problem = Error.new ErrorKind.parse (codes "expected a number")

abbrev outside : Outside ℕ
outside = record {
  loaded = err problem;
  snapshot = err problem;
  validate = some (λ n. if n == 0 then err problem else ok tt);
  cached = ok (usable (ok 8));
  now = 5;
}

abbrev builder : Builder ℕ
builder = record {
  install = some (Cell.new {T = ℕ});
  cache = some (codes "app.cache", full);
  secrets = none;
  registered = 0;
  written = [];
}

starts_from_cache : (install outside builder).1 ≡ ok (record { address = 0; value = 8 })
unfolding install store_with
starts_from_cache = refl

diagnoses_only :
    (install outside
      (record builder { cache = some (codes "app.cache", fingerprint); secrets = some [] })).1
    ≡ err problem
unfolding install
diagnoses_only = refl
