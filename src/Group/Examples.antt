-- ===== src/Group/Examples.antt =====
-- Two members, one of which does not load.
use dynamic_config.Prelude.{ℕ, none, some, [], ◌∷◌, ◌≡◌, refl}
use dynamic_config.Prelude.Text.{codes}
use dynamic_config.Prelude.Results.{Result, ok, err}
use dynamic_config.Error
use dynamic_config.Error.{Error, ErrorKind, prepend_key}
use dynamic_config.Cell
use dynamic_config.Group.{Member, reload}
use dynamic_config.Group.Atomic.{AllOrNone, reload-AllOrNone}

abbrev problem : Error
problem = Error.new ErrorKind.parse (codes "expected a number")

abbrev member : Result Error ℕ → Member ℕ
member loaded = record {
  name = codes "db";
  outside = record {
    loaded = loaded;
    snapshot = ok tt;
    validate = none;
    cached = err problem;
    now = 5;
  };
  builder = record {
    install = some (Cell.new {T = ℕ});
    cache = none;
    secrets = none;
    registered = 0;
    written = [];
  };
}

second_fails :
    (reload (member (ok 1) ∷ member (err problem) ∷ [])).1 ≡ err (prepend_key (codes "db") problem)
unfolding reload
second_fails = refl

both_load : (reload (member (ok 1) ∷ member (ok 2) ∷ [])).1 ≡ ok tt
unfolding reload
both_load = refl

reload-AllOrNone_example :
    AllOrNone
      (member (ok 1) ∷ member (err problem) ∷ [])
      (reload (member (ok 1) ∷ member (err problem) ∷ []))
reload-AllOrNone_example = reload-AllOrNone (member (ok 1) ∷ member (err problem) ∷ [])
