-- ===== src/Lifecycle.antt =====
-- dynamic-config/src/builder/lifecycle.rs: what init, reload and a prepared commit install and
-- record, with the modes of cache.rs. What the loader, the validation and the cache file answer is
-- handed in.
pub mod Install
mod Examples
use dynamic_config.Prelude.{
  Bool, true, false, Option, none, some, List, [], ◌∷◌, ◌&&◌, ◌+◌, not, is_some, if◌then◌else◌, ℕ,
}
use dynamic_config.Prelude.Text.{Text, codes}
use dynamic_config.Prelude.Results.{Result, ok, err, ◌>>=◌, ◌>>◌}
use dynamic_config.Error.{Error, backend}
use dynamic_config.Error
use dynamic_config.Reload.{ReloadReason, initial, recovered, manual}
use dynamic_config.Cell.{ConfigCell, Shared, store_with, record_failure}

pub data CacheMode : Type 0 where
  full redacted fingerprint : CacheMode

-- `CacheMode::recovers`
unfoldable pub recovers : CacheMode → Bool
recovers fingerprint = false
recovers _ = true

-- `matches!(mode, CacheMode::Full)`
unfoldable pub is_full : CacheMode → Bool
is_full full = true
is_full _ = false

-- `enum Recovery`; a usable snapshot is what `loader::recover` makes of it.
pub data Recovery (T : Type 0) : Type 0 where
  usable : Result Error T → Recovery T
  drift : Option (List Text) → Recovery T
  absent : Recovery T

-- What a builder holds that these methods read or change: the cell it installs in, the cache's path
-- and mode, the names of the secrets, how often it registered, and the caches written.
pub record Builder (T : Type 0) : Type 0 where
  pub install : Option (ConfigCell T)
  pub cache : Option (Text × CacheMode)
  pub secrets : Option (List Text)
  pub registered : ℕ
  pub written : List Text

-- What is outside: the sources' answer to `loader::load` and `loader::snapshot`, the check of a value,
-- what the cache file holds, and the clock.
pub record Outside (T : Type 0) : Type 0 where
  pub loaded : Result Error T
  pub snapshot : Result Error (Unit {0})
  pub validate : Option (T → Result Error (Unit {0}))
  pub cached : Result Error (Recovery T)
  pub now : ℕ

module _ {T : Type 0} (outside : Outside T) where
  -- `check(&value)`, where there is a check.
  unfoldable pub checked : T → Result Error T
  checked value = elim outside.validate [
    | none ↦ ok value
    | some check ↦ elim (check value) [ ok u ↦ ok value | err e ↦ err e ]
  ]

  -- `Builder::load`
  unfoldable pub load : Result Error T
  unfolding checked
  load = elim outside.loaded [ ok value ↦ checked value | err e ↦ err e ]

  -- Whether the mode needs the secrets' names, which nothing gave.
  unfoldable pub lacks_secrets : Builder T → Bool
  unfolding is_full
  lacks_secrets b = elim b.cache [
    | none ↦ false
    | some (path, mode) ↦ not (is_full mode) && not (is_some b.secrets)
  ]

  -- The error of `check_cache_mode`, with the beginning of its message.
  abbrev pub unnamed_secrets : Error
  unnamed_secrets =
      Error.new backend
        (codes "a redacted or fingerprint cache needs to know which fields are secret")

  -- `check_cache_mode`
  unfoldable pub check_cache_mode : Builder T → Result Error (Unit {0})
  unfolding lacks_secrets
  check_cache_mode b = if lacks_secrets b then err unnamed_secrets else ok tt

  -- `write_cache`
  unfoldable pub write_cache : Builder T → Builder T
  unfolding lacks_secrets
  write_cache b = elim b.cache [
    | none ↦ b
    | some (path, mode) ↦
        if lacks_secrets b
        then b
        else elim outside.snapshot [ ok u ↦ record b { written = path ∷ b.written } | err e ↦ b ]
  ]

  -- `recover`
  unfoldable pub recover : Builder T → Error → Result Error T
  unfolding recovers
  recover b failure = elim b.cache [
    | none ↦ err failure
    | some (path, mode) ↦ elim outside.cached [
      | err e ↦ err failure
      | ok found ↦ elim found [
        | usable snapshot ↦ if recovers mode then snapshot else err failure
        | drift moved ↦ err failure
        | absent ↦ err failure
      ]
    ]
  ]

  -- The error of a builder with no cell, with the beginning of its message.
  abbrev pub untied : Error
  untied = Error.new backend (codes "this builder is tied to no config type")

  -- A value that was loaded is installed, and the cache written.
  abbrev pub commit_loaded : T → ReloadReason → ConfigCell T → Builder T → Builder T × Shared T
  commit_loaded value reason cell b =
      let installed = store_with value reason outside.now cell in
      (write_cache (record b { install = some installed.cell }), installed.snapshot)

  abbrev pub failed : Error → ConfigCell T → Builder T → Builder T
  failed e cell b = record b { install = some (record_failure e outside.now cell) }

  abbrev pub register : Builder T → Builder T
  register b = record b { registered = b.registered + 1 }

  -- The part of `install` that runs when the load failed.
  unfoldable pub install_recovered :
      Error → ConfigCell T → Builder T → Builder T × Result Error (Shared T)
  unfolding recover checked
  install_recovered failure cell b = elim (recover b failure >>= checked) [
    | ok value ↦
        let installed = store_with value recovered outside.now cell in
        (register (record b { install = some installed.cell }), ok installed.snapshot)
    | err e ↦ (failed e cell b, err e)
  ]

  -- `Builder::install`, which `init` and `init_and_current` call.
  unfoldable pub install : Builder T → Builder T × Result Error (Shared T)
  unfolding check_cache_mode load install_recovered write_cache
  install b = elim (check_cache_mode b) [
    | err e ↦ (b, err e)
    | ok u ↦ elim b.install [
      | none ↦ (b, err untied)
      | some cell ↦ elim load [
        | ok value ↦
            let (b', snapshot) = commit_loaded value initial cell b in (register b', ok snapshot)
        | err failure ↦ install_recovered failure cell b
      ]
    ]
  ]

  -- `reload_with`; `reload` gives it the manual reason.
  unfoldable pub reload_with : ReloadReason → Builder T → Builder T × Result Error (Unit {0})
  unfolding load write_cache
  reload_with reason b = elim b.install [
    | none ↦ (b, err untied)
    | some cell ↦ elim load [
      | ok value ↦ ((commit_loaded value reason cell b).0, ok tt)
      | err e ↦ (failed e cell b, err e)
    ]
  ]

  -- `prepare`: the value that its commit will install.
  unfoldable pub prepare : Builder T → Builder T × Result Error T
  unfolding load
  prepare b = elim b.install [
    | none ↦ (b, err untied)
    | some cell ↦ elim load [ ok value ↦ (b, ok value) | err e ↦ (failed e cell b, err e) ]
  ]

  -- The commit that `prepare` returns.
  unfoldable pub commit : T → Builder T → Builder T
  commit value b = elim b.install [
    | none ↦ b
    | some cell ↦ record b { install = some (store_with value manual outside.now cell).cell }
  ]
