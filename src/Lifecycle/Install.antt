-- ===== src/Lifecycle/Install.antt =====
-- What an init leaves of a builder and its cell, on every path.
use dynamic_config.Prelude.{
  true, Option, none, some, ◌+◌, ◌≡◌, ◌⊎◌, inl, inr, refl, arith, if◌then◌else◌,
}
use dynamic_config.Prelude.Text.{Text}
use dynamic_config.Prelude.Results.{Result, ok, err, Result-cases}
use dynamic_config.Error.{Error}
use dynamic_config.Reload.{ReloadReason, initial, recovered}
use dynamic_config.Cell.{ConfigCell, Shared, store_with}
use dynamic_config.Lifecycle.{
  Recovery, usable, drift, absent, Builder, Outside, CacheMode, recovers, checked, load,
  lacks_secrets, install, failed,
}

module _ {T : Type 0} (outside : Outside T) where
  checked-ok :
      (value v : T) → checked outside value ≡ ok v → (v ≡ value) × (checked outside v ≡ ok v)
  unfolding checked
  checked-ok value v h = at outside.validate refl
    where
      at :
          (o : Option (T → Result Error (Unit {0})))
          → outside.validate ≡ o
          → (v ≡ value) × (checked outside v ≡ ok v)
      at none q = (ground (arith, h, q), ground (arith, q))
      at (some check) q = by_answer (check value) refl
        where
          by_answer :
              (r : Result Error (Unit {0}))
              → check value ≡ r
              → (v ≡ value) × (checked outside v ≡ ok v)
          by_answer (err e) p = absurd (ground (arith, h, q, p))
          by_answer (ok u) p =
              let same : v ≡ value = ground (arith, h, q, p) in
              (same, rw same (ground (arith, q, p)))

  pub load-checked : (v : T) → load outside ≡ ok v → checked outside v ≡ ok v
  unfolding load
  load-checked v h = elim (Result-cases outside.loaded) [
    | inr (e, q) ↦ absurd (ground (arith, h, q))
    | inl (w, q) ↦ (checked-ok w v (ground (arith, h, q))).1
  ]

  -- Why a value may be installed by an init.
  abbrev pub Reasoned : Builder T → ReloadReason → T → Type 0
  Reasoned b reason v =
      ((reason ≡ initial) × (load outside ≡ ok v))
      ⊎ ((reason ≡ recovered)
          × (e : Error) × (load outside ≡ err e)
          × (path : Text) × (mode : CacheMode) × (b.cache ≡ some (path, mode))
          × (recovers mode ≡ true)
          × (outside.cached ≡ ok (usable (ok v))))

  -- What an init leaves of a builder with a cell.
  abbrev pub Settled : Builder T → ConfigCell T → Builder T × Result Error (Shared T) → Type 0
  Settled b cell (b', ok s) =
      (reason : ReloadReason) × (b'.install
        ≡ some (store_with s.value reason outside.now cell).cell)
      × (s ≡ (store_with s.value reason outside.now cell).snapshot)
      × (checked outside s.value ≡ ok s.value)
      × Reasoned b reason s.value
      × (b'.registered ≡ b.registered + 1)
  Settled b cell (b', err e) =
      (lacks_secrets outside b ≡ true) × (b' ≡ b) ⊎ (b' ≡ failed outside e cell b)

  -- What the code makes of what a cache file of some mode holds.
  abbrev from_file : CacheMode → Error → Result Error (Recovery T) → Result Error T
  from_file mode failure cached = elim cached [
    | err e ↦ err failure
    | ok found ↦ elim found [
      | usable snapshot ↦ if recovers mode then snapshot else err failure
      | drift moved ↦ err failure
      | absent ↦ err failure
    ]
  ]
