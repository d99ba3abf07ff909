-- ===== src/Cell/Install.antt =====
-- What an install and a failure do to a cell, run alone.
use dynamic_config.Prelude.{
  ℕ, some, ◌+◌, ◌^◌, ◌<◌, ◌≤◌, ◌≡◌, refl, arith, false, Option-cases, inl, inr,
}
use dynamic_config.Error.{Error}
use dynamic_config.Reload.{ReloadReason, is_healthy}
use dynamic_config.Cell.{
  Shared, ConfigCell, load, generation, dispatch, dispatch_each, ptr_eq, store_with, record_failure,
  status, hooks_of,
}

module _ {T : Type 0} where
  -- The addresses in use were allocated, and the failure count is a `u32`.
  pub record IsValid (c : ConfigCell T) : Type 0 where
    pub fresh : (s : Shared T) → c.inner ≡ some s → s.address < c.allocated
    pub counted : c.consecutive_failures < 2 ^ 32

  pub store_with-IsValid :
      (value : T) (reason : ReloadReason) (now : ℕ) (c : ConfigCell T)
      → IsValid c
      → IsValid (store_with value reason now c).cell
  unfolding store_with
  store_with-IsValid value reason now c h = record {
    fresh = λ s e. ground arith;
    counted = omega arith;
  }

  pub record_failure-IsValid :
      (e : Error) (now : ℕ) (c : ConfigCell T) → IsValid c → IsValid (record_failure e now c)
  unfolding record_failure
  record_failure-IsValid e now c h = record { fresh = h.fresh; counted = ground (arith, h.counted) }

  -- In a valid cell a failure leaves the snapshot, its metadata and the hooks alone; it counts up to the end of a
  -- `u32` and never back to what reads as healthy.
  pub record_failure-keeps :
      (e : Error) (now : ℕ) (c : ConfigCell T)
      → IsValid c
      → (load (record_failure e now c) ≡ load c)
        × (generation (record_failure e now c) ≡ generation c)
        × ((record_failure e now c).hooks ≡ c.hooks)
        × (is_healthy (status (record_failure e now c)) ≡ false)
        × (c.consecutive_failures ≤ (record_failure e now c).consecutive_failures)
  unfolding record_failure load generation is_healthy status
  record_failure-keeps e now c h = (refl, refl, refl, ground arith, ground arith)

  -- An install is what a reader loads, has the next generation, ends the failure streak and keeps
  -- the last failure as history.
  pub store_with-status :
      (value : T) (reason : ReloadReason) (now : ℕ) (c : ConfigCell T)
      → (load (store_with value reason now c).cell ≡ some (store_with value reason now c).snapshot)
        × ((store_with value reason now c).snapshot.value ≡ value)
        × (status (store_with value reason now c).cell ≡ record {
          generation = generation c + 1;
          loaded_at = some now;
          last_reason = some reason;
          last_failure = c.last_failure;
          consecutive_failures = 0;
        })
  unfolding store_with load status
  store_with-status value reason now c = (refl, refl, refl)

  -- In a valid cell an install dispatches to every hook, in order, an event that holds what was
  -- loaded before, which is nothing for a first install.
  store_with-calls :
      (value : T) (reason : ReloadReason) (now : ℕ) (c : ConfigCell T)
      → IsValid c
      → (store_with value reason now c).calls
        ≡ dispatch_each
            (record {
              previous = load c;
              current = (store_with value reason now c).snapshot;
              reason = reason;
              meta = record { generation = generation c + 1; loaded_at = now };
            })
            (hooks_of c)
  unfolding store_with load dispatch ptr_eq
  store_with-calls value reason now c h = elim (Option-cases c.inner) [
    | inl e ↦ ground (arith, e)
    | inr (s, e) ↦ let old : s.address < c.allocated = h.fresh s e in ground (arith, e, old)
  ]
