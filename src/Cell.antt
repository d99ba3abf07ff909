-- ===== src/Cell.antt =====
-- dynamic-config/src/cell.rs: the slot that holds the current snapshot, with its metadata, its
-- reload hooks and the record of failures. The functions here are the whole methods, run alone;
-- `Race` has several installs that run at once.
pub mod Install
pub mod Hooks
pub mod History
pub mod Race
mod Examples
use dynamic_config.Prelude.{
  ℕ, Bool, true, false, Option, none, some, List, [], ◌∷◌, ◌++◌, ◌+◌, ◌-◌, ◌%◌, ◌^◌, ◌==◌, ltb, not,
  map, keep, is_empty, if◌then◌else◌,
}
use dynamic_config.Error.{Error}
use dynamic_config.Reload.{
  ReloadReason, manual, FailureStatus, failure_of, SnapshotMeta, ConfigStatus,
}

-- `Arc<T>`: the value, and the address that `Arc::ptr_eq` compares.
pub record Shared (T : Type 0) : Type 0 where
  pub address : ℕ
  pub value : T

-- `enum Callback`: the number tells one closure from another.
pub data Callback : Type 0 where
  pair event : ℕ → Callback

pub record Registered : Type 0 where
  pub token : ℕ
  pub callback : Callback

-- `ReloadEvent`
pub record ReloadEvent (T : Type 0) : Type 0 where
  pub previous : Option (Shared T)
  pub current : Shared T
  pub reason : ReloadReason
  pub meta : SnapshotMeta

-- A call of a hook, as the hook sees it.
pub data Call (T : Type 0) : Type 0 where
  pair_call : ℕ → Shared T → Shared T → Call T
  event_call : ℕ → ReloadEvent T → Call T

-- `struct ConfigCell`; `allocated` is how many `Arc`s of values were made, the next address.
pub record ConfigCell (T : Type 0) : Type 0 where
  pub inner : Option (Shared T)
  pub hooks : Option (List Registered)
  pub next_token : ℕ
  pub meta : Option SnapshotMeta
  pub last_reason : Option ReloadReason
  pub last_failure : Option FailureStatus
  pub consecutive_failures : ℕ
  pub allocated : ℕ

-- What `store_with` leaves: the cell, the snapshot it returns, and the calls it made.
pub record Installed (T : Type 0) : Type 0 where
  pub cell : ConfigCell T
  pub snapshot : Shared T
  pub calls : List (Call T)

module _ {T : Type 0} where
  -- `ConfigCell::new`
  abbrev pub new : ConfigCell T
  new = record {
    inner = none;
    hooks = none;
    next_token = 0;
    meta = none;
    last_reason = none;
    last_failure = none;
    consecutive_failures = 0;
    allocated = 0;
  }

  -- `ConfigCell::load`
  unfoldable pub load : ConfigCell T → Option (Shared T)
  load c = c.inner

  -- `ConfigCell::generation`
  unfoldable pub generation : ConfigCell T → ℕ
  generation c = elim c.meta [ none ↦ 0 | some m ↦ m.generation ]

  -- What one registered hook is called with; a pair-form hook is not called for a first install. A
  -- hook that panics is caught, and the next one is called all the same.
  unfoldable pub call_of : ReloadEvent T → Callback → List (Call T)
  call_of e (pair hook) = elim e.previous [
    | none ↦ []
    | some previous ↦ pair_call hook previous e.current ∷ []
  ]
  call_of e (event hook) = event_call hook e ∷ []

  -- The loop of `dispatch`
  unfoldable pub dispatch_each : ReloadEvent T → List Registered → List (Call T)
  unfolding call_of
  dispatch_each e [] = []
  dispatch_each e (r ∷ rs) = call_of e r.callback ++ dispatch_each e rs

  -- `ConfigCell::dispatch`: the calls it makes, in order.
  unfoldable pub dispatch : Option (List Registered) → ReloadEvent T → List (Call T)
  unfolding dispatch_each
  dispatch none e = []
  dispatch (some hooks) e = if is_empty hooks then [] else dispatch_each e hooks

  -- `Arc::ptr_eq`
  unfoldable pub ptr_eq : Shared T → Shared T → Bool
  ptr_eq a b = a.address == b.address

  -- `ConfigCell::store_with`; `now` is what the clock read.
  unfoldable pub store_with : T → ReloadReason → (now : ℕ) → ConfigCell T → Installed T
  unfolding generation dispatch ptr_eq
  store_with value reason now c =
      let arc : Shared T = record { address = c.allocated; value = value } in
      let before : Shared T = elim c.inner [ none ↦ arc | some old ↦ old ] in
      let meta : SnapshotMeta = record { generation = generation c + 1; loaded_at = now } in
      let previous : Option (Shared T) = if ptr_eq before arc then none else some before in
      record {
        cell = record c {
          inner = some arc;
          meta = some meta;
          last_reason = some reason;
          consecutive_failures = 0;
          allocated = c.allocated + 1;
        };
        snapshot = arc;
        calls =
            dispatch c.hooks
              (record { previous = previous; current = arc; reason = reason; meta = meta });
      }

  -- `ConfigCell::store`
  unfoldable pub store : T → (now : ℕ) → ConfigCell T → ConfigCell T
  unfolding store_with
  store value now c = (store_with value manual now c).cell

  -- `ConfigCell::record_failure`, whose loop adds one unless the counter is at its end.
  unfoldable pub record_failure : Error → (now : ℕ) → ConfigCell T → ConfigCell T
  record_failure e now c = record c {
    consecutive_failures =
        if ltb c.consecutive_failures (2 ^ 32 - 1)
        then c.consecutive_failures + 1
        else c.consecutive_failures;
    last_failure = some (failure_of now e);
  }

  -- `ConfigCell::status`
  unfoldable pub status : ConfigCell T → ConfigStatus
  unfolding generation
  status c = record {
    generation = generation c;
    loaded_at = elim c.meta [ none ↦ none | some m ↦ some m.loaded_at ];
    last_reason = c.last_reason;
    last_failure = c.last_failure;
    consecutive_failures = c.consecutive_failures;
  }

  -- The hooks that are registered.
  abbrev pub hooks_of : ConfigCell T → List Registered
  hooks_of c = elim c.hooks [ none ↦ [] | some hooks ↦ hooks ]

  -- `ConfigCell::register`, which `on_reload`, `on_reload_with` and their scoped forms call.
  unfoldable pub register : Callback → ConfigCell T → ConfigCell T × ℕ
  register callback c = (
    record c {
      next_token = (c.next_token + 1) % 2 ^ 64;
      hooks = some (hooks_of c ++ (record { token = c.next_token; callback = callback } ∷ []));
    },
    c.next_token,
  )

  -- `ConfigCell::unregister`, which dropping a `HookGuard` calls.
  unfoldable pub unregister : ℕ → ConfigCell T → ConfigCell T
  unregister token c = elim c.hooks [
    | none ↦ c
    | some hooks ↦ record c { hooks = some (keep (λ r. not (r.token == token)) hooks) }
  ]
