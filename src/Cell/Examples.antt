-- ===== src/Cell/Examples.antt =====
-- A cell through two installs, a failure and a hook that comes and goes.
use dynamic_config.Prelude.{ℕ, some, List, [], ◌∷◌, ◌++◌, ◌+◌, ◌≡◌, refl, arith, map}
use dynamic_config.Reload.{initial, manual}
use dynamic_config.Cell
use dynamic_config.Cell.{
  ConfigCell, Shared, Callback, pair, event, Call, pair_call, store_with, record_failure, status,
  load, generation, register, unregister, hooks_of, dispatch_each, ptr_eq, dispatch,
}
use dynamic_config.Cell.Install.{IsValid}
use dynamic_config.Cell.Hooks.{Below, tagged, register_all, unregister-register}
use dynamic_config.Cell.Race.Consistent.{race-IsConsistent}
use dynamic_config.Cell.Race.{Slot, numbered, fresh, schedule, IsConsistent}

-- A hook is registered before the first install.
abbrev hooked : ConfigCell ℕ
hooked = record (Cell.new {T = ℕ}) {
  hooks = some (record { token = 0; callback = pair 7 } ∷ []);
  next_token = 1;
}

hooked_is_registered : (register (pair 7) (Cell.new {T = ℕ})).0 ≡ hooked
unfolding register
hooked_is_registered = refl

-- After an install of 10.
abbrev running : ConfigCell ℕ
running = record hooked {
  inner = some (record { address = 0; value = 10 });
  meta = some (record { generation = 1; loaded_at = 5 });
  last_reason = some initial;
  allocated = 1;
}

running_is_stored : (store_with 10 initial 5 hooked).cell ≡ running
unfolding store_with
running_is_stored = refl

-- The pair form does not see the first install, and sees the second.
first_is_silent : (store_with 10 initial 5 hooked).calls ≡ []
unfolding store_with
first_is_silent = refl

second_calls :
    (store_with 20 manual 9 running).calls
    ≡ pair_call 7 (record { address = 0; value = 10 }) (record { address = 1; value = 20 }) ∷ []
unfolding store_with
second_calls = refl

running-IsValid : IsValid running
running-IsValid = record { fresh = λ s e. ground arith; counted = omega arith }

below : Below running.next_token (hooks_of running)
below = (omega arith, tt)

abbrev later : List Callback
later = event 3 ∷ pair 4 ∷ []

unregister-register_example :
    hooks_of (
      unregister (register (event 8) running).1 (register_all later (register (event 8) running).0))
    ≡ hooks_of running ++ tagged (running.next_token + 1) later
unregister-register_example = unregister-register running (event 8) later below (omega arith)

abbrev slot : Slot
slot = record { inner = some 0; generation = 4 }

-- Two installs whose steps alternate.
race-IsConsistent_example :
    IsConsistent slot.generation
      (schedule (0 ∷ 1 ∷ 1 ∷ 0 ∷ 0 ∷ 1 ∷ []) (map fresh (1 ∷ 2 ∷ [])) slot).0
      (schedule (0 ∷ 1 ∷ 1 ∷ 0 ∷ 0 ∷ 1 ∷ []) (map fresh (1 ∷ 2 ∷ [])) slot).1
race-IsConsistent_example = race-IsConsistent (1 ∷ 2 ∷ []) (0 ∷ 1 ∷ 1 ∷ 0 ∷ 0 ∷ 1 ∷ []) slot

-- The slot holds the install whose swap came last, and the other one has the last number.
alternating :
    schedule (0 ∷ 1 ∷ 1 ∷ 0 ∷ 1 ∷ 0 ∷ []) (map fresh (1 ∷ 2 ∷ [])) slot
    ≡ (numbered 1 6 ∷ numbered 2 5 ∷ [], record { inner = some 1; generation = 6 })
unfolding schedule
alternating = refl
