-- ===== src/Asynchronous/Examples.antt =====
-- A bump that falls between the first look of a task and its registration.
use dynamic_config.Prelude.{true, false, List, [], ◌∷◌, ◌≡◌, ◌⊎◌, refl}
use dynamic_config.Asynchronous.{
  Bump, fresh, idle, pending, resolved, Event, bump_moves, task_moves, World, run, registered,
}
use dynamic_config.Asynchronous.Wakeup.{run-wakes}

abbrev start : World
start = record {
  notify = record { generation = 3; waiting = []; woken = false };
  bumps = fresh ∷ [];
  waiter = record { seen = 3; phase = idle };
}

-- The task looks, the bump counts and takes the wakers, and the task registers and looks again.
abbrev between : List Event
between =
    task_moves true
    ∷ task_moves true
    ∷ bump_moves 0
    ∷ bump_moves 0
    ∷ task_moves true
    ∷ task_moves true
    ∷ []

second_look_resolves : (run 7 between start).waiter.phase ≡ resolved
unfolding run
second_look_resolves = refl

-- The task registers and waits, and the bump comes after.
abbrev after : List Event
after =
    task_moves true
    ∷ task_moves true
    ∷ task_moves true
    ∷ task_moves true
    ∷ bump_moves 0
    ∷ bump_moves 0
    ∷ bump_moves 0
    ∷ []

waits : (run 7 after start).waiter.phase ≡ pending
unfolding run
waits = refl

none_wakes : (run 7 after start).bumps ≡ Bump.waking [] ∷ []
unfolding run
none_wakes = refl

run-wakes_example :
    ((run 7 after start).notify.generation ≡ (run 7 after start).waiter.seen)
    ⊎ ((run 7 after start).notify.woken ≡ true)
unfolding registered
run-wakes_example = run-wakes 7 after start refl waits (rw none_wakes refl) (rw none_wakes refl)
