-- ===== src/Asynchronous.antt =====
-- dynamic-config/src/asynchronous.rs: the counter that tells a waiting task of a new snapshot, as the
-- atomic steps of the tasks that bump it and of one task that waits.
pub mod Wakeup
mod Examples
use dynamic_config.Prelude.{
  ℕ, zero, suc, Bool, true, false, List, [], ◌∷◌, ◌++◌, ◌+◌, ◌%◌, ◌^◌, ◌==◌, ◌||◌, not,
  if◌then◌else◌,
}

-- `struct Notify`, with the wakers told apart by numbers, and whether the waker that is followed was
-- called since its task polled last.
pub record Notify : Type 0 where
  pub generation : ℕ
  pub waiting : List ℕ
  pub woken : Bool

-- Where a call of `bump` stands: not begun, between `fetch_add` and the lock, or with these wakers
-- still to call.
pub data Bump : Type 0 where
  fresh counted : Bump
  waking : List ℕ → Bump

-- Where the waiting task stands in `poll_with`.
pub data Phase : Type 0 where
  idle checking registering rechecking pending resolved : Phase

-- `struct Changes`, as far as `poll_with` needs it, with where its task stands.
pub record Waiter : Type 0 where
  pub seen : ℕ
  pub phase : Phase

-- `existing.will_wake(waker)` of any
unfoldable pub registered : ℕ → List ℕ → Bool
registered me [] = false
registered me (w ∷ ws) = w == me || registered me ws

-- `Notify::register`
unfoldable pub register : ℕ → Notify → Notify
unfolding registered
register me n = if registered me n.waiting then n else record n { waiting = n.waiting ++ (me ∷ []) }

-- The next step of `Notify::bump`.
unfoldable pub advance : ℕ → Bump → Notify → Bump × Notify
advance me fresh n = (counted, record n { generation = (n.generation + 1) % 2 ^ 64 })
advance me counted n = (waking n.waiting, record n { waiting = [] })
advance me (waking []) n = (waking [], n)
advance me (waking (w ∷ ws)) n = (waking ws, record n { woken = n.woken || w == me })

-- The bump at an index makes its next step.
unfoldable pub move : ℕ → ℕ → List Bump → Notify → List Bump × Notify
unfolding advance
move me i [] n = ([], n)
move me zero (b ∷ bs) n = let (b', n') = advance me b n in (b' ∷ bs, n')
move me (suc i) (b ∷ bs) n = let (bs', n') = move me i bs n in (b ∷ bs', n')

-- `attempt`: what the task has seen after it, and whether it resolves; `loaded` is whether `load`
-- gave a value.
unfoldable pub attempt : Bool → Notify → ℕ → ℕ × Bool
attempt loaded n seen = if n.generation == seen then (seen, false) else (n.generation, loaded)

-- The next step of `poll_with` from where the task stands; a task that is not in it is polled.
unfoldable pub poll_from : Phase → ℕ → Bool → Waiter → Notify → Waiter × Notify
unfolding attempt register
poll_from checking me loaded w n =
    let (seen, done) = attempt loaded n w.seen in
    (record { seen = seen; phase = if done then resolved else registering }, n)
poll_from registering me loaded w n = (record w { phase = rechecking }, register me n)
poll_from rechecking me loaded w n =
    let (seen, done) = attempt loaded n w.seen in
    (record { seen = seen; phase = if done then resolved else pending }, n)
poll_from _ me loaded w n = (record w { phase = checking }, record n { woken = false })

-- What may happen next: a step of a bump, of the task, or another task that registers.
pub data Event : Type 0 where
  bump_moves : ℕ → Event
  task_moves : (loaded : Bool) → Event
  other_registers : ℕ → Event

pub record World : Type 0 where
  pub notify : Notify
  pub bumps : List Bump
  pub waiter : Waiter

unfoldable pub happen : ℕ → Event → World → World
unfolding move poll_from register
happen me (bump_moves i) s =
    let (bumps, notify) = move me i s.bumps s.notify in record s { notify = notify; bumps = bumps }
happen me (task_moves loaded) s =
    let (waiter, notify) = poll_from s.waiter.phase me loaded s.waiter s.notify in
    record s { notify = notify; waiter = waiter }
happen me (other_registers other) s = record s { notify = register other s.notify }

unfoldable pub run : ℕ → List Event → World → World
unfolding happen
run me [] s = s
run me (e ∷ es) s = run me es (happen me e s)
