-- ===== src/Remote/Watch.antt =====
-- dynamic-config/src/remote/watch.rs: the flag that ends a watch loop, and the sleep that heeds it.
-- A `Duration` is its nanoseconds.
use dynamic_config.Prelude.{
  ℕ, zero, suc, Option, none, some, ◌+◌, ◌-◌, ◌*◌, ◌/◌, ◌<◌, ◌≤◌, ◌≡◌, arith, Bool, true, false,
  ◌&&◌, ltb, min, ◌⊎◌, inl, inr, if◌then◌else◌,
}

-- The shared flag: its value, and whether an `Arc` still owns it.
pub record RemoteWatch : Type 0 where
  pub running : Bool
  pub owned : Bool

-- `RemoteWatch::new`
abbrev pub new : RemoteWatch
new = record { running = true; owned = true }

-- `RemoteWatch::stop`
unfoldable pub stop : RemoteWatch → RemoteWatch
stop w = record w { running = false }

-- `RemoteWatch::is_stopped`
unfoldable pub is_stopped : RemoteWatch → Bool
is_stopped w = elim w.running [ true ↦ false | false ↦ true ]

-- `RemoteWatch::detach`: the handle is forgotten, and its `Arc` is never dropped.
unfoldable pub detach : RemoteWatch → RemoteWatch
detach w = w

-- `Drop for RemoteWatch`, after which the `Arc` goes.
unfoldable pub drop : RemoteWatch → RemoteWatch
unfolding stop
drop w = record (stop w) { owned = false }

-- `Watching::keep_going`
unfoldable pub keep_going : RemoteWatch → Bool
keep_going w = w.owned && w.running

abbrev pub slice : ℕ
slice = 250_000_000

-- The loop of `Watching::sleep_for`: `going i` is what the i-th test of the flag saw, and `time` is
-- what the thread has slept.
unfoldable pub sleep_loop : (fuel : ℕ) → (going : ℕ → Bool) → (i total slept time : ℕ) → Option ℕ
sleep_loop zero going i total slept time = none
sleep_loop (suc fuel) going i total slept time =
    let rest =
      sleep_loop fuel going (i + 1) total (slept + slice) (time + min slice (total - slept)) in
    if ltb slept total && going i then rest else some time

-- `Watching::sleep_for`
unfoldable pub sleep_for : (going : ℕ → Bool) → ℕ → Option ℕ
unfolding sleep_loop
sleep_for going total = sleep_loop (total / slice + 2) going 0 total 0 0

le-cases : (i k : ℕ) → i ≤ k → (i < k) ⊎ (i ≡ k)
le-cases i k h = ground arith

module _ (going : ℕ → Bool) (total : ℕ) where
  sleep_loop_going :
      (fuel i slept time : ℕ)
      → ((j : ℕ) → going j ≡ true)
      → total < slept + (fuel - 1) * slice + 1
      → 0 < fuel
      → time ≡ min total slept
      → sleep_loop fuel going i total slept time ≡ some total
  unfolding sleep_loop
  sleep_loop_going zero i slept time g b f e = absurd (omega arith)
  sleep_loop_going (suc fuel) i slept time g b f e = ground (
    arith,
    g i,
    sleep_loop_going fuel (i + 1) (slept + slice) (time + min slice (total - slept)) g,
  )

  -- While the watch runs, `sleep_for` ends, having slept exactly the whole time.
  pub sleep_for_whole : ((j : ℕ) → going j ≡ true) → sleep_for going total ≡ some total
  unfolding sleep_for
  sleep_for_whole g =
      sleep_loop_going (total / slice + 2) 0 0 0 g (omega arith) (omega arith) (omega arith)

  sleep_loop_stopped :
      (fuel i slept time k : ℕ)
      → ((j : ℕ) → j < k → going j ≡ true)
      → going k ≡ false
      → i ≤ k
      → slept ≡ i * slice
      → total < slept + (fuel - 1) * slice + 1
      → 0 < fuel
      → time ≡ min total slept
      → sleep_loop fuel going i total slept time ≡ some (min total (k * slice))
  unfolding sleep_loop
  sleep_loop_stopped zero i slept time k g s h m b f e = absurd (omega arith)
  sleep_loop_stopped (suc fuel) i slept time k g s h m b f e = elim (le-cases i k h) [
    | inl before ↦ ground (
      arith,
      g i before,
      sleep_loop_stopped fuel (i + 1) (slept + slice) (time + min slice (total - slept)) k g s,
    )
    | inr here ↦ let off : going i ≡ false = rw here s in ground (arith, off)
  ]

  -- If the flag is first seen cleared at the k-th test, `sleep_for` ends, having slept k slices or
  -- the whole time, whichever is less.
  pub sleep_for_stopped :
      (k : ℕ)
      → ((j : ℕ) → j < k → going j ≡ true)
      → going k ≡ false
      → sleep_for going total ≡ some (min total (k * slice))
  unfolding sleep_for
  sleep_for_stopped k g s =
      sleep_loop_stopped (total / slice + 2) 0 0 0 k g s (omega arith) (omega arith) (omega arith)
        (omega arith) (omega arith)
