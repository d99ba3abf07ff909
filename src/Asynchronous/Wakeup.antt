-- ===== src/Asynchronous/Wakeup.antt =====
-- No wake-up is lost.
use dynamic_config.Prelude.{
  ℕ, zero, suc, Bool, true, false, List, [], ◌∷◌, ◌++◌, ◌≡◌, ◌⊎◌, inl, inr, refl, sym, subst, arith,
  if◌then◌else◌, ◌==◌, ◌||◌, ◌&&◌,
}
use dynamic_config.Asynchronous.{
  Notify, Bump, fresh, counted, waking, Phase, idle, checking, registering, rechecking, pending,
  resolved, registered, register, advance, move, attempt, poll_from, Event, bump_moves, task_moves,
  other_registers, World, happen, run,
}

-- A bump that still has the waker to call, and one that has yet to take the waiting wakers.
abbrev pub will_wake : ℕ → Bump → Bool
will_wake me (waking ws) = registered me ws
will_wake me _ = false

abbrev pub will_take : Bump → Bool
will_take counted = true
will_take _ = false

abbrev pub any_wakes : ℕ → List Bump → Bool
any_wakes me [] = false
any_wakes me (b ∷ bs) = will_wake me b || any_wakes me bs

abbrev pub any_takes : List Bump → Bool
any_takes [] = false
any_takes (b ∷ bs) = will_take b || any_takes bs

-- The waker is registered, or was taken by a bump, or was called; `w` stands for the other bumps.
abbrev reached : ℕ → Bool → Notify → Bool
reached me w n = n.woken || registered me n.waiting || w

-- The waker was called, or will be by the bumps that are under way.
abbrev due : ℕ → Bool → Bool → Notify → Bool
due me w c n = n.woken || w || (registered me n.waiting && c)

registered-append :
    (me : ℕ) (xs ys : List ℕ) → registered me (xs ++ ys) ≡ (registered me xs || registered me ys)
unfolding registered
registered-append me [] ys = refl
registered-append me (x ∷ xs) ys = ground (arith, registered-append me xs ys)

registered-register :
    (me other : ℕ) (n : Notify)
    → registered me (register other n).waiting ≡ (other == me || registered me n.waiting)
unfolding register registered
registered-register me other n =
    ground (arith, registered-append me n.waiting (other ∷ []), twice n.waiting)
  where
    twice : (ws : List ℕ) → registered other ws ≡ true → other ≡ me → registered me ws ≡ true
    twice ws h e = ground (arith, h, e)

advance-reached :
    (me : ℕ) (b : Bump) (n : Notify) (w : Bool)
    → reached me (will_wake me b || w) n ≡ true
    → reached me (will_wake me (advance me b n).0 || w) (advance me b n).1 ≡ true
unfolding advance registered
advance-reached me fresh n w h = h
advance-reached me counted n w h = ground (arith, h)
advance-reached me (waking []) n w h = h
advance-reached me (waking (x ∷ xs)) n w h = ground (arith, h)

advance-due :
    (me : ℕ) (b : Bump) (n : Notify) (w c : Bool)
    → due me (will_wake me b || w) (will_take b || c) n ≡ true
    → due me
        (will_wake me (advance me b n).0 || w)
        (will_take (advance me b n).0 || c)
        (advance me b n).1
      ≡ true
unfolding advance registered
advance-due me fresh n w c h = ground (arith, h)
advance-due me counted n w c h = ground (arith, h)
advance-due me (waking []) n w c h = h
advance-due me (waking (x ∷ xs)) n w c h = ground (arith, h)

-- A bump that counts finds a waker that is reached, and so it is due.
advance-counts :
    (me : ℕ) (b : Bump) (n : Notify) (w c : Bool)
    → reached me (will_wake me b || w) n ≡ true
    → ((advance me b n).1.generation ≡ n.generation)
      ⊎ (due me
            (will_wake me (advance me b n).0 || w)
            (will_take (advance me b n).0 || c)
            (advance me b n).1
          ≡ true)
unfolding advance registered
advance-counts me fresh n w c h = inr (ground (arith, h))
advance-counts me counted n w c h = inl refl
advance-counts me (waking []) n w c h = inl refl
advance-counts me (waking (x ∷ xs)) n w c h = inl refl

or_swap : (a b c : Bool) → (a || (b || c)) ≡ (b || (a || c))
or_swap a b c = ground arith

move-reached :
    (me i : ℕ) (bs : List Bump) (n : Notify) (w : Bool)
    → reached me (any_wakes me bs || w) n ≡ true
    → reached me (any_wakes me (move me i bs n).0 || w) (move me i bs n).1 ≡ true
unfolding move
move-reached me i [] n w h = h
move-reached me zero (b ∷ bs) n w h =
    ground (arith, advance-reached me b n (any_wakes me bs || w) (ground (arith, h)))
move-reached me (suc i) (b ∷ bs) n w h =
    ground (arith, move-reached me i bs n (will_wake me b || w) (ground (arith, h)))

move-due :
    (me i : ℕ) (bs : List Bump) (n : Notify) (w c : Bool)
    → due me (any_wakes me bs || w) (any_takes bs || c) n ≡ true
    → due me
        (any_wakes me (move me i bs n).0 || w)
        (any_takes (move me i bs n).0 || c)
        (move me i bs n).1
      ≡ true
unfolding move
move-due me i [] n w c h = h
move-due me zero (b ∷ bs) n w c h =
    ground
      (arith, advance-due me b n (any_wakes me bs || w) (any_takes bs || c) (ground (arith, h)))
move-due me (suc i) (b ∷ bs) n w c h =
    ground (arith, move-due me i bs n (will_wake me b || w) (will_take b || c) (ground (arith, h)))

move-counts :
    (me i : ℕ) (bs : List Bump) (n : Notify) (w c : Bool)
    → reached me (any_wakes me bs || w) n ≡ true
    → ((move me i bs n).1.generation ≡ n.generation)
      ⊎ (due me
            (any_wakes me (move me i bs n).0 || w)
            (any_takes (move me i bs n).0 || c)
            (move me i bs n).1
          ≡ true)
unfolding move
move-counts me i [] n w c h = inl refl
move-counts me zero (b ∷ bs) n w c h =
    elim (advance-counts me b n (any_wakes me bs || w) (any_takes bs || c) (ground (arith, h))) [
      | inl e ↦ inl e
      | inr d ↦ inr (ground (arith, d))
    ]
move-counts me (suc i) (b ∷ bs) n w c h =
    elim (move-counts me i bs n (will_wake me b || w) (will_take b || c) (ground (arith, h))) [
      | inl e ↦ inl e
      | inr d ↦ inr (ground (arith, d))
    ]

-- A task between its registration and its second look, or one that waits, is reached; and one that
-- waits has seen the counter as it is, or its waker was called or will be.
abbrev Watched : ℕ → World → Phase → Type 0
Watched me s rechecking = reached me (any_wakes me s.bumps) s.notify ≡ true
Watched me s pending =
    (reached me (any_wakes me s.bumps) s.notify ≡ true)
    × ((s.notify.generation ≡ s.waiter.seen)
        ⊎ (due me (any_wakes me s.bumps) (any_takes s.bumps) s.notify ≡ true))
Watched me s _ = Unit

abbrev IsWatched : ℕ → World → Type 0
IsWatched me s = Watched me s s.waiter.phase

bump-Watched :
    (me i : ℕ) (s : World) (p : Phase) → Watched me s p → Watched me (happen me (bump_moves i) s) p
unfolding happen
bump-Watched me i s idle h = tt
bump-Watched me i s checking h = tt
bump-Watched me i s registering h = tt
bump-Watched me i s resolved h = tt
bump-Watched me i s rechecking h =
    ground (arith, move-reached me i s.bumps s.notify false (ground (arith, h)))
bump-Watched me i s pending h = (
  ground (arith, move-reached me i s.bumps s.notify false (ground (arith, h))),
  elim h.1 [
    | inr d ↦ inr (ground (arith, move-due me i s.bumps s.notify false false (ground (arith, d))))
    | inl e ↦ elim (move-counts me i s.bumps s.notify false false (ground (arith, h))) [
      | inl k ↦ inl (ground (arith, k, e))
      | inr d ↦ inr (ground (arith, d))
    ]
  ],
)

register-keeps :
    (other : ℕ) (n : Notify)
    → ((register other n).generation ≡ n.generation) × ((register other n).woken ≡ n.woken)
unfolding register
register-keeps other n = (ground arith, ground arith)

register-reached :
    (me other : ℕ) (w : Bool) (n : Notify)
    → reached me w n ≡ true
    → reached me w (register other n) ≡ true
register-reached me other w n h =
    ground (arith, h, registered-register me other n, (register-keeps other n).1)

register-due :
    (me other : ℕ) (w c : Bool) (n : Notify)
    → due me w c n ≡ true
    → due me w c (register other n) ≡ true
register-due me other w c n h =
    ground (arith, h, registered-register me other n, (register-keeps other n).1)

-- What was seen after a look is what the counter is.
attempt-seen : (loaded : Bool) (n : Notify) (seen : ℕ) → n.generation ≡ (attempt loaded n seen).0
unfolding attempt
attempt-seen loaded n seen = ground arith

other-Watched :
    (me other : ℕ) (s : World) (p : Phase)
    → Watched me s p
    → Watched me (happen me (other_registers other) s) p
unfolding happen
other-Watched me other s idle h = tt
other-Watched me other s checking h = tt
other-Watched me other s registering h = tt
other-Watched me other s resolved h = tt
other-Watched me other s rechecking h = register-reached me other (any_wakes me s.bumps) s.notify h
other-Watched me other s pending h = (
  register-reached me other (any_wakes me s.bumps) s.notify h.0,
  elim h.1 [
    | inl e ↦ inl (ground (arith, (register-keeps other s.notify).0, e))
    | inr d ↦ inr (register-due me other (any_wakes me s.bumps) (any_takes s.bumps) s.notify d)
  ],
)

polled : ℕ → Bool → World → Phase → World
polled me loaded s p =
    let (waiter, notify) = poll_from p me loaded s.waiter s.notify in
    record s { notify = notify; waiter = waiter }

polled-Watched :
    (me : ℕ) (loaded : Bool) (s : World) (p : Phase)
    → Watched me s p
    → IsWatched me (polled me loaded s p)
unfolding polled poll_from
polled-Watched me loaded s idle h = tt
polled-Watched me loaded s pending h = tt
polled-Watched me loaded s resolved h = tt
polled-Watched me loaded s registering h = ground (arith, registered-register me me s.notify)
polled-Watched me loaded s checking h = at (attempt loaded s.notify s.waiter.seen).1
  where
    after : Bool → World
    after b = record s {
      waiter = record {
        seen = (attempt loaded s.notify s.waiter.seen).0;
        phase = if b then resolved else registering;
      };
    }

    at : (b : Bool) → IsWatched me (after b)
    at true = tt
    at false = tt
polled-Watched me loaded s rechecking h =
    at (attempt loaded s.notify s.waiter.seen).1 (attempt-seen loaded s.notify s.waiter.seen)
  where
    after : Bool → World
    after b = record s {
      waiter = record {
        seen = (attempt loaded s.notify s.waiter.seen).0;
        phase = if b then resolved else pending;
      };
    }

    at :
        (b : Bool)
        → s.notify.generation ≡ (attempt loaded s.notify s.waiter.seen).0
        → IsWatched me (after b)
    at true e = tt
    at false e = (h, inl e)

happen-IsWatched : (me : ℕ) (e : Event) (s : World) → IsWatched me s → IsWatched me (happen me e s)
unfolding happen polled
happen-IsWatched me (bump_moves i) s h = bump-Watched me i s s.waiter.phase h
happen-IsWatched me (task_moves loaded) s h = polled-Watched me loaded s s.waiter.phase h
happen-IsWatched me (other_registers other) s h = other-Watched me other s s.waiter.phase h

run-IsWatched : (me : ℕ) (es : List Event) (s : World) → IsWatched me s → IsWatched me (run me es s)
unfolding run
run-IsWatched me [] s h = h
run-IsWatched me (e ∷ es) s h = run-IsWatched me es (happen me e s) (happen-IsWatched me e s h)

-- Whatever bumps, however many, run beside a task that waits and in whatever order all their steps
-- fall: once no bump is under way, a task whose `poll_with` returned `Pending` has seen the counter
-- as it is, or its waker was called after it was polled last. The task starts anywhere but between
-- two steps of `poll_with`, not waiting.
pub run-wakes :
    (me : ℕ) (es : List Event) (s : World)
    → s.waiter.phase ≡ idle
    → (run me es s).waiter.phase ≡ pending
    → any_wakes me (run me es s).bumps ≡ false
    → any_takes (run me es s).bumps ≡ false
    → ((run me es s).notify.generation ≡ (run me es s).waiter.seen)
      ⊎ ((run me es s).notify.woken ≡ true)
run-wakes me es s q p w c =
    let watched = run-IsWatched me es s (subst (Watched me s) (sym q) tt) in
    let waits : Watched me (run me es s) pending = subst (Watched me (run me es s)) p watched in
    elim waits.1 [ inl e ↦ inl e | inr d ↦ inr (ground (arith, d, w, c)) ]
