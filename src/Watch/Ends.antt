-- ===== src/Watch/Ends.antt =====
-- When a round of collecting ends at the latest, and what it makes of the channel.
use dynamic_config.Prelude.{
  ℕ, Option, none, some, List, [], ◌∷◌, ◌++◌, ◌+◌, ◌*◌, ◌≤◌, ◌<◌, ◌≡◌, ◌≢◌, ◌⊎◌, inl, inr, refl,
  sym, ap, subst, arith, All, min, leb, ltb, Option-cases, Bool-cases, length,
}
use dynamic_config.Prelude.Paths.{FilePath}
use dynamic_config.Watch.Quiet.{collect_relevant-none, collect_relevant-some}
use dynamic_config.Watch.{
  Round, dirty, disconnected, blocked, later_of, last_wait, wait_out, quiet_after, collect_relevant,
  no_more, max_wait,
}
use dynamic_config.Watch.Relevance.{Message, Watched, trigger_of}

-- The message was there by the time.
abbrev pub Came : ℕ → ℕ × Message → Type 0
Came t m = m.0 ≤ t

-- How a wait from a time to a deadline ends that a path has triggered.
pub record IsWaited (closes : Option ℕ) (path : FilePath) (now deadline : ℕ)
    (queue : List (ℕ × Message)) (r : Round) : Type 0 where
  pub ends : r.time ≤ deadline
  pub begins : now ≤ r.time
  pub concludes : (r.collected ≡ dirty path) ⊎ ((r.collected ≡ disconnected) × (closes ≢ none))
  pub handled : List (ℕ × Message)
  pub parts : queue ≡ handled ++ r.left
  pub came : All (Came r.time) handled

last_wait-IsWaited :
    (closes : Option ℕ) (now deadline quiet : ℕ) (path : FilePath)
    → now ≤ min quiet deadline
    → IsWaited closes path now deadline [] (last_wait closes now (min quiet deadline) path)
unfolding last_wait
last_wait-IsWaited none now deadline quiet path h = record {
  ends = ground arith;
  begins = h;
  concludes = inl refl;
  handled = [];
  parts = refl;
  came = tt;
}
last_wait-IsWaited (some c) now deadline quiet path h =
    elim (Bool-cases (ltb (later_of now c) (min quiet deadline))) [
      | inl e ↦ rw e (record {
        ends = ground arith;
        begins = ground arith;
        concludes = inr (refl, λ q. cc);
        handled = [];
        parts = refl;
        came = tt;
      })
      | inr e ↦ rw e (record {
        ends = ground arith;
        begins = h;
        concludes = inl refl;
        handled = [];
        parts = refl;
        came = tt;
      })
    ]

module _ (watched : Watched) (debounce : ℕ) (closes : Option ℕ) where
  -- A wait that ends with nothing handled.
  at_once :
      (path : FilePath) (now deadline t : ℕ) (queue : List (ℕ × Message))
      → now ≤ t
      → t ≤ deadline
      → IsWaited closes path now deadline queue
          (record { collected = dirty path; time = t; left = queue })
  at_once path now deadline t queue h k = record {
    ends = k;
    begins = h;
    concludes = inl refl;
    handled = [];
    parts = refl;
    came = tt;
  }

  wait_out-IsWaited :
      (deadline quiet now : ℕ) (path : FilePath) (queue : List (ℕ × Message))
      → now ≤ deadline
      → IsWaited closes path now deadline queue
          (wait_out watched debounce closes deadline quiet now path queue)
  unfolding wait_out
  wait_out-IsWaited deadline quiet now path [] h =
      elim (Bool-cases (leb (min quiet deadline) now)) [
        | inl e ↦ rw e (at_once path now deadline now [] (omega arith) h)
        | inr e ↦ rw e (last_wait-IsWaited closes now deadline quiet path (ground arith))
      ]
  wait_out-IsWaited deadline quiet now path ((a, m) ∷ rest) h =
      elim (Bool-cases (leb (min quiet deadline) now)) [
        | inl e ↦ rw e (at_once path now deadline now ((a, m) ∷ rest) (omega arith) h)
        | inr e ↦ elim (Bool-cases (ltb (later_of now a) (min quiet deadline))) [
          | inr f ↦
              rw (e, f)
                (at_once path now deadline (min quiet deadline) ((a, m) ∷ rest) (ground arith)
                  (ground arith))
          | inl f ↦
              rw (e, f)
                (further (
                  wait_out-IsWaited deadline
                    (quiet_after watched debounce closes (trigger_of watched m) quiet
                      (later_of now a))
                    (later_of now a) path rest (ground arith)))
        ]
      ]
    where
      further :
          {r : Round}
          → IsWaited closes path (later_of now a) deadline rest r
          → IsWaited closes path now deadline ((a, m) ∷ rest) r
      further w = record {
        ends = w.ends;
        begins = ground (arith, w.begins);
        concludes = w.concludes;
        handled = (a, m) ∷ w.handled;
        parts = ap (λ t. (a, m) ∷ t) w.parts;
        came = (ground (arith, w.begins), w.came);
      }

  -- When a loop that passes these messages over is done with the last one.
  abbrev pub arrived : ℕ → List (ℕ × Message) → ℕ
  arrived now [] = now
  arrived now ((a, m) ∷ rest) = arrived (later_of now a) rest

  abbrev pub IsIrrelevant : ℕ × Message → Type 0
  IsIrrelevant m = trigger_of watched m.1 ≡ none

  collect_relevant-append :
      (before : List (ℕ × Message)) (now a : ℕ) (m : Message) (path : FilePath)
      (rest : List (ℕ × Message))
      → All IsIrrelevant before
      → trigger_of watched m ≡ some path
      → collect_relevant watched debounce closes now (before ++ (a, m) ∷ rest)
        ≡ wait_out watched debounce closes
            (later_of (arrived now before) a + max_wait watched debounce closes)
            (later_of (arrived now before) a + debounce)
            (later_of (arrived now before) a)
            path
            rest
  unfolding collect_relevant
  collect_relevant-append [] now a m path rest none_before q = rw (q, collect_relevant) refl
  collect_relevant-append ((b, k) ∷ before) now a m path rest none_before q =
      rw (none_before.0, collect_relevant)
        (collect_relevant-append before (later_of now b) a m path rest none_before.1 q)

  -- The first relevant message opens the window: the round ends at most four debounces after it is
  -- handled, whatever arrives, and with its path, unless the channel closes first.
  pub collect_relevant-ends :
      (before : List (ℕ × Message)) (now a : ℕ) (m : Message) (path : FilePath)
      (rest : List (ℕ × Message))
      → All IsIrrelevant before
      → trigger_of watched m ≡ some path
      → let opened = later_of (arrived now before) a in
        let round = collect_relevant watched debounce closes now (before ++ (a, m) ∷ rest) in
        (opened ≤ round.time)
        × (round.time ≤ opened + debounce * 4)
        × ((round.collected ≡ dirty path) ⊎ ((round.collected ≡ disconnected) × (closes ≢ none)))
  collect_relevant-ends before now a m path rest none_before q =
      let opened = later_of (arrived now before) a in
      let waited =
        wait_out-IsWaited (opened + max_wait watched debounce closes) (opened + debounce) opened
          path rest (omega arith) in
      rw (collect_relevant-append before now a m path rest none_before q)
        (waited.begins, ground (arith, waited.ends), waited.concludes)

  -- What a round makes of the channel: nothing in it is relevant, or it handled some of it.
  pub record IsDrained (now : ℕ) (queue : List (ℕ × Message)) (r : Round) : Type 0 where
    pub path : FilePath
    pub concludes : (r.collected ≡ dirty path) ⊎ ((r.collected ≡ disconnected) × (closes ≢ none))
    pub handled : List (ℕ × Message)
    pub parts : queue ≡ handled ++ r.left
    pub came : All (Came r.time) handled
    pub some_handled : 0 < length handled
    pub begins : now ≤ r.time

  abbrev IsOver : Round → Type 0
  IsOver r = (r.collected ≡ blocked) ⊎ ((r.collected ≡ disconnected) × (closes ≢ none))

  no_more-IsOver :
      (c : Option ℕ) (now : ℕ) → c ≡ closes → IsOver (no_more watched debounce closes c now)
  unfolding no_more
  no_more-IsOver none now e = inl refl
  no_more-IsOver (some c) now e = inr (refl, λ q. cc (e, q))

  abbrev CasesOf : ℕ → List (ℕ × Message) → Round → Type 0
  CasesOf now queue r = (All IsIrrelevant queue × IsOver r) ⊎ IsDrained now queue r

  pass_over :
      (now a : ℕ) (m : Message) (rest : List (ℕ × Message)) (r : Round)
      → IsIrrelevant (a, m)
      → CasesOf (later_of now a) rest r
      → CasesOf now ((a, m) ∷ rest) r
  pass_over now a m rest r q (inl (none_there, over)) = inl ((q, none_there), over)
  pass_over now a m rest r q (inr d) = inr (record {
    path = d.path;
    concludes = d.concludes;
    handled = (a, m) ∷ d.handled;
    parts = ap (λ t. (a, m) ∷ t) d.parts;
    came = (ground (arith, d.begins), d.came);
    some_handled = omega arith;
    begins = ground (arith, d.begins);
  })

  open_window :
      (now a : ℕ) (m : Message) (rest : List (ℕ × Message)) (path : FilePath) (deadline : ℕ)
      (r : Round)
      → IsWaited closes path (later_of now a) deadline rest r
      → CasesOf now ((a, m) ∷ rest) r
  open_window now a m rest path deadline r w = inr (record {
    path = path;
    concludes = w.concludes;
    handled = (a, m) ∷ w.handled;
    parts = ap (λ t. (a, m) ∷ t) w.parts;
    came = (ground (arith, w.begins), w.came);
    some_handled = omega arith;
    begins = ground (arith, w.begins);
  })

  pub collect_relevant-Cases :
      (now : ℕ) (queue : List (ℕ × Message))
      → CasesOf now queue (collect_relevant watched debounce closes now queue)
  unfolding collect_relevant
  collect_relevant-Cases now [] = inl (tt, no_more-IsOver closes now refl)
  collect_relevant-Cases now ((a, m) ∷ rest) = elim (Option-cases (trigger_of watched m)) [
    | inl q ↦
        subst (CasesOf now ((a, m) ∷ rest))
          (sym (collect_relevant-none watched debounce closes now a m rest q))
          (pass_over now a m rest _ q (collect_relevant-Cases (later_of now a) rest))
    | inr (path, q) ↦
        let opened = later_of now a in
        subst (CasesOf now ((a, m) ∷ rest))
          (sym (collect_relevant-some watched debounce closes now a m rest path q))
          (open_window now a m rest path (opened + max_wait watched debounce closes) _ (
            wait_out-IsWaited (opened + max_wait watched debounce closes) (opened + debounce) opened
              path rest (omega arith)))
  ]
