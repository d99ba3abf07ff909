-- ===== src/Watch/Quiet.antt =====
-- How long a round of collecting takes, and what has no say in it.
use dynamic_config.Prelude.{
  ℕ, Bool, true, false, Option, none, some, List, [], ◌∷◌, ◌+◌, ◌≤◌, ◌<◌, ◌≡◌, inl, inr, refl, sym,
  ap, ◌∙◌, arith, keep, is_some, min, leb, ltb, Option-cases, Bool-cases, tests,
}
use dynamic_config.Prelude.Paths.{FilePath}
use dynamic_config.Watch.{
  Round, Collected, dirty, later_of, last_wait, wait_out, quiet_after, collect_relevant, no_more,
  max_wait,
}
use dynamic_config.Watch.Relevance.{Message, Watched, trigger_of}

-- What a round concludes, and when.
abbrev pub outcome : Round → Collected × ℕ
outcome r = (r.collected, r.time)

module _ (watched : Watched) (debounce : ℕ) (closes : Option ℕ) where
  abbrev pub is_relevant : ℕ × Message → Bool
  is_relevant m = is_some (trigger_of watched m.1)

  -- The channel closes at the time or later, if it does.
  abbrev pub ClosesFrom : ℕ → Option ℕ → Type 0
  ClosesFrom t none = Unit
  ClosesFrom t (some c) = t ≤ c

  -- The messages arrive in this order, none before the time, and the channel closes after them.
  abbrev pub InOrder : ℕ → List (ℕ × Message) → Type 0
  InOrder t [] = ClosesFrom t closes
  InOrder t ((a, m) ∷ rest) = (t ≤ a) × InOrder a rest

  ClosesFrom-mono : (t u : ℕ) (c : Option ℕ) → t ≤ u → ClosesFrom u c → ClosesFrom t c
  ClosesFrom-mono t u none h w = tt
  ClosesFrom-mono t u (some c) h w = omega arith

  InOrder-mono : (t u : ℕ) (queue : List (ℕ × Message)) → t ≤ u → InOrder u queue → InOrder t queue
  InOrder-mono t u [] h w = ClosesFrom-mono t u closes h w
  InOrder-mono t u ((a, m) ∷ rest) h w = (omega arith, w.1)

  keep-InOrder :
      (t : ℕ) (queue : List (ℕ × Message)) → InOrder t queue → InOrder t (keep is_relevant queue)
  keep-InOrder t [] w = w
  keep-InOrder t ((a, m) ∷ rest) w = elim (Option-cases (trigger_of watched m)) [
    | inl q ↦ rw (q, keep) (InOrder-mono t a (keep is_relevant rest) w.0 (keep-InOrder a rest w.1))
    | inr (path, q) ↦ rw (q, keep) (w.0, keep-InOrder a rest w.1)
  ]

  -- A wait that is over at once.
  wait_out-due :
      (deadline quiet now : ℕ) (path : FilePath) (queue : List (ℕ × Message))
      → min quiet deadline ≤ now
      → outcome (wait_out watched debounce closes deadline quiet now path queue) ≡ (dirty path, now)
  unfolding wait_out
  wait_out-due deadline quiet now path [] h = ground arith
  wait_out-due deadline quiet now path ((a, m) ∷ rest) h = ground arith

  last_wait-idle :
      (c : Option ℕ) (now t target : ℕ) (path : FilePath)
      → ClosesFrom t c
      → now < target
      → target ≤ t
      → outcome (last_wait c now target path) ≡ (dirty path, target)
  unfolding last_wait
  last_wait-idle none now t target path w h k = refl
  last_wait-idle (some c) now t target path w h k = ground arith

  -- A wait in which nothing arrives.
  wait_out-idle :
      (deadline quiet now t : ℕ) (path : FilePath) (queue : List (ℕ × Message))
      → InOrder t queue
      → now < min quiet deadline
      → min quiet deadline ≤ t
      → outcome (wait_out watched debounce closes deadline quiet now path queue)
        ≡ (dirty path, min quiet deadline)
  unfolding wait_out
  wait_out-idle deadline quiet now t path [] w h k =
      ground (arith, last_wait-idle closes now t (min quiet deadline) path w h k)
  wait_out-idle deadline quiet now t path ((a, m) ∷ rest) w h k = ground arith

  last_wait-later :
      (c : Option ℕ) (now t target : ℕ) (path : FilePath)
      → ClosesFrom t c
      → last_wait c (later_of now t) target path ≡ last_wait c now target path
  unfolding last_wait
  last_wait-later none now t target path w = refl
  last_wait-later (some c) now t target path w = ground arith

  -- It does not matter when the wait begins, if nothing arrives before.
  wait_out-later :
      (deadline quiet now t : ℕ) (path : FilePath) (queue : List (ℕ × Message))
      → InOrder t queue
      → now < min quiet deadline
      → later_of now t < min quiet deadline
      → wait_out watched debounce closes deadline quiet (later_of now t) path queue
        ≡ wait_out watched debounce closes deadline quiet now path queue
  unfolding wait_out
  wait_out-later deadline quiet now t path [] w h k =
      ground (arith, last_wait-later closes now t (min quiet deadline) path w)
  wait_out-later deadline quiet now t path ((a, m) ∷ rest) w h k =
      let same : later_of (later_of now t) a ≡ later_of now a = ground arith in
      rw same (ground arith)

  keep-none :
      (a : ℕ) (m : Message) (rest : List (ℕ × Message))
      → trigger_of watched m ≡ none
      → keep is_relevant ((a, m) ∷ rest) ≡ keep is_relevant rest
  keep-none a m rest q = rw (q, keep) refl

  keep-some :
      (a : ℕ) (m : Message) (rest : List (ℕ × Message)) (p : FilePath)
      → trigger_of watched m ≡ some p
      → keep is_relevant ((a, m) ∷ rest) ≡ (a, m) ∷ keep is_relevant rest
  keep-some a m rest p q = rw (q, keep) refl

  -- A message that arrives in time is handled.
  wait_out-none :
      (deadline quiet now : ℕ) (path : FilePath) (a : ℕ) (m : Message) (rest : List (ℕ × Message))
      → trigger_of watched m ≡ none
      → leb (min quiet deadline) now ≡ false
      → ltb (later_of now a) (min quiet deadline) ≡ true
      → wait_out watched debounce closes deadline quiet now path ((a, m) ∷ rest)
        ≡ wait_out watched debounce closes deadline quiet (later_of now a) path rest
  unfolding wait_out quiet_after
  wait_out-none deadline quiet now path a m rest q early comes = rw (early, comes, q) refl

  wait_out-some :
      (deadline quiet now : ℕ) (path : FilePath) (a : ℕ) (m : Message) (rest : List (ℕ × Message))
      (p : FilePath)
      → trigger_of watched m ≡ some p
      → leb (min quiet deadline) now ≡ false
      → ltb (later_of now a) (min quiet deadline) ≡ true
      → wait_out watched debounce closes deadline quiet now path ((a, m) ∷ rest)
        ≡ wait_out watched debounce closes deadline
            (later_of now a + debounce)
            (later_of now a)
            path
            rest
  unfolding wait_out quiet_after
  wait_out-some deadline quiet now path a m rest p q early comes = rw (early, comes, q) refl

  abbrev waits : (deadline quiet now : ℕ) → FilePath → List (ℕ × Message) → Collected × ℕ
  waits deadline quiet now path queue =
      outcome (wait_out watched debounce closes deadline quiet now path queue)

  abbrev collects : ℕ → List (ℕ × Message) → Collected × ℕ
  collects now queue = outcome (collect_relevant watched debounce closes now queue)

  -- Irrelevant messages have no say in how long the flurry is waited out.
  wait_out-keep :
      (deadline quiet now t : ℕ) (path : FilePath) (queue : List (ℕ × Message))
      → InOrder t queue
      → outcome (wait_out watched debounce closes deadline quiet now path queue)
        ≡ outcome
            (wait_out watched debounce closes deadline quiet now path (keep is_relevant queue))
  wait_out-keep deadline quiet now t path [] w = refl
  wait_out-keep deadline quiet now t path ((a, m) ∷ rest) w =
      let went = later_of now a in
      let target = min quiet deadline in
      let ih = λ (q : ℕ). wait_out-keep deadline q went a path rest w.1 in
      elim (Bool-cases (leb target now)) [
        | inl due ↦
            wait_out-due deadline quiet now path ((a, m) ∷ rest) (omega tests)
            ∙ sym (
                wait_out-due deadline quiet now path (keep is_relevant ((a, m) ∷ rest))
                  (omega tests))
        | inr early ↦ elim (Bool-cases (ltb went target)) [
          | inr idle ↦
              wait_out-idle deadline quiet now a path ((a, m) ∷ rest) (omega arith, w.1)
                (ground arith) (ground arith)
              ∙ sym (
                  wait_out-idle deadline quiet now a path (keep is_relevant ((a, m) ∷ rest))
                    (keep-InOrder a ((a, m) ∷ rest) (omega arith, w.1)) (ground arith)
                    (ground arith))
          | inl comes ↦ elim (Option-cases (trigger_of watched m)) [
            | inl q ↦
                ap outcome (wait_out-none deadline quiet now path a m rest q early comes)
                ∙ ih quiet
                ∙ ap outcome (
                    wait_out-later deadline quiet now a path (keep is_relevant rest)
                      (keep-InOrder a rest w.1) (ground arith) (ground arith))
                ∙ sym (ap (waits deadline quiet now path) (keep-none a m rest q))
            | inr (p, q) ↦
                ap outcome (wait_out-some deadline quiet now path a m rest p q early comes)
                ∙ ih (went + debounce)
                ∙ sym (
                    ap outcome (
                      wait_out-some deadline quiet now path a m (keep is_relevant rest) p q early
                        comes))
                ∙ sym (ap (waits deadline quiet now path) (keep-some a m rest p q))
          ]
        ]
      ]

  no_more-later :
      (c : Option ℕ) (now t : ℕ)
      → ClosesFrom t c
      → no_more watched debounce closes c (later_of now t) ≡ no_more watched debounce closes c now
  unfolding no_more
  no_more-later none now t w = refl
  no_more-later (some c) now t w = ground arith

  -- A round whose first message is handled at a time.
  abbrev begins : ℕ → Message → List (ℕ × Message) → Round
  begins went m rest = elim (trigger_of watched m) [
    | none ↦ collect_relevant watched debounce closes went rest
    | some path ↦
        wait_out watched debounce closes (went + max_wait watched debounce closes) (went + debounce)
          went path rest
  ]

  pub collect_relevant-none :
      (now a : ℕ) (m : Message) (rest : List (ℕ × Message))
      → trigger_of watched m ≡ none
      → collect_relevant watched debounce closes now ((a, m) ∷ rest)
        ≡ collect_relevant watched debounce closes (later_of now a) rest
  unfolding collect_relevant
  collect_relevant-none now a m rest q = rw (q, collect_relevant) refl

  pub collect_relevant-some :
      (now a : ℕ) (m : Message) (rest : List (ℕ × Message)) (p : FilePath)
      → trigger_of watched m ≡ some p
      → collect_relevant watched debounce closes now ((a, m) ∷ rest)
        ≡ wait_out watched debounce closes
            (later_of now a + max_wait watched debounce closes)
            (later_of now a + debounce)
            (later_of now a)
            p
            rest
  unfolding collect_relevant
  collect_relevant-some now a m rest p q = rw (q, collect_relevant) refl

  collect_relevant-later :
      (now t : ℕ) (queue : List (ℕ × Message))
      → InOrder t queue
      → collect_relevant watched debounce closes (later_of now t) queue
        ≡ collect_relevant watched debounce closes now queue
  unfolding collect_relevant
  collect_relevant-later now t [] w = no_more-later closes now t w
  collect_relevant-later now t ((a, m) ∷ rest) w = ap (λ went. begins went m rest) (ground arith)

  -- What a round concludes, and when, does not depend on irrelevant messages: with messages that arrive
  -- in order, it is what it would be had none of them arrived.
  pub collect_relevant-keep :
      (now t : ℕ) (queue : List (ℕ × Message))
      → InOrder t queue
      → outcome (collect_relevant watched debounce closes now queue)
        ≡ outcome (collect_relevant watched debounce closes now (keep is_relevant queue))
  collect_relevant-keep now t [] w = refl
  collect_relevant-keep now t ((a, m) ∷ rest) w = elim (Option-cases (trigger_of watched m)) [
    | inl q ↦
        ap outcome (collect_relevant-none now a m rest q)
        ∙ collect_relevant-keep (later_of now a) a rest w.1
        ∙ ap outcome
            (collect_relevant-later now a (keep is_relevant rest) (keep-InOrder a rest w.1))
        ∙ sym (ap (collects now) (keep-none a m rest q))
    | inr (p, q) ↦
        ap outcome (collect_relevant-some now a m rest p q)
        ∙ wait_out-keep (later_of now a + max_wait watched debounce closes)
            (later_of now a + debounce) (later_of now a) a p rest w.1
        ∙ sym (ap outcome (collect_relevant-some now a m (keep is_relevant rest) p q))
        ∙ sym (ap (collects now) (keep-some a m rest p q))
  ]
