-- ===== src/Server/Streams/Ascending.antt =====
-- A stream never repeats itself and never goes back.
use dynamic_config.Prelude.{
  ℕ, true, Option, none, some, List, [], ◌∷◌, ◌≡◌, ◌≢◌, ◌<◌, refl, arith, subst, Bool-cases, inl,
  inr,
}
use dynamic_config.Server.Streams.{Generations, Poll, ready, pending, is_news, poll_next, poll_all}

-- Each number is above the one before.
abbrev pub Ascends : ℕ → List ℕ → Type 0
Ascends n [] = Unit
Ascends n (m ∷ ms) = (n < m) × Ascends m ms

-- The last generation that was sent, or 0.
abbrev pub sent_so_far : Generations → ℕ
sent_so_far g = elim g.sent [ none ↦ 0 | some n ↦ n ]

-- The first one sent is not the generation that the client resumed from.
abbrev pub IsFresh : Generations → List ℕ → Type 0
IsFresh g [] = Unit
IsFresh g (n ∷ ns) = elim g.sent [
  | some m ↦ Unit {0}
  | none ↦ elim g.resume [ none ↦ Unit {0} | some m ↦ n ≢ m ]
]

abbrev MoveOn : Generations → Generations × Poll → Type 0
MoveOn g (g', ready n) = (sent_so_far g < n) × (g'.sent ≡ some n) × IsFresh g (n ∷ [])
MoveOn g (g', pending) = g' ≡ g

poll_next-MoveOn : (reads : List ℕ) (g : Generations) → MoveOn g (poll_next reads g)
unfolding poll_next
poll_next-MoveOn [] g = refl
poll_next-MoveOn (n ∷ reads) g = elim (Bool-cases (is_news g n)) [
  | inl news ↦ rw news (newer g.sent refl news, refl, fresh g.sent refl g.resume refl news)
  | inr old ↦ rw old (poll_next-MoveOn reads g)
]
  where
    newer : (o : Option ℕ) → g.sent ≡ o → is_news g n ≡ true → sent_so_far g < n
    newer none q h = ground (arith, q, h)
    newer (some m) q h = ground (arith, q, h)

    fresh :
        (o : Option ℕ)
        → g.sent ≡ o
        → (r : Option ℕ) → g.resume ≡ r
        → is_news g n ≡ true
        → IsFresh g (n ∷ [])
    fresh (some m) q r p h = rw q tt
    fresh none q none p h = rw (q, p) tt
    fresh none q (some m) p h = rw (q, p) (λ e. ground (arith, q, p, h, e))

-- What a stream sends, polled however often and whatever generations it reads, ascends strictly from
-- what it had sent, is never 0, and does not begin with the generation that the client resumed from.
pub poll_all-Ascends :
    (polls : List (List ℕ)) (g : Generations)
    → Ascends (sent_so_far g) (poll_all polls g).1 × IsFresh g (poll_all polls g).1
unfolding poll_all
poll_all-Ascends [] g = (tt, tt)
poll_all-Ascends (reads ∷ polls) g =
    at (poll_next reads g) refl (poll_next-MoveOn reads g) (λ g'. poll_all-Ascends polls g')
  where
    at :
        (answer : Generations × Poll)
        → poll_next reads g ≡ answer
        → MoveOn g (poll_next reads g)
        → ((g' : Generations)
            → Ascends (sent_so_far g') (poll_all polls g').1 × IsFresh g' (poll_all polls g').1)
        → Ascends (sent_so_far g) (poll_all (reads ∷ polls) g).1
          × IsFresh g (poll_all (reads ∷ polls) g).1
    at (g', ready n) q moved ih =
        let (above, now, fresh) = rw q at moved in
        let later = (ih g').0 in
        let sends : (poll_all (reads ∷ polls) g).1 ≡ n ∷ (poll_all polls g').1 =
          ground (arith, q) in
        let sent : sent_so_far g' ≡ n = ground (arith, now) in
        rw sends ((above, subst (λ k. Ascends k (poll_all polls g').1) sent later), fresh)
    at (g', pending) q moved ih =
        let same = rw q at moved in
        let sends : (poll_all (reads ∷ polls) g).1 ≡ (poll_all polls g).1 =
          ground (arith, q, same) in
        rw sends (ih g)
