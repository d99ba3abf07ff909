-- ===== src/Server/Streams.antt =====
-- dynamic-config-server/src/routes/stream.rs and the ceiling of server.rs: what a change stream
-- sends, and how many are open.
pub mod Ascending
pub mod Ceiling
use dynamic_config.Prelude.{
  ℕ, Bool, true, false, Option, none, some, List, [], ◌∷◌, ◌+◌, ◌==◌, ltb, leb, not, if◌then◌else◌,
}
use dynamic_config.Prelude.Text.{Text}

-- `struct Generations`: the section is read through its generation, and the change handle through
-- the answers that it gives.
pub record Generations : Type 0 where
  pub application : Text
  pub profile : Text
  pub sent : Option ℕ
  pub resume : Option ℕ

-- `Generations::is_news`
unfoldable pub is_news : Generations → ℕ → Bool
is_news g generation = if generation == 0 then false else elim g.sent [
  | some sent ↦ ltb sent generation
  | none ↦ elim g.resume [ some resumed ↦ not (generation == resumed) | none ↦ true ]
]

-- What one call of `poll_next` answers.
pub data Poll : Type 0 where
  ready : ℕ → Poll
  pending : Poll

-- `poll_next`; the list has what each round read as the generation, until a change was awaited that
-- has not come. The rounds before it are those in which `changed` was ready at once.
unfoldable pub poll_next : List ℕ → Generations → Generations × Poll
unfolding is_news
poll_next [] g = (g, pending)
poll_next (generation ∷ rest) g =
    let later = poll_next rest g in
    if is_news g generation then (record g { sent = some generation }, ready generation) else later

-- A stream polled again and again: the generations that it sent.
unfoldable pub poll_all : List (List ℕ) → Generations → Generations × List ℕ
unfolding poll_next
poll_all [] g = (g, [])
poll_all (reads ∷ rest) g =
    let (g', answer) = poll_next reads g in
    let (g'', sent) = poll_all rest g' in
    elim answer [ ready n ↦ (g'', n ∷ sent) | pending ↦ (g'', sent) ]

-- `Server::streams_enabled`
unfoldable pub streams_enabled : ℕ → Bool
streams_enabled max_streams = ltb 0 max_streams

-- `Server::open_stream`, run alone: the count after it, if there is room.
unfoldable pub open_stream : ℕ → ℕ → Option ℕ
open_stream max_streams streams = if leb max_streams streams then none else some (streams + 1)
