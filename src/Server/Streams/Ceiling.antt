-- ===== src/Server/Streams/Ceiling.antt =====
-- dynamic-config-server/src/server.rs: `open_stream` as its atomic steps, with requests that race,
-- and the permits that are dropped.
use dynamic_config.Prelude.{
  ℕ, zero, suc, Bool, false, none, some, List, [], ◌∷◌, ◌+◌, ◌-◌, ◌%◌, ◌^◌, ◌≡◌, ◌≤◌, ◌<◌, ◌==◌,
  leb, not, ◌&&◌, if◌then◌else◌, arith,
}
use dynamic_config.Server.Streams.{open_stream}

-- Where a request stands.
pub data Request : Type 0 where
  arriving refused holding gone : Request
  -- in the loop, with the count that it read last
  looping : ℕ → Request

-- What a request does at its next step: a weak exchange may fail though the count is as it was.
pub record Move : Type 0 where
  pub request : ℕ
  pub spurious : Bool

-- One atomic step of a request, with the count of open streams: the load, a round of the loop, and
-- the drop of the permit.
unfoldable pub advance : ℕ → Bool → Request → ℕ → Request × ℕ
advance max_streams spurious arriving streams = (looping streams, streams)
advance max_streams spurious (looping seen) streams =
    if leb max_streams seen
    then (refused, streams)
    else if seen == streams && not spurious
    then (holding, seen + 1)
    else (looping streams, streams)
advance max_streams spurious holding streams = (gone, (streams + 2 ^ 64 - 1) % 2 ^ 64)
advance max_streams spurious refused streams = (refused, streams)
advance max_streams spurious gone streams = (gone, streams)

-- The request at an index moves.
unfoldable pub move : ℕ → Bool → ℕ → List Request → ℕ → List Request × ℕ
unfolding advance
move max_streams spurious i [] streams = ([], streams)
move max_streams spurious zero (r ∷ rs) streams =
    let (r', streams') = advance max_streams spurious r streams in (r' ∷ rs, streams')
move max_streams spurious (suc i) (r ∷ rs) streams =
    let (rs', streams') = move max_streams spurious i rs streams in (r ∷ rs', streams')

unfoldable pub moves : ℕ → List Move → List Request → ℕ → List Request × ℕ
unfolding move
moves max_streams [] rs streams = (rs, streams)
moves max_streams (m ∷ ms) rs streams =
    let (rs', streams') = move max_streams m.spurious m.request rs streams in
    moves max_streams ms rs' streams'

-- How many requests hold a permit.
abbrev pub held : List Request → ℕ
held [] = 0
held (holding ∷ rs) = suc (held rs)
held (_ ∷ rs) = held rs

held-cons : (r : Request) (rs : List Request) → held (r ∷ rs) ≡ held (r ∷ []) + held rs
held-cons arriving rs = omega arith
held-cons refused rs = omega arith
held-cons holding rs = omega arith
held-cons gone rs = omega arith
held-cons (looping n) rs = omega arith

held-advance :
    (max_streams : ℕ) (spurious : Bool) (r : Request) (streams n : ℕ)
    → max_streams < 2 ^ 64
    → streams ≡ n + held (r ∷ [])
    → streams ≤ max_streams
    → ((advance max_streams spurious r streams).1
        ≡ n + held ((advance max_streams spurious r streams).0 ∷ []))
      × ((advance max_streams spurious r streams).1 ≤ max_streams)
unfolding advance
held-advance m s arriving streams n b h l = (omega arith, l)
held-advance m s (looping seen) streams n b h l = (ground arith, ground arith)
held-advance m s holding streams n b h l = (omega arith, omega arith)
held-advance m s refused streams n b h l = (h, l)
held-advance m s gone streams n b h l = (h, l)

held-move :
    (max_streams : ℕ) (spurious : Bool) (i : ℕ) (rs : List Request) (streams n : ℕ)
    → max_streams < 2 ^ 64
    → streams ≡ n + held rs
    → streams ≤ max_streams
    → ((move max_streams spurious i rs streams).1
        ≡ n + held (move max_streams spurious i rs streams).0)
      × ((move max_streams spurious i rs streams).1 ≤ max_streams)
unfolding move
held-move m s i [] streams n b h l = (h, l)
held-move m s zero (r ∷ rs) streams n b h l =
    let stepped =
      held-advance m s r streams (n + held rs) b (omega (arith, held-cons r rs, held-cons r []))
        l in
    (
      omega (
        arith,
        stepped,
        held-cons (advance m s r streams).0 rs,
        held-cons (advance m s r streams).0 [],
      ),
      stepped.1,
    )
held-move m s (suc i) (r ∷ rs) streams n b h l =
    let stepped =
      held-move m s i rs streams (n + held (r ∷ [])) b (omega (arith, held-cons r rs)) l in
    (omega (arith, stepped, held-cons r (move m s i rs streams).0), stepped.1)

-- However the requests' steps interleave, the count of open streams is at each time the number of
-- requests that hold a permit, and never above the ceiling, which is a `usize`. It starts from such
-- a count.
pub moves-held :
    (max_streams : ℕ) (ms : List Move) (rs : List Request) (streams : ℕ)
    → max_streams < 2 ^ 64
    → streams ≡ held rs
    → streams ≤ max_streams
    → ((moves max_streams ms rs streams).1 ≡ held (moves max_streams ms rs streams).0)
      × ((moves max_streams ms rs streams).1 ≤ max_streams)
unfolding moves
moves-held m [] rs streams b h l = (h, l)
moves-held m (mv ∷ ms) rs streams b h l =
    let stepped = held-move m mv.spurious mv.request rs streams 0 b (omega arith) l in
    moves-held m ms (move m mv.spurious mv.request rs streams).0
      (move m mv.spurious mv.request rs streams).1 b (omega (arith, stepped)) stepped.1

-- A request that nobody disturbs does in two steps what `open_stream` does at once.
pub moves-open_stream :
    (max_streams streams : ℕ)
    → moves max_streams
        (record { request = 0; spurious = false } ∷ record { request = 0; spurious = false } ∷ [])
        (arriving ∷ [])
        streams
      ≡ elim (open_stream max_streams streams) [
        | none ↦ (refused ∷ [], streams)
        | some n ↦ (holding ∷ [], n)
      ]
unfolding moves open_stream
moves-open_stream m streams = ground arith
