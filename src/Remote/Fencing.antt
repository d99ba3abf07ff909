-- ===== src/Remote/Fencing.antt =====
-- The fence: a fetch that a `set` or a `clear` overtook does not land, and no other one is lost.
use dynamic_config.Prelude.{some, List, [], ◌∷◌, ◌+◌, ◌%◌, ◌^◌, ◌<◌, ◌≡◌, arith}
use dynamic_config.Remote.{
  State, Fetched, fence_of, set, clear, commit, record_fetch, record_fetch_failure, install_if,
}
use dynamic_config.Remote.Ops.{Op, apply, run, sets, clears}

-- The counters are those of a `u64`.
pub record InRange (s : State) : Type 0 where
  pub generation : s.generation < 2 ^ 64
  pub cleared : s.cleared < 2 ^ 64

pub apply-InRange : (op : Op) {s : State} → InRange s → InRange (apply op s)
unfolding apply set clear commit record_fetch record_fetch_failure install_if
apply-InRange (Op.set source) h = ground arith
apply-InRange _ h = ground arith

generation-apply :
    (op : Op) (ops : List Op) (s : State)
    → InRange s
    → ((apply op s).generation + sets ops) % 2 ^ 64 ≡ (s.generation + sets (op ∷ ops)) % 2 ^ 64
unfolding apply set clear commit record_fetch record_fetch_failure install_if
generation-apply (Op.set source) ops s h = ground arith
generation-apply _ ops s h = ground arith

cleared-apply :
    (op : Op) (ops : List Op) (s : State)
    → InRange s
    → ((apply op s).cleared + clears ops) % 2 ^ 64 ≡ (s.cleared + clears (op ∷ ops)) % 2 ^ 64
unfolding apply set clear commit record_fetch record_fetch_failure install_if
cleared-apply (Op.set source) ops s h = ground arith
cleared-apply _ ops s h = ground arith

pub InRange-run : (ops : List Op) {s : State} → InRange s → InRange (run ops s)
unfolding run
InRange-run [] h = h
InRange-run (op ∷ ops) h = InRange-run ops (apply-InRange op h)

pub generation-run :
    (ops : List Op) (s : State)
    → InRange s
    → (run ops s).generation ≡ (s.generation + sets ops) % 2 ^ 64
unfolding run
generation-run [] s h = ground arith
generation-run (op ∷ ops) s h =
    ground
      (arith, generation-run ops (apply op s) (apply-InRange op h), generation-apply op ops s h)

pub cleared-run :
    (ops : List Op) (s : State)
    → InRange s
    → (run ops s).cleared ≡ (s.cleared + clears ops) % 2 ^ 64
unfolding run
cleared-run [] s h = ground arith
cleared-run (op ∷ ops) s h =
    ground (arith, cleared-run ops (apply op s) (apply-InRange op h), cleared-apply op ops s h)

-- A document whose fetch began before a `set` or a `clear`, with fewer than 2^64 of each since and
-- counters in range, does not land: the state is the one that the others left.
pub commit_overtaken :
    (s : State) (during : List Op) (d : Fetched)
    → InRange s
    → sets during < 2 ^ 64
    → clears during < 2 ^ 64
    → 0 < sets during + clears during
    → commit d (fence_of s) (run during s) ≡ run during s
unfolding commit
commit_overtaken s during d h a b p =
    ground (arith, generation-run during s h, cleared-run during s h)

-- A document lands if no source was installed and nothing was cleared since its fetch began,
-- whatever other fetches and deliveries did, for counters in range.
pub commit_lands :
    (s : State) (during : List Op) (d : Fetched)
    → InRange s
    → sets during ≡ 0
    → clears during ≡ 0
    → (commit d (fence_of s) (run during s)).fetched ≡ some d
unfolding commit
commit_lands s during d h a b = ground (arith, generation-run during s h, cleared-run during s h)
