-- ===== src/Remote/Ops.antt =====
-- The operations that other holders of the lock may run between two steps of a refresh.
use dynamic_config.Prelude.{ℕ, Option, List, [], ◌∷◌, suc}
use dynamic_config.Error.{Error}
use dynamic_config.Remote
use dynamic_config.Remote.{State, Kind, Fetched, Fence}

pub data Op : Type 0 where
  set : Kind → Op
  clear : Op
  commit : Fetched → Fence → Op
  record_fetch : Option ℕ → ℕ → ℕ → Op
  record_fetch_failure : Error → ℕ → ℕ → Op
  install_if : ℕ → Fetched → ℕ → Op

unfoldable pub apply : Op → State → State
apply (set source) s = Remote.set source s
apply clear s = Remote.clear s
apply (commit d fence) s = Remote.commit d fence s
apply (record_fetch elapsed now g) s = Remote.record_fetch elapsed now g s
apply (record_fetch_failure e now g) s = Remote.record_fetch_failure e now g s
apply (install_if g d now) s = (Remote.install_if g d now s).0

unfoldable pub run : List Op → State → State
unfolding apply
run [] s = s
run (op ∷ ops) s = run ops (apply op s)

-- How often a source was installed, and how often the document was dropped.
abbrev pub sets : List Op → ℕ
sets [] = 0
sets (set source ∷ ops) = suc (sets ops)
sets (_ ∷ ops) = sets ops

abbrev pub clears : List Op → ℕ
clears [] = 0
clears (clear ∷ ops) = suc (clears ops)
clears (_ ∷ ops) = clears ops
