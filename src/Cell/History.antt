-- ===== src/Cell/History.antt =====
-- Any sequence of installs, failures, registrations and dropped guards of one cell.
use dynamic_config.Prelude.{
  ℕ, suc, Option, none, some, List, [], ◌∷◌, ◌++◌, ◌+◌, ◌-◌, ◌^◌, ◌<◌, ◌≡◌, ◌==◌, min, refl, arith,
  ◌∙◌,
}
use dynamic_config.Error.{Error}
use dynamic_config.Reload.{ReloadReason, is_healthy}
use dynamic_config.Cell
use dynamic_config.Cell.{
  ConfigCell, Shared, Callback, load, generation, store_with, record_failure, status,
}

pub data Op (T : Type 0) : Type 0 where
  install : T → ReloadReason → ℕ → Op T
  fail : Error → ℕ → Op T
  register : Callback → Op T
  unregister : ℕ → Op T

module _ {T : Type 0} where
  unfoldable pub apply : Op T → ConfigCell T → ConfigCell T
  apply (install value reason now) c = (store_with value reason now c).cell
  apply (fail e now) c = record_failure e now c
  apply (register callback) c = (Cell.register callback c).0
  apply (unregister token) c = Cell.unregister token c

  unfoldable pub run : List (Op T) → ConfigCell T → ConfigCell T
  unfolding apply
  run [] c = c
  run (op ∷ ops) c = run ops (apply op c)

  -- How many installs there are, and how many failures.
  abbrev pub installs : List (Op T) → ℕ
  installs [] = 0
  installs (install value reason now ∷ ops) = suc (installs ops)
  installs (_ ∷ ops) = installs ops

  abbrev pub failures : List (Op T) → ℕ
  failures [] = 0
  failures (fail e now ∷ ops) = suc (failures ops)
  failures (_ ∷ ops) = failures ops

  -- What a reader of a cell sees.
  abbrev pub visible : ConfigCell T → Option T
  visible c = elim (load c) [ none ↦ none | some s ↦ some s.value ]

  -- The value installed last, if there is an install, and `old` if not.
  abbrev pub last_installed : Option T → List (Op T) → Option T
  last_installed old [] = old
  last_installed old (install value reason now ∷ ops) = last_installed (some value) ops
  last_installed old (_ ∷ ops) = last_installed old ops

  generation-apply :
      (op : Op T) (ops : List (Op T)) (c : ConfigCell T)
      → generation (apply op c) + installs ops ≡ generation c + installs (op ∷ ops)
  unfolding apply generation store_with record_failure Cell.register Cell.unregister
  generation-apply (install value reason now) ops c = omega arith
  generation-apply (fail e now) ops c = refl
  generation-apply (register callback) ops c = refl
  generation-apply (unregister token) ops c = ground arith

  visible-apply :
      (op : Op T) (ops : List (Op T)) (c : ConfigCell T)
      → last_installed (visible (apply op c)) ops ≡ last_installed (visible c) (op ∷ ops)
  unfolding apply load store_with record_failure Cell.register Cell.unregister
  visible-apply (install value reason now) ops c = refl
  visible-apply (fail e now) ops c = refl
  visible-apply (register callback) ops c = refl
  visible-apply (unregister token) ops c = ground arith

  -- After any sequence of installs, failures, registrations and dropped guards, the generation has
  -- gone up by the number of installs, and a reader sees the value that was installed last.
  pub run-generation :
      (ops : List (Op T)) (c : ConfigCell T)
      → (generation (run ops c) ≡ generation c + installs ops)
        × (visible (run ops c) ≡ last_installed (visible c) ops)
  unfolding run
  run-generation [] c = (omega arith, refl)
  run-generation (op ∷ ops) c =
      let later = run-generation ops (apply op c) in
      (later.0 ∙ generation-apply op ops c, later.1 ∙ visible-apply op ops c)

  failures-apply :
      (op : Op T) (ops : List (Op T)) (c : ConfigCell T)
      → installs (op ∷ ops) ≡ 0
      → min ((apply op c).consecutive_failures + failures ops) (2 ^ 32 - 1)
        ≡ min (c.consecutive_failures + failures (op ∷ ops)) (2 ^ 32 - 1)
  unfolding apply record_failure Cell.register Cell.unregister
  failures-apply (install value reason now) ops c h = absurd (omega arith)
  failures-apply (fail e now) ops c h = ground arith
  failures-apply (register callback) ops c h = refl
  failures-apply (unregister token) ops c h = ground arith

  counted-apply :
      (op : Op T) (c : ConfigCell T)
      → c.consecutive_failures < 2 ^ 32
      → (apply op c).consecutive_failures < 2 ^ 32
  unfolding apply store_with record_failure Cell.register Cell.unregister
  counted-apply (install value reason now) c h = omega arith
  counted-apply (fail e now) c h = ground arith
  counted-apply (register callback) c h = h
  counted-apply (unregister token) c h = ground arith

  run-streak :
      (ops : List (Op T)) (c : ConfigCell T)
      → c.consecutive_failures < 2 ^ 32
      → installs ops ≡ 0
      → (run ops c).consecutive_failures ≡ min (c.consecutive_failures + failures ops) (2 ^ 32 - 1)
  unfolding run
  run-streak [] c b h = omega arith
  run-streak (op ∷ ops) c b h =
      run-streak ops (apply op c) (counted-apply op c b) (later op h) ∙ failures-apply op ops c h
    where
      later : (op : Op T) → installs (op ∷ ops) ≡ 0 → installs ops ≡ 0
      later (install value reason now) e = absurd (omega arith)
      later (fail e now) e' = e'
      later (register callback) e = e
      later (unregister token) e = e

  run-append : (xs ys : List (Op T)) (c : ConfigCell T) → run (xs ++ ys) c ≡ run ys (run xs c)
  unfolding run
  run-append [] ys c = refl
  run-append (op ∷ xs) ys c = run-append xs ys (apply op c)

  -- After an install that no later one follows, whatever came before it, the failure count is the
  -- number of failures since, up to the end of a `u32`, and the cell reports healthy exactly if
  -- there was none.
  run-health :
      (before after : List (Op T)) (value : T) (reason : ReloadReason) (now : ℕ) (c : ConfigCell T)
      → installs after ≡ 0
      → ((status (run (before ++ (install value reason now ∷ after)) c)).consecutive_failures
          ≡ min (failures after) (2 ^ 32 - 1))
        × (is_healthy (status (run (before ++ (install value reason now ∷ after)) c))
            ≡ (failures after == 0))
  unfolding status is_healthy run apply store_with
  run-health before after value reason now c h =
      let fresh : ConfigCell T = (store_with value reason now (run before c)).cell in
      let parts = run-append before (install value reason now ∷ after) c in
      let streak = run-streak after fresh (omega arith) h in
      (rw parts (omega (arith, streak)), rw parts (ground (arith, streak)))
