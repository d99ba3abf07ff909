-- ===== src/Group/Atomic.antt =====
-- A group reloads all of its members or none.
use dynamic_config.Prelude.{
  ℕ, Option, none, some, List, [], ◌∷◌, ◌≡◌, inl, inr, refl, arith, subst, sym, Option-cases,
}
use dynamic_config.Prelude.Results.{Result, ok, err, Result-cases}
use dynamic_config.Error.{Error, prepend_key}
use dynamic_config.Reload.{manual}
use dynamic_config.Cell
use dynamic_config.Cell.{ConfigCell, store_with, record_failure}
use dynamic_config.Lifecycle.{load, prepare, commit, checked}
use dynamic_config.Lifecycle.Install.{load-checked}
use dynamic_config.Group.{Member, Collected, collect, commit_all, reload}

module _ {T : Type 0} where
  -- What readers of a member see: its snapshot and its generation.
  abbrev pub seen : Member T → Option (Option (Cell.Shared T) × ℕ)
  seen m = elim m.builder.install [
    | none ↦ none
    | some cell ↦ some (Cell.load cell, Cell.generation cell)
  ]

  -- Readers see no change in any member.
  abbrev pub Unseen : List (Member T) → List (Member T) → Type 0
  Unseen [] [] = Unit
  Unseen (m ∷ ms) (n ∷ ns) = (seen n ≡ seen m) × Unseen ms ns
  Unseen _ _ = ⊥

  -- Every member installed the value that its own sources loaded to, which passed its validation.
  abbrev pub Renewed : List (Member T) → List (Member T) → Type 0
  Renewed [] [] = Unit
  Renewed (m ∷ ms) (n ∷ ns) =
      (value : T) × (cell : ConfigCell T) × (m.builder.install ≡ some cell)
      × (load m.outside ≡ ok value)
      × (checked m.outside value ≡ ok value)
      × (n.builder.install ≡ some (store_with value manual m.outside.now cell).cell)
      × Renewed ms ns
  Renewed _ _ = ⊥

  Unseen-refl : (ms : List (Member T)) → Unseen ms ms
  Unseen-refl [] = tt
  Unseen-refl (m ∷ ms) = (refl, Unseen-refl ms)

  -- What preparing one member leaves.
  prepare-ok :
      (m : Member T) (value : T)
      → (prepare m.outside m.builder).1 ≡ ok value
      → ((prepare m.outside m.builder).0 ≡ m.builder)
        × (load m.outside ≡ ok value)
        × ((cell : ConfigCell T) × (m.builder.install ≡ some cell))
  unfolding prepare
  prepare-ok m value h = elim (Option-cases m.builder.install) [
    | inl q ↦ absurd (ground (arith, h, q))
    | inr (cell, q) ↦ elim (Result-cases (load m.outside)) [
      | inl (v, l) ↦ (ground (arith, h, q, l), ground (arith, h, q, l), (cell, q))
      | inr (e, l) ↦ absurd (ground (arith, h, q, l))
    ]
  ]

  prepare-seen :
      (m : Member T) → seen (record m { builder = (prepare m.outside m.builder).0 }) ≡ seen m
  unfolding prepare record_failure Cell.load Cell.generation
  prepare-seen m = elim (Option-cases m.builder.install) [
    | inl q ↦ ground (arith, q)
    | inr (cell, q) ↦ elim (Result-cases (load m.outside)) [
      | inl (v, l) ↦ ground (arith, q, l)
      | inr (e, l) ↦ ground (arith, q, l)
    ]
  ]

  -- What the first loop says of the members, when every one of them loaded, and when one did not.
  abbrev Collects : List (Member T) → Collected T → Type 0
  Collects ms c = Unseen ms c.members × elim c.commits as (λ _. Type 0) [
    | err e ↦ Unit
    | ok values ↦ Renewed ms (commit_all values c.members)
  ]

  collect-Collects : (ms : List (Member T)) → Collects ms (collect ms)
  unfolding collect commit_all
  collect-Collects [] = (tt, tt)
  collect-Collects (m ∷ ms) =
      at (prepare m.outside m.builder).1 refl (collect ms).commits refl (collect-Collects ms)
    where
      m' : Member T
      m' = record m { builder = (prepare m.outside m.builder).0 }

      committed :
          (value : T)
          → (prepare m.outside m.builder).1 ≡ ok value
          → (cell : ConfigCell T) → m.builder.install ≡ some cell
          → (commit m.outside value m'.builder).install
            ≡ some (store_with value manual m.outside.now cell).cell
      committed value q cell i = let kept = (prepare-ok m value q).0 in rw kept (ground (arith, i))

      at :
          (o : Result Error T)
          → (prepare m.outside m.builder).1 ≡ o
          → (cs : Result Error (List T)) → (collect ms).commits ≡ cs
          → Collects ms (collect ms)
          → Collects (m ∷ ms) (collect (m ∷ ms))
      at (err e) q cs r ih =
          let shape : collect (m ∷ ms)
              ≡ record { members = m' ∷ ms; commits = err (prepend_key m.name e) } =
            ground (arith, q) in
          subst (Collects (m ∷ ms)) (sym shape) ((prepare-seen m, Unseen-refl ms), tt)
      at (ok value) q (err e) r ih =
          let shape : collect (m ∷ ms)
              ≡ record { members = m' ∷ (collect ms).members; commits = err e } =
            ground (arith, q, r) in
          subst (Collects (m ∷ ms)) (sym shape) ((prepare-seen m, ih.0), tt)
      at (ok value) q (ok values) r ih =
          let shape : collect (m ∷ ms)
              ≡ record { members = m' ∷ (collect ms).members; commits = ok (value ∷ values) } =
            ground (arith, q, r) in
          let (kept, loads, (cell, i)) = prepare-ok m value q in
          let later = ih.1 in
          let renewed : Renewed ms (commit_all values (collect ms).members) = rw r at later in
          subst (Collects (m ∷ ms)) (sym shape) (
            (prepare-seen m, ih.0),
            (
              value,
              cell,
              i,
              loads,
              load-checked m.outside value loads,
              committed value q cell i,
              renewed,
            ),
          )

  -- What a reload may leave of the members.
  abbrev pub AllOrNone : List (Member T) → List (Member T) × Result Error (Unit {0}) → Type 0
  AllOrNone ms (ns, ok u) = Renewed ms ns
  AllOrNone ms (ns, err e) = Unseen ms ns

  -- A reload of a group that succeeds has installed in every member the value that the member's own
  -- sources loaded to, which passed the member's validation. One that fails leaves the snapshot and
  -- the generation of every member as they were, also of those that loaded.
  pub reload-AllOrNone : (ms : List (Member T)) → AllOrNone ms (reload ms)
  unfolding reload
  reload-AllOrNone ms = at (collect ms).commits refl (collect-Collects ms)
    where
      at :
          (cs : Result Error (List T))
          → (collect ms).commits ≡ cs
          → Collects ms (collect ms)
          → AllOrNone ms (reload ms)
      at (err e) q h =
          let shape : reload ms ≡ ((collect ms).members, err e) = ground (arith, q) in
          subst (AllOrNone ms) (sym shape) h.0
      at (ok values) q h =
          let shape : reload ms ≡ (commit_all values (collect ms).members, ok tt) =
            ground (arith, q) in
          let renewed = h.1 in subst (AllOrNone ms) (sym shape) (rw q at renewed)
