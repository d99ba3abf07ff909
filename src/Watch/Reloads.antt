-- ===== src/Watch/Reloads.antt =====
-- Which reloads follow the messages of a watch.
use dynamic_config.Prelude.{
  ℕ, zero, suc, none, some, List, [], ◌∷◌, ◌+◌, ◌≤◌, ◌<◌, ◌≡◌, ◌≢◌, ◌⊎◌, inl, inr, refl, sym, ap,
  subst, arith, All, All-append, length, length-append,
}
use dynamic_config.Watch.{collect_relevant, Reloading, run_rounds, atomic_save_grace}
use dynamic_config.Watch.Relevance.{Message, Watched, trigger_of}
use dynamic_config.Watch.Ends.{Came, collect_relevant-Cases}

-- A reload starts when the message has come, or later.
abbrev pub IsServed : List Reloading → ℕ × Message → Type 0
IsServed [] m = ⊥
IsServed (r ∷ rs) m = (m.0 ≤ r.starts) ⊎ IsServed rs m

-- Every relevant message of these is followed by a reload.
abbrev pub AreServed : Watched → List Reloading → List (ℕ × Message) → Type 0
AreServed watched rs queue =
    All (λ (m : ℕ × Message). trigger_of watched m.1 ≢ none → IsServed rs m) queue

served_here :
    (watched : Watched) (r : Reloading) (rs : List Reloading) (time : ℕ)
    (handled : List (ℕ × Message))
    → time ≤ r.starts
    → All (Came time) handled
    → AreServed watched (r ∷ rs) handled
served_here watched r rs time [] h c = tt
served_here watched r rs time (m ∷ ms) h c =
    (λ loud. inl (omega arith), served_here watched r rs time ms h c.1)

served_later :
    (watched : Watched) (r : Reloading) (rs : List Reloading) (queue : List (ℕ × Message))
    → AreServed watched rs queue
    → AreServed watched (r ∷ rs) queue
served_later watched r rs [] s = tt
served_later watched r rs (m ∷ ms) s = (λ loud. inr (s.0 loud), served_later watched r rs ms s.1)

none_to_serve :
    (watched : Watched) (queue : List (ℕ × Message))
    → All (λ (m : ℕ × Message). trigger_of watched m.1 ≡ none) queue
    → AreServed watched [] queue
none_to_serve watched [] h = tt
none_to_serve watched (m ∷ ms) h = (λ loud. absurd (loud h.0), none_to_serve watched ms h.1)

module _ (watched : Watched) (debounce : ℕ) (lasts : ℕ → ℕ) where
  -- Over a channel that stays open, the loop comes to an end of any finite number of messages, and every
  -- relevant one is followed by a reload that starts when it has come or later: no change is lost.
  pub run_rounds-AreServed :
      (fuel now : ℕ) (queue : List (ℕ × Message))
      → length queue < fuel
      → (reloads : List Reloading) × (run_rounds watched debounce none lasts fuel now queue
          ≡ some reloads)
        × AreServed watched reloads queue
  unfolding run_rounds
  run_rounds-AreServed zero now queue h = absurd (omega arith)
  run_rounds-AreServed (suc fuel) now queue h =
      elim (collect_relevant-Cases watched debounce none now queue) [
        | inl (quiet, inl over) ↦
            ([], rw (over, run_rounds) refl, none_to_serve watched queue quiet)
        | inl (quiet, inr (over, stays)) ↦ absurd (stays refl)
        | inr d ↦ elim d.concludes [
          | inr (over, stays) ↦ absurd (stays refl)
          | inl reload ↦
              let round = collect_relevant watched debounce none now queue in
              let starts = round.time + atomic_save_grace in
              let r : Reloading = record { trigger = d.path; starts = starts } in
              let (rs, e, served) = run_rounds-AreServed fuel (starts + lasts starts) round.left (
                omega
                  (arith, ap length d.parts, length-append d.handled round.left, d.some_handled)) in
              (
                r ∷ rs,
                rw (reload, run_rounds, e) refl,
                subst (AreServed watched (r ∷ rs)) (sym d.parts) (
                    All-append
                      (λ (m : ℕ × Message). trigger_of watched m.1 ≢ none → IsServed (r ∷ rs) m)
                      d.handled round.left
                      (served_here watched r rs round.time d.handled (omega arith) d.came)
                      (served_later watched r rs round.left served)),
              )
        ]
      ]
