-- ===== src/Cell/Race/Consistent.antt =====
-- Overlapping installs get different numbers, and every number is published.
use dynamic_config.Prelude.{map, ℕ, zero, suc, List, [], ◌∷◌, ◌+◌, ◌≤◌, ◌≡◌, refl, arith, All}
use dynamic_config.Cell.Race.{
  Phase, fresh, ready, swapped, numbered, Slot, advance, move, schedule, numbers, Differ, AllDiffer,
  Within, IsConsistent,
}

generation-move :
    (i : ℕ) (ps : List Phase) (s : Slot)
    → (move i ps s).1.generation + numbers ps ≡ s.generation + numbers (move i ps s).0
unfolding move
generation-move i [] s = refl
generation-move zero (fresh a ∷ ps) s = omega arith
generation-move zero (ready a ∷ ps) s = omega arith
generation-move zero (swapped a ∷ ps) s = omega arith
generation-move zero (numbered a g ∷ ps) s = omega arith
generation-move (suc i) (fresh a ∷ ps) s = omega (arith, generation-move i ps s)
generation-move (suc i) (p ∷ ps) s = omega (arith, generation-move i ps s)

generation-le-move :
    (i : ℕ) (ps : List Phase) (s : Slot) → s.generation ≤ (move i ps s).1.generation
unfolding move
generation-le-move i [] s = omega arith
generation-le-move zero (fresh a ∷ ps) s = omega arith
generation-le-move zero (ready a ∷ ps) s = omega arith
generation-le-move zero (swapped a ∷ ps) s = omega arith
generation-le-move zero (numbered a g ∷ ps) s = omega arith
generation-le-move (suc i) (p ∷ ps) s = generation-le-move i ps s

Within-mono : (n m : ℕ) (p : Phase) → n ≤ m → Within n p → Within m p
Within-mono n m (numbered a g) h w = omega arith
Within-mono n m (fresh a) h w = tt
Within-mono n m (ready a) h w = tt
Within-mono n m (swapped a) h w = tt

All-Within-mono : (n m : ℕ) (ps : List Phase) → n ≤ m → All (Within n) ps → All (Within m) ps
All-Within-mono n m [] h w = tt
All-Within-mono n m (p ∷ ps) h w = (Within-mono n m p h w.0, All-Within-mono n m ps h w.1)

Within-move :
    (i : ℕ) (ps : List Phase) (s : Slot)
    → All (Within s.generation) ps
    → All (Within (move i ps s).1.generation) (move i ps s).0
unfolding move
Within-move i [] s w = tt
Within-move zero (fresh a ∷ ps) s w = w
Within-move zero (ready a ∷ ps) s w = w
Within-move zero (swapped a ∷ ps) s w =
    (omega arith, All-Within-mono s.generation (s.generation + 1) ps (omega arith) w.1)
Within-move zero (numbered a g ∷ ps) s w = w
Within-move (suc i) (p ∷ ps) s w = (
  Within-mono s.generation (move i ps s).1.generation p (generation-le-move i ps s) w.0,
  Within-move i ps s w.1,
)

-- Of two installs one of which has no number there is nothing to say.
Differ-fresh : (p : Phase) (a : ℕ) → Differ p (fresh a)
Differ-fresh (numbered b g) a = tt
Differ-fresh (fresh b) a = tt
Differ-fresh (ready b) a = tt
Differ-fresh (swapped b) a = tt

Differ-ready : (p : Phase) (a : ℕ) → Differ p (ready a)
Differ-ready (numbered b g) a = tt
Differ-ready (fresh b) a = tt
Differ-ready (ready b) a = tt
Differ-ready (swapped b) a = tt

Differ-swapped : (p : Phase) (a : ℕ) → Differ p (swapped a)
Differ-swapped (numbered b g) a = tt
Differ-swapped (fresh b) a = tt
Differ-swapped (ready b) a = tt
Differ-swapped (swapped b) a = tt

-- The number that is given next is no one's.
Differ-next :
    (p : Phase) (a n : ℕ)
    → Within n p
    → Differ p (numbered a (n + 1)) × Differ (numbered a (n + 1)) p
Differ-next (numbered b g) a n w = (omega arith, omega arith)
Differ-next (fresh b) a n w = (tt, tt)
Differ-next (ready b) a n w = (tt, tt)
Differ-next (swapped b) a n w = (tt, tt)

Differ-advance :
    (p q : Phase) (s : Slot) → Within s.generation p → Differ p q → Differ p (advance q s).0
unfolding advance
Differ-advance p (fresh a) s w d = Differ-ready p a
Differ-advance p (ready a) s w d = Differ-swapped p a
Differ-advance p (swapped a) s w d = (Differ-next p a s.generation w).0
Differ-advance p (numbered a h) s w d = d

Differ-move :
    (p : Phase) (i : ℕ) (ps : List Phase) (s : Slot)
    → Within s.generation p
    → All (Differ p) ps
    → All (Differ p) (move i ps s).0
unfolding move
Differ-move p i [] s w d = tt
Differ-move p zero (q ∷ ps) s w d = (Differ-advance p q s w d.0, d.1)
Differ-move p (suc i) (q ∷ ps) s w d = (d.0, Differ-move p i ps s w d.1)

advance-Differ :
    (p q : Phase) (s : Slot) → Within s.generation q → Differ p q → Differ (advance p s).0 q
unfolding advance
advance-Differ (fresh a) q s w d = tt
advance-Differ (ready a) q s w d = tt
advance-Differ (swapped a) q s w d = (Differ-next q a s.generation w).1
advance-Differ (numbered a h) q s w d = d

All-Differ-advance :
    (p : Phase) (ps : List Phase) (s : Slot)
    → All (Within s.generation) ps
    → All (Differ p) ps
    → All (Differ (advance p s).0) ps
All-Differ-advance p [] s w d = tt
All-Differ-advance p (q ∷ ps) s w d =
    (advance-Differ p q s w.0 d.0, All-Differ-advance p ps s w.1 d.1)

AllDiffer-move :
    (i : ℕ) (ps : List Phase) (s : Slot)
    → All (Within s.generation) ps
    → AllDiffer ps
    → AllDiffer (move i ps s).0
unfolding move
AllDiffer-move i [] s w d = tt
AllDiffer-move zero (p ∷ ps) s w d = (All-Differ-advance p ps s w.1 d.0, d.1)
AllDiffer-move (suc i) (p ∷ ps) s w d =
    (Differ-move p i ps s w.0 d.0, AllDiffer-move i ps s w.1 d.1)

move-IsConsistent :
    (start i : ℕ) (ps : List Phase) (s : Slot)
    → IsConsistent start ps s
    → IsConsistent start (move i ps s).0 (move i ps s).1
move-IsConsistent start i ps s h = record {
  published = omega (arith, h.published, generation-move i ps s);
  within = Within-move i ps s h.within;
  differ = AllDiffer-move i ps s h.within h.differ;
}

schedule-IsConsistent :
    (start : ℕ) (is : List ℕ) (ps : List Phase) (s : Slot)
    → IsConsistent start ps s
    → IsConsistent start (schedule is ps s).0 (schedule is ps s).1
unfolding schedule
schedule-IsConsistent start [] ps s h = h
schedule-IsConsistent start (i ∷ is) ps s h =
    schedule-IsConsistent start is (move i ps s).0 (move i ps s).1
      (move-IsConsistent start i ps s h)

numbers-fresh : (addresses : List ℕ) → numbers (map fresh addresses) ≡ 0
numbers-fresh [] = refl
numbers-fresh (a ∷ addresses) = numbers-fresh addresses

Within-fresh : (n : ℕ) (addresses : List ℕ) → All (Within n) (map fresh addresses)
Within-fresh n [] = tt
Within-fresh n (a ∷ addresses) = (tt, Within-fresh n addresses)

All-Differ-fresh : (p : Phase) (addresses : List ℕ) → All (Differ p) (map fresh addresses)
All-Differ-fresh p [] = tt
All-Differ-fresh p (a ∷ addresses) = (Differ-fresh p a, All-Differ-fresh p addresses)

AllDiffer-fresh : (addresses : List ℕ) → AllDiffer (map fresh addresses)
AllDiffer-fresh [] = tt
AllDiffer-fresh (a ∷ addresses) = (All-Differ-fresh (fresh a) addresses, AllDiffer-fresh addresses)

started : (addresses : List ℕ) (s : Slot) → IsConsistent s.generation (map fresh addresses) s
started addresses s = record {
  published = omega (arith, numbers-fresh addresses);
  within = Within-fresh s.generation addresses;
  differ = AllDiffer-fresh addresses;
}

-- Installs that start together, in any interleaving: the generation has gone up by as many as were
-- given a number, no two installs have one number, and no number is above the generation that is
-- published.
pub race-IsConsistent :
    (addresses order : List ℕ) (s : Slot)
    → IsConsistent s.generation
        (schedule order (map fresh addresses) s).0
        (schedule order (map fresh addresses) s).1
race-IsConsistent addresses order s =
    schedule-IsConsistent s.generation order (map fresh addresses) s (started addresses s)
