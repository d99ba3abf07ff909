-- ===== src/Prelude/Text.antt =====
-- Text as its code points, with the order of `str`: byte order of UTF-8 is code point order. The
-- functions are those of Rust's `str` that the program walks its text with.
use Prim.Native.Nat.{ℕ, compare, Ordering}
use Prim.Native.Nat.Ordering.{lt, eq, gt}
use Prim.Native.Char.{code}
use Prim.Native.String.{String}
use mathlib.Core.Path.{◌≡◌, refl}
use mathlib.Core.Logic.{◌↔◌, ◌≢◌}
use mathlib.Core.Bool.{Bool, true, false}
use mathlib.Core.List.{List, [], ◌∷◌, ◌++◌}
use native.Mathlib.Omega.{arith}

abbrev pub Text : Type 0
Text = List ℕ

-- The code points of a literal.
abbrev pub codes : String → Text
codes String.[] = []
codes (String.◌∷◌ c s) = code c ∷ codes s

-- `str::cmp`
unfoldable pub cmp : Text → Text → Ordering
cmp [] [] = eq
cmp [] (y ∷ ys) = lt
cmp (x ∷ xs) [] = gt
cmp (x ∷ xs) (y ∷ ys) = elim (compare x y) [ lt ↦ lt | eq ↦ cmp xs ys | gt ↦ gt ]

pub cmp_refl : (a : Text) → cmp a a ≡ eq
unfolding cmp
cmp_refl [] = refl
cmp_refl (x ∷ xs) = ground (arith, cmp_refl xs)

pub eq_of_cmp : (a b : Text) → cmp a b ≡ eq → a ≡ b
unfolding cmp
eq_of_cmp [] [] h = refl
eq_of_cmp [] (y ∷ ys) h = absurd (ground arith)
eq_of_cmp (x ∷ xs) [] h = absurd (ground arith)
eq_of_cmp (x ∷ xs) (y ∷ ys) h = ground (arith, eq_of_cmp xs ys)

pub lt_of_gt : (a b : Text) → cmp a b ≡ gt → cmp b a ≡ lt
unfolding cmp
lt_of_gt [] [] h = ground arith
lt_of_gt [] (y ∷ ys) h = ground arith
lt_of_gt (x ∷ xs) [] h = refl
lt_of_gt (x ∷ xs) (y ∷ ys) h = ground (arith, lt_of_gt xs ys)

pub gt_of_lt : (a b : Text) → cmp a b ≡ lt → cmp b a ≡ gt
unfolding cmp
gt_of_lt [] [] h = ground arith
gt_of_lt [] (y ∷ ys) h = refl
gt_of_lt (x ∷ xs) [] h = ground arith
gt_of_lt (x ∷ xs) (y ∷ ys) h = ground (arith, gt_of_lt xs ys)

pub lt_trans : (a b c : Text) → cmp a b ≡ lt → cmp b c ≡ lt → cmp a c ≡ lt
unfolding cmp
lt_trans [] [] c h k = ground arith
lt_trans [] (y ∷ ys) [] h k = ground arith
lt_trans [] (y ∷ ys) (z ∷ zs) h k = refl
lt_trans (x ∷ xs) [] c h k = ground arith
lt_trans (x ∷ xs) (y ∷ ys) [] h k = ground arith
lt_trans (x ∷ xs) (y ∷ ys) (z ∷ zs) h k = ground (arith, lt_trans xs ys zs)

-- `str == str`
abbrev pub text_eq : Text → Text → Bool
text_eq a b = elim (cmp a b) [ eq ↦ true | _ ↦ false ]

pub text_eq_iff : (a b : Text) → (text_eq a b ≡ true) ↔ (a ≡ b)
text_eq_iff a b = ((λ h. ground (arith, eq_of_cmp a b)), (λ h. ground (arith, cmp_refl a)))

-- The three answers of a comparison, each with what it says of the two texts.
pub data Cases (a b : Text) : Type 0 where
  below : cmp a b ≡ lt → Cases a b
  same : a ≡ b → Cases a b
  above : cmp b a ≡ lt → Cases a b

of_ordering : (a b : Text) (o : Ordering) → cmp a b ≡ o → Cases a b
of_ordering a b lt h = Cases.below h
of_ordering a b eq h = Cases.same (eq_of_cmp a b h)
of_ordering a b gt h = Cases.above (lt_of_gt a b h)

pub cmp-Cases : (a b : Text) → Cases a b
cmp-Cases a b = of_ordering a b (cmp a b) refl

push_front : ℕ → List Text → List Text
push_front c [] = (c ∷ []) ∷ []
push_front c (s ∷ ss) = (c ∷ s) ∷ ss

push_front-ne-nil : (c : ℕ) (ss : List Text) → push_front c ss ≢ []
unfolding push_front
push_front-ne-nil c [] h = cc
push_front-ne-nil c (s ∷ ss) h = cc

-- `str::split(char)`, whose pieces are one more than its separators.
unfoldable pub split : ℕ → Text → List Text
unfolding push_front
split sep [] = [] ∷ []
split sep (c ∷ cs) =
    let rest = split sep cs in elim (compare c sep) [ eq ↦ [] ∷ rest | _ ↦ push_front c rest ]

split-ne-nil : (sep : ℕ) (t : Text) → split sep t ≢ []
unfolding split
split-ne-nil sep [] h = cc
split-ne-nil sep (c ∷ cs) h = absurd (ground (arith, push_front-ne-nil c (split sep cs)))

cons_of : (xs : List Text) → xs ≢ [] → (s : Text) × (ss : List Text) × (xs ≡ s ∷ ss)
cons_of [] h = absurd (h refl)
cons_of (s ∷ ss) h = (s, ss, refl)

-- There is always a first piece.
pub split-cons : (sep : ℕ) (t : Text) → (s : Text) × (ss : List Text) × (split sep t ≡ s ∷ ss)
split-cons sep t = cons_of (split sep t) (split-ne-nil sep t)

push_front-append :
    (c : ℕ) (xs ys : List Text) → xs ≢ [] → push_front c (xs ++ ys) ≡ push_front c xs ++ ys
unfolding push_front
push_front-append c [] ys h = absurd (h refl)
push_front-append c (s ∷ ss) ys h = refl

-- The pieces of two texts with a separator between them.
pub split-append : (sep : ℕ) (a b : Text) → split sep (a ++ (sep ∷ b)) ≡ split sep a ++ split sep b
unfolding split
split-append sep [] b = ground arith
split-append sep (c ∷ cs) b = ground (
  arith,
  split-append sep cs b,
  push_front-append c (split sep cs) (split sep b) (split-ne-nil sep cs),
)

-- `[String]::join`
unfoldable pub join : Text → List Text → Text
join sep [] = []
join sep (s ∷ []) = s
join sep (s ∷ t ∷ ss) = s ++ (sep ++ join sep (t ∷ ss))
