-- ===== src/Prelude/Str/Cut.antt =====
-- What the functions that cut a text return are parts of it.
use dynamic_config.Prelude.{
  Bool, true, false, Option, none, some, [], ◌∷◌, ◌++◌, ◌≡◌, refl, ap, arith, All, ℕ,
}
use dynamic_config.Prelude.Text.{Text}
use dynamic_config.Prelude.Str.{strip_prefix, split_once, before, trim_start, is_whitespace}

pub strip_prefix-append : (p s r : Text) → strip_prefix p s ≡ some r → s ≡ p ++ r
unfolding strip_prefix
strip_prefix-append [] s r h = cc
strip_prefix-append (c ∷ cs) [] r h = absurd (cc)
strip_prefix-append (c ∷ cs) (d ∷ ds) r h = ground (arith, h, strip_prefix-append cs ds r)

pub trim_start-append : (s : Text) → (w : Text) × (s ≡ w ++ trim_start s)
unfolding trim_start
trim_start-append [] = ([], refl)
trim_start-append (c ∷ cs) = at (is_whitespace c) refl (trim_start-append cs)
  where
    at :
        (b : Bool)
        → is_whitespace c ≡ b
        → (w : Text) × (cs ≡ w ++ trim_start cs)
        → (w : Text) × (c ∷ cs ≡ w ++ trim_start (c ∷ cs))
    at true q (w, e) = (c ∷ w, rw (q, trim_start) (ap (λ t. c ∷ t) e))
    at false q ih = ([], rw (q, trim_start) refl)

pub split_once-append :
    (sep s head tail : Text) → split_once sep s ≡ some (head, tail) → s ≡ head ++ (sep ++ tail)
unfolding split_once before
split_once-append sep [] head tail h = at (strip_prefix sep []) refl
  where
    at : (o : Option Text) → strip_prefix sep [] ≡ o → [] ≡ head ++ (sep ++ tail)
    at none q = absurd (ground (arith, h, q))
    at (some r) q = let e = strip_prefix-append sep [] r q in ground (arith, h, q, e)
split_once-append sep (c ∷ cs) head tail h =
    at (strip_prefix sep (c ∷ cs)) (split_once sep cs) refl refl
      (λ b t. split_once-append sep cs b t)
  where
    at :
        (o : Option Text) (later : Option (Text × Text))
        → strip_prefix sep (c ∷ cs) ≡ o
        → split_once sep cs ≡ later
        → ((b t : Text) → split_once sep cs ≡ some (b, t) → cs ≡ b ++ (sep ++ t))
        → c ∷ cs ≡ head ++ (sep ++ tail)
    at none none q r ih = absurd (ground (arith, h, q, r))
    at none (some (b, t)) q r ih = let e = ih b t r in ground (arith, h, q, r, e)
    at (some x) later q r ih =
        let e = strip_prefix-append sep (c ∷ cs) x q in ground (arith, h, q, e)

pub All-tail : (P : ℕ → Type 0) (xs ys : Text) → All P (xs ++ ys) → All P ys
All-tail P [] ys a = a
All-tail P (x ∷ xs) ys a = All-tail P xs ys a.1
