-- ===== src/Server/Auth/Match.antt =====
-- The comparison that does not stop at the first difference is equality.
use Prim.Native.Nat.{bit_or, bit_xor}
use dynamic_config.Prelude.{
  ℕ, true, List, [], ◌∷◌, ◌≡◌, ◌↔◌, refl, ap, arith, ◌==◌, length, All, if◌then◌else◌,
}
use dynamic_config.Prelude.Text.{Text}
use dynamic_config.Prelude.Utf8.{utf8, utf8-injective, IsChar}
use dynamic_config.Prelude.Bits.{bit_xor-eq-zero, bit_or-eq-zero}
use dynamic_config.Server.Auth.{Token, matches, same_bytes, xor_all}

xor_all-eq-zero :
    (d : ℕ) (xs ys : List ℕ) → length xs ≡ length ys → xor_all d xs ys ≡ 0 → (d ≡ 0) × (xs ≡ ys)
unfolding xor_all
xor_all-eq-zero d [] [] l h = (h, refl)
xor_all-eq-zero d [] (y ∷ ys) l h = absurd (omega arith)
xor_all-eq-zero d (x ∷ xs) [] l h = absurd (omega arith)
xor_all-eq-zero d (x ∷ xs) (y ∷ ys) l h =
    let (both, rest) = xor_all-eq-zero (bit_or d (bit_xor x y)) xs ys (omega arith) h in
    let (zero_d, zero_xor) = (bit_or-eq-zero d (bit_xor x y)).0 both in
    let same = (bit_xor-eq-zero x y).0 zero_xor in (zero_d, cc)

-- A difference once found stays.
xor_all-start : (d : ℕ) (xs ys : List ℕ) → xor_all d xs ys ≡ 0 → d ≡ 0
unfolding xor_all
xor_all-start d [] ys h = h
xor_all-start d (x ∷ xs) [] h = h
xor_all-start d (x ∷ xs) (y ∷ ys) h =
    ((bit_or-eq-zero d (bit_xor x y)).0 (xor_all-start (bit_or d (bit_xor x y)) xs ys h)).0

xor_all_self : (xs : List ℕ) → xor_all 0 xs xs ≡ 0
unfolding xor_all
xor_all_self [] = refl
xor_all_self (x ∷ xs) = rw (((bit_xor-eq-zero x x).1 refl)) (xor_all_self xs)

same_bytes_iff : (xs ys : List ℕ) → (same_bytes xs ys ≡ true) ↔ (xs ≡ ys)
unfolding same_bytes
same_bytes_iff xs ys = (accepted, (λ e. rw e (ground (arith, xor_all_self ys))))
  where
    accepted : same_bytes xs ys ≡ true → xs ≡ ys
    accepted h =
        let start : ℕ = if length xs == length ys then 0 else 1 in
        let none_left : xor_all start xs ys ≡ 0 = ground (arith, h) in
        let long : length xs ≡ length ys = ground (arith, xor_all-start start xs ys none_left) in
        (xor_all-eq-zero start xs ys long none_left).1

-- A presented token is accepted exactly if it is the configured one, for texts of Unicode
-- characters: neither a difference in some byte nor one in length is lost.
pub matches_iff :
    (token : Token) (presented : Text)
    → All IsChar token.secret
    → All IsChar presented
    → (matches token presented ≡ true) ↔ (token.secret ≡ presented)
unfolding matches
matches_iff token presented hs hp = (
  (λ h.
      utf8-injective token.secret presented hs hp
        ((same_bytes_iff (utf8 token.secret) (utf8 presented)).0 h)),
  (λ e. (same_bytes_iff (utf8 token.secret) (utf8 presented)).1 (ap utf8 e)),
)
