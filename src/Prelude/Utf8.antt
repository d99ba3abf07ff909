-- ===== src/Prelude/Utf8.antt =====
-- The bytes of a text, `str::as_bytes`: UTF-8.
use Prim.Native.Nat.{ℕ, ◌+◌, ◌/◌, ◌%◌, ◌<◌}
use mathlib.Core.Path.{◌≡◌, refl, sym}
use mathlib.Core.List.{List, [], ◌∷◌, ◌++◌}
use native.Mathlib.Omega.{arith}
use dynamic_config.Prelude.Tests.{ltb, if◌then◌else◌}
use dynamic_config.Prelude.Lists.{All}
use dynamic_config.Prelude.Text.{Text}

-- The bytes of one character.
unfoldable pub utf8_char : ℕ → List ℕ
utf8_char c =
    if ltb c 0x80
    then c ∷ []
    else if ltb c 0x800
    then (0xc0 + c / 64) ∷ (0x80 + c % 64) ∷ []
    else if ltb c 0x10000
    then (0xe0 + c / 4096) ∷ (0x80 + c / 64 % 64) ∷ (0x80 + c % 64) ∷ []
    else (0xf0 + c / 262144) ∷ (0x80 + c / 4096 % 64) ∷ (0x80 + c / 64 % 64) ∷ (0x80 + c % 64) ∷ []

unfoldable pub utf8 : Text → List ℕ
unfolding utf8_char
utf8 [] = []
utf8 (c ∷ cs) = utf8_char c ++ utf8 cs

-- A code point of Unicode.
abbrev pub IsChar : ℕ → Type 0
IsChar c = c < 0x110000

utf8_char-injective :
    (c d : ℕ) (xs ys : List ℕ)
    → IsChar c
    → IsChar d
    → utf8_char c ++ xs ≡ utf8_char d ++ ys
    → (c ≡ d) × (xs ≡ ys)
unfolding utf8_char
utf8_char-injective c d xs ys hc hd h = (ground (arith, h), ground (arith, h))

utf8_char-ne-nil : (c : ℕ) (xs : List ℕ) → utf8_char c ++ xs ≡ [] → ⊥
unfolding utf8_char
utf8_char-ne-nil c xs h = ground (arith, h)

pub utf8-injective : (s t : Text) → All IsChar s → All IsChar t → utf8 s ≡ utf8 t → s ≡ t
unfolding utf8
utf8-injective [] [] hs ht h = refl
utf8-injective [] (d ∷ t) hs ht h = absurd (utf8_char-ne-nil d (utf8 t) (sym h))
utf8-injective (c ∷ s) [] hs ht h = absurd (utf8_char-ne-nil c (utf8 s) h)
utf8-injective (c ∷ s) (d ∷ t) hs ht h =
    let (same, rest) = utf8_char-injective c d (utf8 s) (utf8 t) hs.0 ht.0 h in
    let later = utf8-injective s t hs.1 ht.1 rest in cc
