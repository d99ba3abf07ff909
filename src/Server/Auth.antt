-- ===== src/Server/Auth.antt =====
-- dynamic-config-server/src/auth.rs: who is calling, and what they may read.
pub mod Match
pub mod Grant
use dynamic_config.Prelude.{
  ℕ, Bool, true, false, Option, none, some, List, [], ◌∷◌, ◌==◌, ◌||◌, is_empty, if◌then◌else◌,
  length,
}
use dynamic_config.Prelude.Text.{Text, codes, text_eq}
use dynamic_config.Prelude.Utf8.{utf8}
use dynamic_config.Prelude.Str.{split_once, eq_ignore_ascii_case, trim_start}
use Prim.Native.Nat.{bit_or, bit_xor}

-- `struct Token`
pub record Token : Type 0 where
  pub secret : Text

-- The loop of `Token::matches`, over the bytes that the two have in common.
unfoldable pub xor_all : ℕ → List ℕ → List ℕ → ℕ
xor_all difference [] ys = difference
xor_all difference (x ∷ xs) [] = difference
xor_all difference (x ∷ xs) (y ∷ ys) = xor_all (bit_or difference (bit_xor x y)) xs ys

-- The body of `Token::matches`, on the bytes: a difference in length counts as one.
unfoldable pub same_bytes : List ℕ → List ℕ → Bool
unfolding xor_all
same_bytes configured presented =
    xor_all (if length configured == length presented then 0 else 1) configured presented == 0

-- `Token::matches`
unfoldable pub matches : Token → Text → Bool
unfolding same_bytes
matches token presented = same_bytes (utf8 token.secret) (utf8 presented)

-- `struct Inner`, which `Principal` shares.
pub record Principal : Type 0 where
  pub name : Text
  pub applications : List Text

-- `Iterator::any` over the grants.
unfoldable pub granted : Text → List Text → Bool
granted application [] = false
granted application (a ∷ rest) = text_eq a application || granted application rest

-- `Principal::may_read`
unfoldable pub may_read : Principal → Text → Bool
unfolding granted
may_read principal application = granted application principal.applications

-- `struct Authenticator`
pub record Authenticator : Type 0 where
  pub clients : List (Token × Principal)
  pub anonymous : Option Principal

-- `bearer`
unfoldable pub bearer : Text → Option Text
unfolding split_once eq_ignore_ascii_case trim_start
bearer header = elim (split_once (b' ' ∷ []) header) [
  | none ↦ none
  | some (scheme, rest) ↦
      let token = trim_start rest in
      if eq_ignore_ascii_case scheme (codes "bearer")
      then (if is_empty token then none else some token)
      else none
]

-- The loop of `authenticate`: every token is compared, and the first hit is kept.
unfoldable pub search : Text → Option Principal → List (Token × Principal) → Option Principal
unfolding matches
search presented found [] = found
search presented found ((token, principal) ∷ rest) =
    search presented
      (elim found [
        | none ↦ if matches token presented then some principal else none
        | some earlier ↦ some earlier
      ])
      rest

-- `Authenticator::authenticate`
unfoldable pub authenticate : Authenticator → Option Text → Option Principal
unfolding bearer search
authenticate who none = who.anonymous
authenticate who (some header) = elim (bearer header) [
  | none ↦ none
  | some presented ↦ search presented none who.clients
]
