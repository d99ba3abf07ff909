-- ===== src/Server/Auth/Grant.antt =====
-- Who a header authenticates, and what a caller may read, without the detours that hide the time
-- that a comparison takes.
use dynamic_config.Prelude.{
  Option, none, some, List, [], ◌∷◌, ◌≡◌, inl, inr, refl, subst, arith, All, if◌then◌else◌,
  Bool-cases,
}
use dynamic_config.Prelude.Text.{Text, text_eq, text_eq_iff}
use dynamic_config.Prelude.Str.{split_once, trim_start}
use dynamic_config.Prelude.Utf8.{IsChar}
use dynamic_config.Prelude.Str.Cut.{split_once-append, trim_start-append, All-tail}
use dynamic_config.Server.Auth.{
  Token, Principal, Authenticator, matches, search, bearer, authenticate,
}
use dynamic_config.Server.Auth.Match.{matches_iff}

bearer-IsChar :
    (header presented : Text)
    → All IsChar header
    → bearer header ≡ some presented
    → All IsChar presented
unfolding bearer
bearer-IsChar header presented a h = at (split_once (b' ' ∷ []) header) refl
  where
    at : (o : Option (Text × Text)) → split_once (b' ' ∷ []) header ≡ o → All IsChar presented
    at none q = absurd (ground (arith, h, q))
    at (some (scheme, rest)) q =
        let (space, e) = trim_start-append rest in
        let same : trim_start rest ≡ presented = ground (arith, h, q) in
        let a_rest : All IsChar rest = All-tail IsChar (b' ' ∷ []) rest (
          All-tail IsChar scheme (b' ' ∷ rest)
            (subst (All IsChar) (split_once-append (b' ' ∷ []) header scheme rest q) a)) in
        subst (All IsChar) same
          (All-tail IsChar space (trim_start rest) (subst (All IsChar) e a_rest))

-- The principal of the first client whose token is the one presented: the search as one would
-- write it without care for time.
abbrev pub first_of : Text → List (Token × Principal) → Option Principal
first_of presented [] = none
first_of presented ((token, principal) ∷ rest) =
    if text_eq token.secret presented then some principal else first_of presented rest

-- What was found stays.
search-found :
    (presented : Text) (found : Principal) (clients : List (Token × Principal))
    → search presented (some found) clients ≡ some found
unfolding search
search-found presented found [] = refl
search-found presented found ((token, principal) ∷ rest) = search-found presented found rest

matches-text_eq :
    (token : Token) (presented : Text)
    → All IsChar token.secret
    → All IsChar presented
    → matches token presented ≡ text_eq token.secret presented
matches-text_eq token presented hs hp =
    let (left, right) = matches_iff token presented hs hp in
    let (from, to) = text_eq_iff token.secret presented in
    elim (Bool-cases (matches token presented)) [
      | inl e ↦ ground (arith, e, to (left e))
      | inr e ↦ elim (Bool-cases (text_eq token.secret presented)) [
        | inl f ↦ ground (arith, e, right (from f))
        | inr f ↦ ground (arith, e, f)
      ]
    ]

search-first_of :
    (presented : Text) (clients : List (Token × Principal))
    → All IsChar presented
    → All (λ (c : Token × Principal). All IsChar c.0.secret) clients
    → search presented none clients ≡ first_of presented clients
unfolding search
search-first_of presented [] hp hs = refl
search-first_of presented ((token, principal) ∷ rest) hp hs =
    let same = matches-text_eq token presented hs.0 hp in
    elim (Bool-cases (text_eq token.secret presented)) [
      | inl e ↦ rw (same, e) (search-found presented principal rest)
      | inr e ↦ rw (same, e) (search-first_of presented rest hp hs.1)
    ]

-- The search that compares every token, byte by byte to the end, answers what the plain search
-- answers: the first client with the presented token. A header that holds no bearer token is
-- nobody, whatever the anonymous caller may do. The header and the tokens are Unicode texts.
pub authenticate-first_of :
    (who : Authenticator) (header : Text)
    → All IsChar header
    → All (λ (c : Token × Principal). All IsChar c.0.secret) who.clients
    → authenticate who (some header)
      ≡ elim (bearer header) [ none ↦ none | some presented ↦ first_of presented who.clients ]
unfolding authenticate
authenticate-first_of who header a hs = at (bearer header) refl
  where
    at :
        (o : Option Text)
        → bearer header ≡ o
        → authenticate who (some header) ≡ elim o as (λ _. Option Principal) [
          | none ↦ none
          | some presented ↦ first_of presented who.clients
        ]
    at none q = rw (q, authenticate) refl
    at (some presented) q =
        rw (q, authenticate)
          (search-first_of presented who.clients (bearer-IsChar header presented a q) hs)
