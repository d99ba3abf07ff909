-- ===== src/Server/Config/Valid.antt =====
-- What `validate` accepts.
use dynamic_config.Prelude.{
  ℕ, suc, Bool, true, false, Option, none, some, List, [], ◌∷◌, ◌++◌, ◌≡◌, inl, inr, refl, arith,
  Bool-cases, not,
}
use dynamic_config.Prelude.Text.{Text, text_eq, text_eq_iff}
use dynamic_config.Prelude.Results.{Result, ok, err, ◌>>◌}
use dynamic_config.Server.Auth.{Token, granted}
use dynamic_config.Server.Config.{
  SectionConfig, ClientConfig, ServerConfig, Refusal, refuse_if, validate, check_sections,
  check_clients, check_tokens, check_transport, check_grants, check_token, serves, count_anonymous,
}

-- A step that is not the last one passed, and so did the rest.
pub passed {ℓ} :
    {E : Type ℓ} (m k : Result E (Unit {ℓ})) → (m >> k) ≡ ok tt → (m ≡ ok tt) × (k ≡ ok tt)
passed (ok u) k h = (refl, h)
passed (err e) k h = absurd (cc)

pub refuse_if-passed : (test : Bool) (r : Refusal) → refuse_if test r ≡ ok tt → test ≡ false
refuse_if-passed true r h = absurd (cc)
refuse_if-passed false r h = refl

-- The parts of a configuration that passed.
pub record Passed (with_tls : Bool) (loopback_of : Text → Option Bool) (c : ServerConfig)
    : Type 0 where
  pub sections : check_sections [] c.sections ≡ ok tt
  pub clients : check_clients c.allow_anonymous c.sections [] 0 c.clients ≡ ok tt
  pub tokens : check_tokens c.clients ≡ ok tt
  pub transport : check_transport with_tls loopback_of c ≡ ok tt

pub validate-Passed :
    (with_tls : Bool) (loopback_of : Text → Option Bool) (c : ServerConfig)
    → validate with_tls loopback_of c ≡ ok tt
    → Passed with_tls loopback_of c
unfolding validate
validate-Passed with_tls loopback_of c h =
    let a = (passed _ _ h).1 in
    let b = (passed _ _ a).1 in
    let (sections, d) = passed _ _ b in
    let (clients, e) = passed _ _ d in
    let (tokens, transport) = passed _ _ e in
    record { sections = sections; clients = clients; tokens = tokens; transport = transport }

-- What the loop over the clients leaves true of each: its grants were checked, and it has a token
-- unless callers without one are allowed.
abbrev pub ClientPassed : Bool → List SectionConfig → ClientConfig → Type 0
ClientPassed allow sections c =
    (check_grants sections c.name c.applications ≡ ok tt) × (c.token ≡ none → allow ≡ true)

check_token-passed :
    (allow : Bool) (n : ℕ) (c : ClientConfig)
    → check_token allow (count_anonymous n c) c ≡ ok tt
    → c.token ≡ none
    → (allow ≡ true) × (n ≡ 0)
unfolding check_token
check_token-passed allow n c h e = ground (arith, h, e)

-- One client more.
check_clients-cons :
    (allow : Bool) (sections : List SectionConfig) (names : List Text) (n : ℕ) (c : ClientConfig)
    (rest : List ClientConfig)
    → check_clients allow sections names n (c ∷ rest) ≡ ok tt
    → (check_token allow (count_anonymous n c) c ≡ ok tt)
      × (check_grants sections c.name c.applications ≡ ok tt)
      × (check_clients allow sections (c.name ∷ names) (count_anonymous n c) rest ≡ ok tt)
unfolding check_clients
check_clients-cons allow sections names n c rest h =
    let (token, b) = passed _ _ (passed _ _ h).1 in
    let (grants, later) = passed _ _ b in (token, grants, later)

pub check_clients-at :
    (allow : Bool) (sections : List SectionConfig) (names : List Text) (n : ℕ)
    (before : List ClientConfig) (c : ClientConfig) (after : List ClientConfig)
    → check_clients allow sections names n (before ++ (c ∷ after)) ≡ ok tt
    → ClientPassed allow sections c
check_clients-at allow sections names n [] c after h =
    let (token, grants, later) = check_clients-cons allow sections names n c after h in
    (grants, (λ e. (check_token-passed allow n c token e).0))
check_clients-at allow sections names n (b ∷ before) c after h =
    check_clients-at allow sections (b.name ∷ names) (count_anonymous n b) before c after
      (check_clients-cons allow sections names n b (before ++ (c ∷ after)) h).2

-- Every client after one without a token has one.
abbrev pub HasToken : ClientConfig → Type 0
HasToken c = (t : Token) × (c.token ≡ some t)

abbrev pub AllHaveToken : List ClientConfig → Type 0
AllHaveToken [] = Unit
AllHaveToken (c ∷ cs) = HasToken c × AllHaveToken cs

check_clients-counted :
    (allow : Bool) (sections : List SectionConfig) (names : List Text) (n : ℕ)
    (clients : List ClientConfig)
    → check_clients allow sections names (suc n) clients ≡ ok tt
    → AllHaveToken clients
check_clients-counted allow sections names n [] h = tt
check_clients-counted allow sections names n (c ∷ rest) h =
    at c.token refl (check_clients-counted allow sections (c.name ∷ names) n rest)
  where
    parts :
        (check_token allow (count_anonymous (suc n) c) c ≡ ok tt)
        × (check_grants sections c.name c.applications ≡ ok tt)
        × (check_clients allow sections (c.name ∷ names) (count_anonymous (suc n) c) rest ≡ ok tt)
    parts = check_clients-cons allow sections names (suc n) c rest h

    next :
        (count_anonymous (suc n) c ≡ suc n)
        → check_clients allow sections (c.name ∷ names) (suc n) rest ≡ ok tt
    next e = let later = parts.2 in rw e at later

    at :
        (o : Option Token)
        → c.token ≡ o
        → (check_clients allow sections (c.name ∷ names) (suc n) rest ≡ ok tt → AllHaveToken rest)
        → HasToken c × AllHaveToken rest
    at none q ih = absurd (omega (arith, (check_token-passed allow (suc n) c parts.0 q).1))
    at (some t) q ih = ((t, q), ih (next (rw q)))

pub check_clients-alone :
    (allow : Bool) (sections : List SectionConfig) (names : List Text) (n : ℕ)
    (before : List ClientConfig) (c : ClientConfig) (after : List ClientConfig)
    → check_clients allow sections names n (before ++ (c ∷ after)) ≡ ok tt
    → c.token ≡ none
    → AllHaveToken after
check_clients-alone allow sections names n [] c after h e =
    let later = (check_clients-cons allow sections names n c after h).2 in
    check_clients-counted allow sections (c.name ∷ names) n after (rw e at later)
check_clients-alone allow sections names n (b ∷ before) c after h e =
    check_clients-alone allow sections (b.name ∷ names) (count_anonymous n b) before c after
      (check_clients-cons allow sections names n b (before ++ (c ∷ after)) h).2 e

-- A granted application is served.
pub check_grants-serves :
    (sections : List SectionConfig) (name application : Text) (applications : List Text)
    → check_grants sections name applications ≡ ok tt
    → granted application applications ≡ true
    → serves application sections ≡ true
unfolding check_grants granted
check_grants-serves sections name application [] h g = absurd (cc)
check_grants-serves sections name application (a ∷ rest) h g =
    let (this, later) = passed _ _ h in
    let here = refuse_if-passed (not (serves a sections)) (Refusal.unserved_grant name a) this in
    elim (Bool-cases (text_eq a application)) [
      | inl same ↦ let e = (text_eq_iff a application).0 same in ground (arith, here, e)
      | inr other ↦
          check_grants-serves sections name application rest later (ground (arith, g, other))
    ]
