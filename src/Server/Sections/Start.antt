-- ===== src/Server/Sections/Start.antt =====
-- What a server that started knows its callers by, and that it serves what it grants.
use mathlib.Core.List.{append_assoc, append-nil}
use dynamic_config.Prelude.{
  ℕ, Bool, false, Option, none, some, List, [], ◌∷◌, ◌++◌, ◌≡◌, refl, sym, ap, ◌∙◌, arith, All,
}
use dynamic_config.Prelude.Text.{Text, text_eq, text_eq_iff}
use dynamic_config.Prelude.Utf8.{IsChar}
use dynamic_config.Prelude.Results.{Result, ok, err}
use dynamic_config.Error.{Error}
use dynamic_config.Cell.{ConfigCell}
use dynamic_config.Server.Auth.{Token, Principal}
use dynamic_config.Server.Auth.Grant.{first_of}
use dynamic_config.Server.Config.{
  ServerConfig, SectionConfig, ClientConfig, TlsConfig, check_tokens, same_token, validate,
}
use dynamic_config.Server.Config.Valid.{Passed, validate-Passed, passed, AllHaveToken}
use dynamic_config.Server.Sections.{
  Server, Section, StartupError, Document, enrol, start_with, load_sections, checked, address,
  loaded_tls,
}

abbrev pub principal_of : ClientConfig → Principal
principal_of c = record { name = c.name; applications = c.applications }

-- The tokens of the clients, in order.
abbrev pub tokens_of : List ClientConfig → List (Token × Principal)
tokens_of [] = []
tokens_of (c ∷ cs) = elim c.token [
  | none ↦ tokens_of cs
  | some t ↦ (t, principal_of c) ∷ tokens_of cs
]

enrol-tokens_of :
    (known : List (Token × Principal)) (anonymous : Option Principal) (clients : List ClientConfig)
    → (enrol known anonymous clients).0 ≡ known ++ tokens_of clients
unfolding enrol
enrol-tokens_of known anonymous [] = sym (append-nil known)
enrol-tokens_of known anonymous (c ∷ cs) = at c.token refl (λ k a. enrol-tokens_of k a cs)
  where
    at :
        (o : Option Token)
        → c.token ≡ o
        → ((k : List (Token × Principal)) (a : Option Principal)
            → (enrol k a cs).0 ≡ k ++ tokens_of cs)
        → (enrol known anonymous (c ∷ cs)).0 ≡ known ++ tokens_of (c ∷ cs)
    at none q ih = rw q (ih known (some (principal_of c)))
    at (some t) q ih = rw q (
        ih (known ++ ((t, principal_of c) ∷ [])) anonymous
        ∙ append_assoc known ((t, principal_of c) ∷ []) (tokens_of cs))

-- No later client has the token.
same_token-at :
    (token : Token) (before : List ClientConfig) (c : ClientConfig) (after : List ClientConfig)
    (t : Token)
    → same_token token (before ++ (c ∷ after)) ≡ false
    → c.token ≡ some t
    → text_eq token.secret t.secret ≡ false
unfolding same_token
same_token-at token [] c after t h e = ground (arith, h, e)
same_token-at token (b ∷ before) c after t h e =
    same_token-at token before c after t (ground (arith, h)) e

pub first_of-tokens_of :
    (before : List ClientConfig) (c : ClientConfig) (after : List ClientConfig) (t : Token)
    → check_tokens (before ++ (c ∷ after)) ≡ ok tt
    → c.token ≡ some t
    → first_of t.secret (tokens_of (before ++ (c ∷ after))) ≡ some (principal_of c)
unfolding check_tokens
first_of-tokens_of [] c after t h e = rw e (rw ((text_eq_iff t.secret t.secret).1 refl) refl)
first_of-tokens_of (b ∷ before) c after t h e =
    at b.token refl (first_of-tokens_of before c after t (passed _ _ h).1 e)
  where
    rest : List ClientConfig
    rest = before ++ (c ∷ after)

    at :
        (o : Option Token)
        → b.token ≡ o
        → first_of t.secret (tokens_of rest) ≡ some (principal_of c)
        → first_of t.secret (tokens_of (b ∷ rest)) ≡ some (principal_of c)
    at none q ih = rw q ih
    at (some other) q ih =
        let distinct : same_token other rest ≡ false = ground (arith, h, q) in
        let differ = same_token-at other before c after t distinct e in rw q (rw differ ih)

-- Without a token after it, the caller that `enrol` keeps for headers without a credential stays.
enrol-anonymous :
    (known : List (Token × Principal)) (anonymous : Option Principal) (clients : List ClientConfig)
    → AllHaveToken clients
    → (enrol known anonymous clients).1 ≡ anonymous
unfolding enrol
enrol-anonymous known anonymous [] a = refl
enrol-anonymous known anonymous (c ∷ cs) a =
    let (t, q) = a.0 in
    rw q (enrol-anonymous (known ++ ((t, principal_of c) ∷ [])) anonymous cs a.1)

pub enrol-alone :
    (known : List (Token × Principal)) (anonymous : Option Principal) (before : List ClientConfig)
    (c : ClientConfig) (after : List ClientConfig)
    → AllHaveToken after
    → c.token ≡ none
    → (enrol known anonymous (before ++ (c ∷ after))).1 ≡ some (principal_of c)
unfolding enrol
enrol-alone known anonymous [] c after a e =
    rw e (enrol-anonymous known (some (principal_of c)) after a)
enrol-alone known anonymous (b ∷ before) c after a e =
    enrol-alone (elim b.token [ none ↦ known | some t ↦ known ++ ((t, principal_of b) ∷ []) ])
      (elim b.token [ none ↦ some (principal_of b) | some t ↦ anonymous ]) before c after a e

-- The texts of the clients' tokens are Unicode texts.
abbrev pub TokensAreChars : List ClientConfig → Type 0
TokensAreChars [] = Unit
TokensAreChars (c ∷ cs) =
    elim c.token [ none ↦ Unit {0} | some t ↦ All IsChar t.secret ] × TokensAreChars cs

pub tokens_of-IsChar :
    (clients : List ClientConfig)
    → TokensAreChars clients
    → All (λ (c : Token × Principal). All IsChar c.0.secret) (tokens_of clients)
tokens_of-IsChar [] a = tt
tokens_of-IsChar (c ∷ cs) a = at c.token refl (tokens_of-IsChar cs a.1)
  where
    at :
        (o : Option Token)
        → c.token ≡ o
        → All (λ (c : Token × Principal). All IsChar c.0.secret) (tokens_of cs)
        → All (λ (c : Token × Principal). All IsChar c.0.secret) (tokens_of (c ∷ cs))
    at none q ih = rw q ih
    at (some t) q ih = let own = a.0 in rw q ((rw q at own), ih)

module _ {L : Type 0} (with_tls : Bool) (loopback_of : Text → Option Bool)
    (load_tls : TlsConfig → Result Text (Unit {0}))
    (init : SectionConfig → Result Error (ConfigCell (Document L)))
    (watch : SectionConfig → ℕ → Result Text (Unit {0})) where
  -- What is known of a server that started.
  pub record Started (config : ServerConfig) (server : Server L) : Type 0 where
    pub passed : Passed with_tls loopback_of config
    pub loaded :
        load_sections with_tls loopback_of load_tls init watch config.watch_debounce_ms []
          config.sections
        ≡ ok server.sections
    pub clients : server.authenticator.clients ≡ tokens_of config.clients
    pub anonymous : server.authenticator.anonymous ≡ (enrol [] none config.clients).1

  pub start_with-Started :
      (config : ServerConfig) (server : Server L)
      → start_with with_tls loopback_of load_tls init watch config ≡ ok server
      → Started config server
  unfolding start_with checked address loaded_tls
  start_with-Started config server h =
      at (checked with_tls loopback_of load_tls init watch config) refl
        (address with_tls loopback_of load_tls init watch config) refl
        (loaded_tls with_tls loopback_of load_tls init watch config) refl
        (load_sections with_tls loopback_of load_tls init watch config.watch_debounce_ms []
          config.sections)
        refl
    where
      at :
          (a : Result StartupError (Unit {0}))
          → checked with_tls loopback_of load_tls init watch config ≡ a
          → (b : Result StartupError (Unit {0}))
          → address with_tls loopback_of load_tls init watch config ≡ b
          → (c : Result StartupError (Unit {0}))
          → loaded_tls with_tls loopback_of load_tls init watch config ≡ c
          → (d : Result StartupError (List ((Text × Text) × Section L)))
          → load_sections with_tls loopback_of load_tls init watch config.watch_debounce_ms []
              config.sections
            ≡ d
          → Started config server
      at (err e) p b q c r d s = absurd (ground (arith, h, p))
      at (ok u) p (err e) q c r d s = absurd (ground (arith, h, p, q))
      at (ok u) p (ok v) q (err e) r d s = absurd (ground (arith, h, p, q, r))
      at (ok u) p (ok v) q (ok w) r (err e) s = absurd (ground (arith, h, p, q, r, s))
      at (ok u) p (ok v) q (ok w) r (ok sections) s =
          let valid : validate with_tls loopback_of config ≡ ok tt = ground (arith, p) in
          let same : sections ≡ server.sections = ground (arith, h, p, q, r, s) in
          let roster : server.authenticator.clients ≡ (enrol [] none config.clients).0 =
            ground (arith, h, p, q, r, s) in
          record {
            passed = validate-Passed with_tls loopback_of config valid;
            loaded = s ∙ ap ok same;
            clients = roster ∙ enrol-tokens_of [] none config.clients;
            anonymous = ground (arith, h, p, q, r, s);
          }
