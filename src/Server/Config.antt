-- ===== src/Server/Config.antt =====
-- dynamic-config-server/src/config: what a server's configuration holds, and the first reason that
-- `ServerConfig::validate` has to refuse it.
pub mod Valid
use dynamic_config.Prelude.{
  ℕ, zero, suc, Bool, true, false, Option, none, some, List, [], ◌∷◌, ◌&&◌, ◌||◌, ltb, not, length,
  is_empty, is_some, if◌then◌else◌,
}
use dynamic_config.Prelude.Text.{Text, codes, text_eq}
use dynamic_config.Prelude.Utf8.{utf8}
use dynamic_config.Prelude.Str.{trim}
use dynamic_config.Prelude.Results.{Result, ok, err, ◌>>=◌, ◌>>◌}
use dynamic_config.Server.Auth.{Token}
use dynamic_config.Server.Names.{is_name}

pub record SectionConfig : Type 0 where
  pub application : Text
  pub profile : Text
  pub files : List Text
  pub env_prefix : Option Text
  pub whole_document : Bool

pub record TlsConfig : Type 0 where
  pub certificate : Text
  pub key : Text
  pub client_ca : Option Text
  pub crl : Option Text

pub record ClientConfig : Type 0 where
  pub name : Text
  pub token : Option Token
  pub applications : List Text

pub record ServerConfig : Type 0 where
  pub bind : Text
  pub insecure : Bool
  pub tls : Option TlsConfig
  pub allow_anonymous : Bool
  pub watch_debounce_ms : ℕ
  pub max_stream_connections : ℕ
  pub sections : List SectionConfig
  pub clients : List ClientConfig

-- `enum Refusal`
pub data Refusal : Type 0 where
  no_sections no_clients several_anonymous_clients duplicate_token : Refusal
  tls_unsupported revocation_unsupported insecure_with_tls : Refusal
  unroutable_section : (application profile part : Text) → Refusal
  duplicate_section : (application profile : Text) → Refusal
  duplicate_client anonymous_not_allowed weak_token : (client : Text) → Refusal
  unserved_grant : (client application : Text) → Refusal
  unparsable_bind exposed_bind : (bind : Text) → Refusal
  tls_path_missing : (key : Text) → Refusal

-- `MIN_TOKEN_LEN`
abbrev pub min_token_len : ℕ
min_token_len = 32

-- `if test { return Err(refusal) }`
abbrev pub refuse_if : Bool → Refusal → Result Refusal (Unit {0})
refuse_if true refusal = err refusal
refuse_if false refusal = ok tt

-- `seen.contains(&pair)`
unfoldable pub contains_pair : Text → Text → List (Text × Text) → Bool
contains_pair a p [] = false
contains_pair a p ((b, q) ∷ rest) = (text_eq a b && text_eq p q) || contains_pair a p rest

-- `names.contains(..)`
unfoldable pub contains_text : Text → List Text → Bool
contains_text a [] = false
contains_text a (b ∷ rest) = text_eq a b || contains_text a rest

-- The loop over the sections.
unfoldable pub check_sections : List (Text × Text) → List SectionConfig → Result Refusal (Unit {0})
unfolding contains_pair is_name
check_sections seen [] = ok tt
check_sections seen (s ∷ rest) = do
  refuse_if (not (is_name s.application))
      (unroutable_section s.application s.profile (codes "application"))
  refuse_if (not (is_name s.profile)) (unroutable_section s.application s.profile (codes "profile"))
  refuse_if (contains_pair s.application s.profile seen) (duplicate_section s.application s.profile)
  check_sections ((s.application, s.profile) ∷ seen) rest

-- Whether a section has the application.
unfoldable pub serves : Text → List SectionConfig → Bool
serves application [] = false
serves application (s ∷ rest) = text_eq s.application application || serves application rest

-- The loop over a client's grants.
unfoldable pub check_grants : List SectionConfig → Text → List Text → Result Refusal (Unit {0})
unfolding serves
check_grants sections client [] = ok tt
check_grants sections client (a ∷ rest) = do
  refuse_if (not (serves a sections)) (unserved_grant client a)
  check_grants sections client rest

-- The `match` on a client's token; `anonymous` counts this client if it has none.
unfoldable pub check_token : Bool → ℕ → ClientConfig → Result Refusal (Unit {0})
unfolding utf8
check_token allow_anonymous anonymous client = elim client.token [
  | none ↦
      refuse_if (not allow_anonymous) (anonymous_not_allowed client.name)
      >> refuse_if (ltb 1 anonymous) several_anonymous_clients
  | some token ↦ refuse_if (ltb (length (utf8 token.secret)) min_token_len) (weak_token client.name)
]

-- One more if the client has no token.
abbrev pub count_anonymous : ℕ → ClientConfig → ℕ
count_anonymous n client = elim client.token [ none ↦ suc n | some t ↦ n ]

-- The loop over the clients.
unfoldable pub check_clients :
    Bool → List SectionConfig → List Text → ℕ → List ClientConfig → Result Refusal (Unit {0})
unfolding contains_text check_token check_grants
check_clients allow_anonymous sections names anonymous [] = ok tt
check_clients allow_anonymous sections names anonymous (client ∷ rest) = do
  refuse_if (contains_text client.name names) (duplicate_client client.name)
  check_token allow_anonymous (count_anonymous anonymous client) client
  check_grants sections client.name client.applications
  check_clients allow_anonymous sections (client.name ∷ names) (count_anonymous anonymous client)
      rest

-- Whether another client has the token.
unfoldable pub same_token : Token → List ClientConfig → Bool
same_token token [] = false
same_token token (other ∷ rest) =
    elim other.token [ none ↦ false | some it ↦ text_eq token.secret it.secret ]
    || same_token token rest

-- The two loops that look for a token twice.
unfoldable pub check_tokens : List ClientConfig → Result Refusal (Unit {0})
unfolding same_token
check_tokens [] = ok tt
check_tokens (client ∷ rest) = do
  refuse_if (elim client.token [ none ↦ false | some token ↦ same_token token rest ])
      duplicate_token
  check_tokens rest

-- Whether an optional path is there and blank.
blank : Option Text → Bool
blank none = false
blank (some path) = is_empty (trim path)

-- `with_tls` is `cfg!(feature = "tls")`; `loopback_of` is `parse::<SocketAddr>` with whether the
-- address that it gives is a loopback one.
module _ (with_tls : Bool) (loopback_of : Text → Option Bool) where
  -- The last part of `validate`.
  unfoldable pub check_transport : ServerConfig → Result Refusal (Unit {0})
  unfolding blank trim
  check_transport c = elim (loopback_of c.bind) [
    | none ↦ err (unparsable_bind c.bind)
    | some loopback ↦ elim c.tls [
      | none ↦ refuse_if (not loopback && not c.insecure) (exposed_bind c.bind)
      | some tls ↦
          refuse_if (not with_tls) tls_unsupported
          >> (refuse_if (is_some tls.crl) revocation_unsupported
              >> (refuse_if (is_empty (trim tls.certificate))
                    (tls_path_missing (codes "certificate"))
                  >> (refuse_if (is_empty (trim tls.key)) (tls_path_missing (codes "key"))
                      >> (refuse_if (blank tls.client_ca) (tls_path_missing (codes "client_ca"))
                          >> refuse_if c.insecure insecure_with_tls))))
    ]
  ]

  -- `ServerConfig::validate`
  unfoldable pub validate : ServerConfig → Result Refusal (Unit {0})
  unfolding check_sections check_clients check_tokens check_transport
  validate c = do
    refuse_if (is_empty c.sections) no_sections
    refuse_if (is_empty c.clients) no_clients
    check_sections [] c.sections
    check_clients c.allow_anonymous c.sections [] 0 c.clients
    check_tokens c.clients
    check_transport c
