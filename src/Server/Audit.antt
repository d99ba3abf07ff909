-- ===== src/Server/Audit.antt =====
-- dynamic-config-server/src/audit.rs: what is recorded of a request, and the line it is written as.
use dynamic_config.Prelude.{
  ℕ, Option, none, some, [], ◌∷◌, ◌++◌, ◌+◌, ◌/◌, ◌%◌, ◌==◌, if◌then◌else◌, zero, suc,
}
use dynamic_config.Prelude.Text.{Text, codes}

pub data Outcome : Type 0 where
  served unauthenticated not_found malformed unavailable : Outcome

-- `Outcome::as_str`
unfoldable pub outcome_text : Outcome → Text
outcome_text served = codes "served"
outcome_text unauthenticated = codes "unauthenticated"
outcome_text not_found = codes "not-found"
outcome_text malformed = codes "malformed"
outcome_text unavailable = codes "unavailable"

pub record AuditEntry : Type 0 where
  pub caller : Option Text
  pub application : Option Text
  pub profile : Option Text
  pub endpoint : Text
  pub outcome : Outcome
  pub generation : Option ℕ

-- `field`
unfoldable pub field : Option Text → Text
field none = b'-' ∷ []
field (some value) = value

-- The decimal digits of a number, on as much fuel as it has digits; `u64` has 20 at most.
unfoldable pub digits : ℕ → ℕ → Text → Text
digits zero n text = text
digits (suc fuel) n text =
    let more = digits fuel (n / 10) ((b'0' + n % 10) ∷ text) in if n == 0 then text else more

-- `u64::to_string`
unfoldable pub to_string : ℕ → Text
unfolding digits
to_string n = if n == 0 then b'0' ∷ [] else digits 20 n []

-- `Display for AuditEntry`
unfoldable pub entry_text : AuditEntry → Text
unfolding outcome_text field to_string
entry_text e =
    codes "audit caller="
    ++ (field e.caller
        ++ (codes " application="
            ++ (field e.application
                ++ (codes " profile="
                    ++ (field e.profile
                        ++ (codes " endpoint="
                            ++ (e.endpoint
                                ++ (codes " outcome="
                                    ++ (outcome_text e.outcome
                                        ++ (codes " generation=" ++ elim e.generation [
                                          | none ↦ b'-' ∷ []
                                          | some it ↦ to_string it
                                        ]))))))))))
