-- ===== src/Credential/Examples.antt =====
-- The cache of a credential at concrete inputs.
use dynamic_config.Prelude.{ℕ, Option, some, List, [], ◌∷◌, ◌+◌, ◌*◌, ◌^◌, ◌≡◌, refl, map, arith}
use dynamic_config.Prelude.Text.{codes}
use dynamic_config.Prelude.Results.{Result, ok, err}
use dynamic_config.Error
use dynamic_config.Error.{Error, remote}
use dynamic_config.Credential.{
  Issued, Cached, new, get, get_all, invalidate, usable, ends_within, expiry,
}
use dynamic_config.Credential.Requests.{get_all-one_request}

abbrev second : ℕ
second = 1_000_000_000

-- A store that counts its requests and issues that count for five minutes, and one that is down.
abbrev login : Option ℕ → ℕ → Result Error (Issued ℕ) × ℕ
login old n = (ok (record { value = n + 1; ttl = some (300 * second) }), n + 1)

abbrev down : Option ℕ → ℕ → Result Error (Issued ℕ) × ℕ
down old n = (err (Error.new remote (codes "connection refused")), n + 1)

abbrev kept : Cached ℕ
kept = record {
  held = some (record { value = 1; expires_at = some (310 * second) });
  margin = 60 * second;
}

-- In the last minute a failing store costs the call, and what is held stays.
outage : get (2 ^ 64) down (251 * second) (252 * second) kept 1 ≡ record {
  answer = err (Error.new remote (codes "connection refused"));
  cache = kept;
  store = 2;
}
unfolding get ends_within
outage = refl

-- An invalidated credential is obtained again, early or not.
refused : (get (2 ^ 64) login (20 * second) (21 * second) (invalidate kept) 1).answer ≡ ok 2
unfolding get
refused = refl

abbrev later : List (ℕ × ℕ)
later = (20 * second, 20 * second) ∷ (250 * second, 250 * second) ∷ []

abbrev times : List (ℕ × ℕ)
times = (9 * second, 10 * second) ∷ later

get_all-one_request_example :
    ((get_all (2 ^ 64) login times new 0).answers ≡ map (λ t. ok 1) times)
    × ((get_all (2 ^ 64) login times new 0).store ≡ 1)
unfolding usable expiry
get_all-one_request_example =
    get_all-one_request (2 ^ 64) login (9 * second) (10 * second) later new 0 1
      (record { value = 1; ttl = some (300 * second) }) refl refl (omega arith, (omega arith, tt))
