-- ===== src/Credential.antt =====
-- dynamic-config-store-core/src/credential.rs: a credential that expires, held by one cache, and when
-- another one is obtained. A time and a `Duration` are nanoseconds.
pub mod Requests
mod Examples
use dynamic_config.Prelude.{
  ℕ, Bool, true, false, Option, none, some, List, [], ◌∷◌, ◌+◌, ◌-◌, ◌*◌, ltb, if◌then◌else◌,
}
use dynamic_config.Prelude.Results.{Result, ok, err}
use dynamic_config.Error.{Error}

-- `REFRESH_WITHIN`
abbrev pub refresh_within : ℕ
refresh_within = 60 * 1_000_000_000

-- `struct Issued<T>`
pub record Issued (T : Type 0) : Type 0 where
  pub value : T
  pub ttl : Option ℕ

-- `struct Held<T>`
pub record Held (T : Type 0) : Type 0 where
  pub value : T
  pub expires_at : Option ℕ

-- `struct Cached<T>`
pub record Cached (T : Type 0) : Type 0 where
  pub held : Option (Held T)
  pub margin : ℕ

-- What a call leaves: its answer, the cache, and the store it may have asked.
pub record Got (T W : Type 0) : Type 0 where
  pub answer : Result Error T
  pub cache : Cached T
  pub store : W

-- What the answers of many calls leave.
pub record AllGot (T W : Type 0) : Type 0 where
  pub answers : List (Result Error T)
  pub cache : Cached T
  pub store : W

-- `expires_at.saturating_duration_since(now) < margin`
unfoldable pub ends_within : ℕ → ℕ → Option ℕ → Bool
ends_within now margin none = false
ends_within now margin (some expires_at) = ltb (expires_at - now) margin

-- `ttl.and_then(|ttl| now.checked_add(ttl))`; `instants` is one more than the last time an `Instant`
-- can hold.
unfoldable pub expiry : ℕ → ℕ → Option ℕ → Option ℕ
expiry instants now none = none
expiry instants now (some ttl) = if ltb (now + ttl) instants then some (now + ttl) else none

module _ {T : Type 0} where
  -- `Cached::with_margin`
  abbrev pub with_margin : ℕ → Cached T
  with_margin margin = record { held = none; margin = margin }

  -- `Cached::new`
  abbrev pub new : Cached T
  new = with_margin refresh_within

  -- `Cached::invalidate`
  abbrev pub invalidate : Cached T → Cached T
  invalidate c = record c { held = none }

  -- `Cached::is_stale`
  unfoldable pub is_stale : ℕ → Cached T → Held T → Bool
  is_stale now c h = ends_within now c.margin h.expires_at

  -- `held.as_ref().map(|current| &current.value)`
  unfoldable pub replaced : Option (Held T) → Option T
  replaced none = none
  replaced (some h) = some h.value

  -- The credential to answer with at once, if one is held that is not stale.
  unfoldable pub usable : ℕ → Cached T → Option (Held T) → Option T
  unfolding is_stale
  usable now c none = none
  usable now c (some h) = if is_stale now c h then none else some h.value

  module _ {W : Type 0} (instants : ℕ) (obtain : Option T → W → Result Error (Issued T) × W) where
    -- The rest of `get` once `obtain` has answered.
    unfoldable pub keep_issued : ℕ → Cached T → Result Error (Issued T) × W → Got T W
    keep_issued answered c (err e, w) = record { answer = err e; cache = c; store = w }
    keep_issued answered c (ok issued, w) = record {
      answer = ok issued.value;
      cache = record c {
        held =
            some
              (record { value = issued.value; expires_at = expiry instants answered issued.ttl });
      };
      store = w;
    }

    unfoldable pub answer_with : ℕ → Cached T → W → Option T → Got T W
    unfolding keep_issued
    answer_with answered c w (some value) = record { answer = ok value; cache = c; store = w }
    answer_with answered c w none = keep_issued answered c (obtain (replaced c.held) w)

    -- `Cached::get`: `asked` is the time it looks at the held credential, `answered` the time `obtain`
    -- is back.
    unfoldable pub get : ℕ → ℕ → Cached T → W → Got T W
    unfolding answer_with usable
    get asked answered c w = answer_with answered c w (usable asked c c.held)

    -- Calls of `get`, one after the other, as the lock lets them through.
    unfoldable pub get_all : List (ℕ × ℕ) → Cached T → W → AllGot T W
    unfolding get
    get_all [] c w = record { answers = []; cache = c; store = w }
    get_all ((asked, answered) ∷ times) c w =
        let first = get asked answered c w in
        let rest = get_all times first.cache first.store in
        record { answers = first.answer ∷ rest.answers; cache = rest.cache; store = rest.store }
