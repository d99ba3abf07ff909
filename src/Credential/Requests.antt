-- ===== src/Credential/Requests.antt =====
-- How often a cache asks its store for a credential.
use dynamic_config.Prelude.{
  ℕ, false, Option, none, some, List, [], ◌∷◌, ◌+◌, ◌≤◌, ◌≡◌, refl, arith, All, map,
}
use dynamic_config.Prelude.Results.{Result, ok, err}
use dynamic_config.Error.{Error}
use dynamic_config.Credential.{
  Issued, Held, Cached, get, get_all, ends_within, expiry, usable, is_stale, replaced, answer_with,
  keep_issued,
}

-- A time that is the margin or more before the expiry.
abbrev pub IsEarly : ℕ → Option ℕ → ℕ × ℕ → Type 0
IsEarly margin none times = Unit
IsEarly margin (some expires_at) (asked, answered) = asked + margin ≤ expires_at

ends_within-IsEarly :
    (margin : ℕ) (expires_at : Option ℕ) (times : ℕ × ℕ)
    → IsEarly margin expires_at times
    → ends_within times.0 margin expires_at ≡ false
unfolding ends_within
ends_within-IsEarly margin none times h = refl
ends_within-IsEarly margin (some expires_at) (asked, answered) h = ground (arith, h)

module _ {T : Type 0} where
  usable-IsEarly :
      (c : Cached T) (h : Held T) (times : ℕ × ℕ)
      → IsEarly c.margin h.expires_at times
      → usable times.0 c (some h) ≡ some h.value
  unfolding usable is_stale
  usable-IsEarly c h times early = rw (ends_within-IsEarly c.margin h.expires_at times early) refl

  module _ {W : Type 0} (instants : ℕ) (obtain : Option T → W → Result Error (Issued T) × W) where
    -- What is held serves every early call, and the store is left alone.
    get_all-held :
        (times : List (ℕ × ℕ)) (margin : ℕ) (h : Held T) (w : W)
        → All (IsEarly margin h.expires_at) times
        → get_all instants obtain times (record { held = some h; margin = margin }) w ≡ record {
          answers = map (λ t. ok h.value) times;
          cache = record { held = some h; margin = margin };
          store = w;
        }
    unfolding get_all get answer_with
    get_all-held [] margin h w early = refl
    get_all-held (t ∷ times) margin h w (first, rest) =
        rw
          (
            usable-IsEarly (record { held = some h; margin = margin }) h t first,
            get_all-held times margin h w rest,
          )
          refl

    -- In a run of calls of `get` with no `invalidate` between them, whose first finds no usable
    -- credential and obtains one: if every later call looks the margin or more before the expiry, or
    -- the credential has no expiry, all of them are answered with that credential, and the store is
    -- asked no second time.
    pub get_all-one_request :
        (asked answered : ℕ) (times : List (ℕ × ℕ)) (c : Cached T) (w w' : W) (issued : Issued T)
        → usable asked c c.held ≡ none
        → obtain (replaced c.held) w ≡ (ok issued, w')
        → All (IsEarly c.margin (expiry instants answered issued.ttl)) times
        → ((get_all instants obtain ((asked, answered) ∷ times) c w).answers
            ≡ map (λ t. ok issued.value) ((asked, answered) ∷ times))
          × ((get_all instants obtain ((asked, answered) ∷ times) c w).store ≡ w')
    unfolding get_all get answer_with keep_issued
    get_all-one_request asked answered times c w w' issued none_usable obtained early =
        rw
          (
            none_usable,
            obtained,
            get_all-held times c.margin
                (record { value = issued.value; expires_at = expiry instants answered issued.ttl })
                w' early,
          )
          (refl, refl)

    -- A call whose `obtain` failed leaves what was held.
    pub get-failed :
        (asked answered : ℕ) (c : Cached T) (w w' : W) (e : Error)
        → usable asked c c.held ≡ none
        → obtain (replaced c.held) w ≡ (err e, w')
        → get instants obtain asked answered c w ≡ record { answer = err e; cache = c; store = w' }
    unfolding get answer_with keep_issued
    get-failed asked answered c w w' e none_usable failed = rw (none_usable, failed) refl
