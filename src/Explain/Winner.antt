-- ===== src/Explain/Winner.antt =====
-- The winner that an explanation names, and what redaction leaves.
use dynamic_config.Prelude.{
  Bool, true, false, Option, none, some, List, [], ◌∷◌, ◌++◌, ◌≡◌, ◌⊎◌, inl, inr, refl, arith,
  is_some, Bool-cases, All, if◌then◌else◌,
}
use dynamic_config.Prelude.Text.{Text, codes, text_eq_iff}
use dynamic_config.Prelude.Results.{ok}
use dynamic_config.Error.{Origin, file, env, remote, runtime, inline, unknown, is_unknown}
use dynamic_config.Explain.{
  Contribution, Explanation, Found, last_with_value, winner, redact_rows, redacted, same_origin,
  contributions, alias_row, explain, disagrees, aliased_from,
}

same_origin-eq : (a b : Origin) → same_origin a b ≡ true → a ≡ b
unfolding same_origin
same_origin-eq (file a) (file b) h = ground (arith, (text_eq_iff a b).0 h)
same_origin-eq (env a) (env b) h = ground (arith, (text_eq_iff a b).0 h)
same_origin-eq (remote a) (remote b) h = ground (arith, (text_eq_iff a b).0 h)
same_origin-eq (runtime a) (runtime b) h = ground (arith, (text_eq_iff a b).0 h)
same_origin-eq inline inline h = refl
same_origin-eq unknown unknown h = refl
same_origin-eq _ _ h = absurd (cc)

last_with_value-snoc :
    (rows : List Contribution) (row : Contribution) (v : Text)
    → row.value ≡ some v
    → last_with_value (rows ++ (row ∷ [])) ≡ some row
unfolding last_with_value
last_with_value-snoc [] row v h = rw h
last_with_value-snoc (r ∷ rows) row v h = rw (last_with_value-snoc rows row v h)

-- What redaction leaves of one row.
abbrev redact : Contribution → Contribution
redact row = if is_some row.value then record row { value = some (codes "***") } else row

last_with_value-redact_rows :
    (rows : List Contribution)
    → last_with_value (redact_rows rows) ≡ elim (last_with_value rows) [
      | none ↦ none
      | some row ↦ some (record row { value = some (codes "***") })
    ]
unfolding last_with_value redact_rows
last_with_value-redact_rows [] = refl
last_with_value-redact_rows (row ∷ rows) =
    at row.value refl (last_with_value rows) refl (last_with_value-redact_rows rows)
  where
    at :
        (v : Option Text)
        → row.value ≡ v
        → (w : Option Contribution) → last_with_value rows ≡ w
        → last_with_value (redact_rows rows)
          ≡ elim (last_with_value rows) as (λ _. Option Contribution) [
            | none ↦ none
            | some it ↦ some (record it { value = some (codes "***") })
          ]
        → last_with_value (redact_rows (row ∷ rows))
          ≡ elim (last_with_value (row ∷ rows)) as (λ _. Option Contribution) [
            | none ↦ none
            | some it ↦ some (record it { value = some (codes "***") })
          ]
    at v p w q ih = ground (arith, p, q, ih)

-- Redaction keeps every row's layer, origin and old name and which row wins, and no value but three
-- stars stands in a redacted explanation.
winner-redacted :
    (e : Explanation)
    → (winner (redacted e) ≡ elim (winner e) [
      | none ↦ none
      | some row ↦ some (record row { value = some (codes "***") })
    ])
      × All
          (λ (row : Contribution). (row.value ≡ none) ⊎ (row.value ≡ some (codes "***")))
          (redacted e).rows
unfolding winner redacted
winner-redacted e = (last_with_value-redact_rows e.rows, starred e.rows)
  where
    starred :
        (rows : List Contribution)
        → All
            (λ (row : Contribution). (row.value ≡ none) ⊎ (row.value ≡ some (codes "***")))
            (redact_rows rows)
    starred [] = tt
    starred (row ∷ rows) = (each row.value refl, starred rows)
      where
        each :
            (v : Option Text)
            → row.value ≡ v
            → ((redact row).value ≡ none) ⊎ ((redact row).value ≡ some (codes "***"))
        each none q = inl (rw q refl)
        each (some t) q = inr (rw q refl)

is_unknown-eq : (o : Origin) → is_unknown o ≡ true → o ≡ unknown
is_unknown-eq unknown h = refl
is_unknown-eq _ h = absurd (cc)

-- Where the merged configuration has a value at the path, the explanation has a winner, and the
-- winner comes from where the merged value comes from, unless that is not known.
pub explain-winner :
    (layers : List (Text × Option Found)) (it : Found) (pairs : List (Text × Text)) (path : Text)
    (e : Explanation)
    → explain (ok layers) (ok (some it)) pairs path ≡ ok e
    → (row : Contribution) × (winner e ≡ some row)
      × ((row.origin ≡ some it.origin) ⊎ (it.origin ≡ unknown))
unfolding explain winner alias_row
explain-winner layers it pairs path e h =
    at (last_with_value (contributions layers)) refl
      (disagrees (last_with_value (contributions layers)) it.origin) refl
  where
    rows : List Contribution
    rows = contributions layers

    alias : Contribution
    alias = record {
      layer = codes "alias";
      origin = some it.origin;
      value = some it.rendered;
      aliased_from = aliased_from pairs path;
    }

    agreed :
        (row : Contribution) (o : Option Origin)
        → row.origin ≡ o
        → disagrees (some row) it.origin ≡ false
        → (row.origin ≡ some it.origin) ⊎ (it.origin ≡ unknown)
    agreed row none q d = inr (is_unknown-eq it.origin (ground (arith, q, d)))
    agreed row (some o) q d = elim (Bool-cases (is_unknown it.origin)) [
      | inl u ↦ inr (is_unknown-eq it.origin u)
      | inr k ↦ inl (ground (arith, q, same_origin-eq o it.origin (ground (arith, q, d, k))))
    ]

    at :
        (w : Option Contribution)
        → last_with_value rows ≡ w
        → (b : Bool) → disagrees (last_with_value rows) it.origin ≡ b
        → (row : Contribution) × (winner e ≡ some row)
          × ((row.origin ≡ some it.origin) ⊎ (it.origin ≡ unknown))
    at w q true d =
        let shape : e.rows ≡ rows ++ (alias ∷ []) = ground (arith, h, d) in
        (alias, rw shape (last_with_value-snoc rows alias it.rendered refl), inl refl)
    at none q false d = absurd (ground (arith, q, d))
    at (some row) q false d =
        let shape : e.rows ≡ rows = ground (arith, h, d) in
        (row, rw shape q, agreed row row.origin refl (ground (arith, q, d)))
