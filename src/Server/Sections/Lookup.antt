-- ===== src/Server/Sections/Lookup.antt =====
-- The map of the sections: what is inserted is found, and every section is found under its own
-- application and profile.
use dynamic_config.Prelude.{
  ℕ, Bool, true, false, Option, some, List, [], ◌∷◌, ◌++◌, ◌≡◌, refl, arith, eq, ap, subst,
}
use dynamic_config.Prelude.Text.{Text, cmp_refl, eq_of_cmp, text_eq_iff}
use dynamic_config.Prelude.Results.{Result, ok, err}
use dynamic_config.Error.{Error}
use dynamic_config.Cell.{ConfigCell}
use dynamic_config.Server.Config.{SectionConfig, TlsConfig, check_sections, contains_pair}
use dynamic_config.Server.Config.{Refusal}
use dynamic_config.Server.Config.Valid.{passed, refuse_if-passed}
use dynamic_config.Server.Sections.{
  Section, StartupError, Document, cmp_pair, find, insert, load_section, load_sections,
}

cmp_pair_refl : (k : Text × Text) → cmp_pair k k ≡ eq
unfolding cmp_pair
cmp_pair_refl (a, p) = ground (arith, cmp_refl a, cmp_refl p)

eq_of_cmp_pair : (k j : Text × Text) → cmp_pair k j ≡ eq → k ≡ j
unfolding cmp_pair
eq_of_cmp_pair (a, p) (b, q) h = ground (arith, h, eq_of_cmp a b, eq_of_cmp p q)

module _ {L : Type 0} where
  pub find-insert :
      (k : Text × Text) (s : Section L) (l : List ((Text × Text) × Section L)) (q : Text × Text)
      → find q (insert k s l) ≡ elim (cmp_pair q k) [ eq ↦ some s | _ ↦ find q l ]
  unfolding find insert
  find-insert k s [] q = refl
  find-insert k s ((j, t) ∷ l) q = ground (
    arith,
    find-insert k s l q,
    eq_of_cmp_pair k j,
    eq_of_cmp_pair q k,
    eq_of_cmp_pair q j,
    cmp_pair_refl k,
    cmp_pair_refl j,
  )

  -- Every section stands under its own application and profile.
  abbrev pub Labelled : List ((Text × Text) × Section L) → Type 0
  Labelled [] = Unit
  Labelled ((k, s) ∷ l) = (s.application ≡ k.0) × (s.profile ≡ k.1) × Labelled l

  insert-Labelled :
      (s : Section L) (l : List ((Text × Text) × Section L))
      → Labelled l
      → Labelled (insert (s.application, s.profile) s l)
  unfolding insert
  insert-Labelled s [] h = (refl, refl, tt)
  insert-Labelled s ((j, t) ∷ l) h =
      ground (arith, insert-Labelled s l, eq_of_cmp_pair (s.application, s.profile) j)

  pub find-Labelled :
      (k : Text × Text) (s : Section L) (l : List ((Text × Text) × Section L))
      → Labelled l
      → find k l ≡ some s
      → (s.application ≡ k.0) × (s.profile ≡ k.1)
  unfolding find
  find-Labelled k s [] h e = absurd (cc)
  find-Labelled k s ((j, t) ∷ l) h e =
      ground (arith, e, h, find-Labelled k s l h.2, eq_of_cmp_pair k j)

-- A pair that was seen comes no more.
contains_pair-unseen :
    (a p : Text) (seen : List (Text × Text)) (d : SectionConfig) (rest : List SectionConfig)
    → contains_pair a p seen ≡ true
    → check_sections seen (d ∷ rest) ≡ ok tt
    → (cmp_pair (a, p) (d.application, d.profile) ≡ eq → ⊥)
      × (check_sections ((d.application, d.profile) ∷ seen) rest ≡ ok tt)
unfolding check_sections
contains_pair-unseen a p seen d rest c h =
    let (third, later) = passed _ _ (passed _ _ (passed _ _ h).1).1 in
    let fresh =
      refuse_if-passed (contains_pair d.application d.profile seen)
        (Refusal.duplicate_section d.application d.profile) third in
    ((λ e. differ (eq_of_cmp_pair (a, p) (d.application, d.profile) e) fresh), later)
  where
    differ :
        ◌≡◌ {A = Text × Text} (a, p) (d.application, d.profile)
        → contains_pair d.application d.profile seen ≡ false
        → ⊥
    differ e fresh =
        ground (arith, c, fresh, ap (λ (k : Text × Text). contains_pair k.0 k.1 seen) e)

check_sections-tail :
    (seen : List (Text × Text)) (d : SectionConfig) (rest : List SectionConfig)
    → check_sections seen (d ∷ rest) ≡ ok tt
    → check_sections ((d.application, d.profile) ∷ seen) rest ≡ ok tt
unfolding check_sections
check_sections-tail seen d rest h = ground (arith, h)

module _ {L : Type 0} (with_tls : Bool) (loopback_of : Text → Option Bool)
    (load_tls : TlsConfig → Result Text (Unit {0}))
    (init : SectionConfig → Result Error (ConfigCell (Document L)))
    (watch : SectionConfig → ℕ → Result Text (Unit {0})) where
  abbrev load_all :
      ℕ
      → List ((Text × Text) × Section L)
      → List SectionConfig
      → Result StartupError (List ((Text × Text) × Section L))
  load_all = load_sections with_tls loopback_of load_tls init watch

  -- One section loaded, and the rest.
  load_sections-cons :
      (n : ℕ) (loaded result : List ((Text × Text) × Section L)) (d : SectionConfig)
      (rest : List SectionConfig)
      → load_all n loaded (d ∷ rest) ≡ ok result
      → (config : ConfigCell (Document L)) × (init d ≡ ok config)
        × (load_all n
              (insert
                (d.application, d.profile)
                (record { application = d.application; profile = d.profile; config = config })
                loaded)
              rest
            ≡ ok result)
  unfolding load_sections load_section
  load_sections-cons n loaded result d rest h = at (init d) refl
    where
      at :
          (o : Result Error (ConfigCell (Document L)))
          → init d ≡ o
          → (config : ConfigCell (Document L)) × (init d ≡ ok config)
            × (load_all n
                  (insert
                    (d.application, d.profile)
                    (record { application = d.application; profile = d.profile; config = config })
                    loaded)
                  rest
                ≡ ok result)
      at (err e) q = absurd (ground (arith, h, q))
      at (ok config) q = (config, q, ground (arith, h, q))

  -- A section that was loaded is not loaded again.
  load_sections-seen :
      (n : ℕ) (a p : Text) (seen : List (Text × Text))
      (loaded result : List ((Text × Text) × Section L)) (rest : List SectionConfig)
      → contains_pair a p seen ≡ true
      → check_sections seen rest ≡ ok tt
      → load_all n loaded rest ≡ ok result
      → find (a, p) result ≡ find (a, p) loaded
  unfolding load_sections contains_pair
  load_sections-seen n a p seen loaded result [] c k h = ground (arith, h)
  load_sections-seen n a p seen loaded result (d ∷ rest) c k h =
      let (differ, later) = contains_pair-unseen a p seen d rest c k in
      let (config, loads, more) = load_sections-cons n loaded result d rest h in
      let s : Section L = record {
        application = d.application;
        profile = d.profile;
        config = config;
      } in
      let key : Text × Text = (d.application, d.profile) in
      let ih =
        load_sections-seen n a p (key ∷ seen) (insert key s loaded) result rest (ground (arith, c))
          later more in
      ground (arith, ih, find-insert key s loaded (a, p), differ)

  pub load_sections-at :
      (n : ℕ) (seen : List (Text × Text)) (loaded result : List ((Text × Text) × Section L))
      (before : List SectionConfig) (d : SectionConfig) (after : List SectionConfig)
      → check_sections seen (before ++ (d ∷ after)) ≡ ok tt
      → load_all n loaded (before ++ (d ∷ after)) ≡ ok result
      → (config : ConfigCell (Document L)) × (init d ≡ ok config)
        × (find (d.application, d.profile) result
            ≡ some (record { application = d.application; profile = d.profile; config = config }))
  unfolding contains_pair
  load_sections-at n seen loaded result [] d after k h =
      let (config, loads, more) = load_sections-cons n loaded result d after h in
      let s : Section L = record {
        application = d.application;
        profile = d.profile;
        config = config;
      } in
      let key : Text × Text = (d.application, d.profile) in
      let stays =
        load_sections-seen n d.application d.profile (key ∷ seen) (insert key s loaded) result after
          (ground (
            arith,
            (text_eq_iff d.application d.application).1 refl,
            (text_eq_iff d.profile d.profile).1 refl,
          ))
          (check_sections-tail seen d after k) more in
      (config, loads, ground (arith, stays, find-insert key s loaded key, cmp_pair_refl key))
  load_sections-at n seen loaded result (b ∷ before) d after k h =
      let (config, loads, more) = load_sections-cons n loaded result b (before ++ (d ∷ after)) h in
      let s : Section L = record {
        application = b.application;
        profile = b.profile;
        config = config;
      } in
      load_sections-at n ((b.application, b.profile) ∷ seen)
        (insert (b.application, b.profile) s loaded) result before d after
        (check_sections-tail seen b (before ++ (d ∷ after)) k) more

  pub load_sections-Labelled :
      (n : ℕ) (loaded result : List ((Text × Text) × Section L)) (sections : List SectionConfig)
      → Labelled loaded
      → load_all n loaded sections ≡ ok result
      → Labelled result
  unfolding load_sections
  load_sections-Labelled n loaded result [] l h = subst Labelled (ground (arith, h)) l
  load_sections-Labelled n loaded result (d ∷ rest) l h =
      let (config, loads, more) = load_sections-cons n loaded result d rest h in
      let s : Section L = record {
        application = d.application;
        profile = d.profile;
        config = config;
      } in
      load_sections-Labelled n (insert (d.application, d.profile) s loaded) result rest
        (insert-Labelled s loaded l) more
