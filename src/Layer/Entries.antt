-- ===== src/Layer/Entries.antt =====
-- What the operations of a layer leave in it: the entries stay in key order, a failing operation
-- says what it left, and the nested shape is well formed.
use dynamic_config.Prelude.{
  Option, none, some, List, [], ◌∷◌, ◌++◌, ◌≡◌, refl, arith, ap, All, is_some, inl, inr,
  Option-cases,
}
use dynamic_config.Prelude.Text.{Text, cmp_refl, split}
use dynamic_config.Prelude.Str.{split_once, trim}
use dynamic_config.Prelude.Results.{Result, ok, err, ◌>>=◌}
use dynamic_config.Error.{Error}
use dynamic_config.Map
use dynamic_config.Map.{Map}
use dynamic_config.Map.Laws
use dynamic_config.Tree.{Tree, Table, leaf, array, table, end, get}
use dynamic_config.Tree.Laws.{insert-IsSorted}
use dynamic_config.Figment.{FigmentValue, Dict}
use dynamic_config.Value.WellFormed.{
  IsWellFormed, ValuesWellFormed, insert-ValuesWellFormed, get-IsWellFormed,
}
use dynamic_config.Layer.{
  Layer, nested, insert_segments, insert_path, expand, dict, set, unset, check_path,
  set_assignments, put_entry, serialized_at, assign,
}

-- The entries are in key order and hold well-formed values.
pub record IsValid (layer : Layer) : Type 0 where
  pub sorted : Map.Laws.IsSorted layer.entries
  pub values : All (λ (e : Text × FigmentValue). IsWellFormed e.1) layer.entries

All-insert :
    (k : Text) (v : FigmentValue) (m : Map FigmentValue)
    → IsWellFormed v
    → All (λ (e : Text × FigmentValue). IsWellFormed e.1) m
    → All (λ (e : Text × FigmentValue). IsWellFormed e.1) (Map.insert k v m)
unfolding Map.insert
All-insert k v [] w a = (w, tt)
All-insert k v ((j, x) ∷ rest) w a = ground (arith, All-insert k v rest w)

All-remove :
    (k : Text) (m : Map FigmentValue)
    → All (λ (e : Text × FigmentValue). IsWellFormed e.1) m
    → All (λ (e : Text × FigmentValue). IsWellFormed e.1) (Map.remove k m)
unfolding Map.remove
All-remove k [] a = tt
All-remove k ((j, x) ∷ rest) a = ground (arith, All-remove k rest)

insert-IsValid :
    (layer : Layer) (k : Text) (v : FigmentValue)
    → IsValid layer
    → IsWellFormed v
    → IsValid (record { entries = Map.insert k v layer.entries })
insert-IsValid layer k v h w = record {
  sorted = Map.Laws.insert-IsSorted k v layer.entries h.sorted;
  values = All-insert k v layer.entries w h.values;
}

module _ {L : Type 0} where
  nested-IsWellFormed :
      (t : Table L) (k : Text) → ValuesWellFormed t → IsWellFormed (table (nested (get t k)))
  unfolding nested
  nested-IsWellFormed t k w = elim (Option-cases (get t k)) [
    | inl e ↦ rw (e, nested) (tt, tt)
    | inr (v, e) ↦ rw (e, nested) (below v (get-IsWellFormed t k v w e))
  ]
    where
      below : (v : Tree L) → IsWellFormed v → IsWellFormed (table (nested (some v)))
      below (leaf x) h = (tt, tt)
      below (array xs) h = (tt, tt)
      below (table u) h = h

  insert_segments-IsWellFormed :
      (root : Table L) (segments : List Text) (v : Tree L)
      → IsWellFormed (table root)
      → IsWellFormed v
      → IsWellFormed (table (insert_segments root segments v))
  unfolding insert_segments
  insert_segments-IsWellFormed root [] v w h = w
  insert_segments-IsWellFormed root (s ∷ []) v w h =
      (insert-IsSorted s v root w.0, insert-ValuesWellFormed s v root h w.1)
  insert_segments-IsWellFormed root (s ∷ t ∷ ss) v w h =
      let under : Table L = nested (get root s) in
      let below : Table L = insert_segments under (t ∷ ss) v in
      (
        insert-IsSorted s (table below) root w.0,
        insert-ValuesWellFormed s (table below) root
            (insert_segments-IsWellFormed under (t ∷ ss) v (nested-IsWellFormed root s w.1) h) w.1,
      )

expand-IsWellFormed :
    (root : Dict) (m : Map FigmentValue)
    → IsWellFormed (table root)
    → All (λ (e : Text × FigmentValue). IsWellFormed e.1) m
    → IsWellFormed (table (expand root m))
unfolding expand insert_path
expand-IsWellFormed root [] w a = w
expand-IsWellFormed root ((path, v) ∷ rest) w a =
    expand-IsWellFormed (insert_segments root (split b'.' path) v) rest
      (insert_segments-IsWellFormed root (split b'.' path) v w a.0) a.1

-- The nested shape of a valid layer is in key order at every level.
pub dict-IsWellFormed : (layer : Layer) → IsValid layer → IsWellFormed (table (dict layer))
unfolding dict
dict-IsWellFormed layer h = expand-IsWellFormed end layer.entries (tt, tt) h.values

-- In a valid layer `unset` says whether the path was there, the path is not there after, and the
-- layer is valid.
pub unset-get :
    (layer : Layer) (path : Text)
    → IsValid layer
    → ((unset layer path).1 ≡ is_some (Map.get layer.entries path))
      × (Map.get (unset layer path).0.entries path ≡ none)
      × IsValid (unset layer path).0
unfolding unset
unset-get layer path h = (
  refl,
  ground (arith, Map.Laws.get-remove path layer.entries path h.sorted, cmp_refl path),
  record {
    sorted = Map.Laws.remove-IsSorted path layer.entries h.sorted;
    values = All-remove path layer.entries h.values;
  },
)

put_entry-IsValid :
    (layer : Layer) (path : Text) (r : Result Error FigmentValue)
    → IsValid layer
    → ((v : FigmentValue) → r ≡ ok v → IsWellFormed v)
    → IsValid (put_entry layer path r).0
unfolding put_entry
put_entry-IsValid layer path (err e) h w = h
put_entry-IsValid layer path (ok v) h w = insert-IsValid layer path v h (w v refl)

-- `set` keeps a layer valid, whether it succeeds or not, if what the serializer gave is well formed.
pub set-IsValid :
    (layer : Layer) (path : Text) (serialized : Result Text FigmentValue)
    → IsValid layer
    → ((v : FigmentValue) → serialized ≡ ok v → IsWellFormed v)
    → IsValid (set layer path serialized).0
unfolding set
set-IsValid layer path serialized h w =
    put_entry-IsValid layer path (check_path path >>= λ _. serialized_at path serialized) h
      (taken (check_path path) serialized w)
  where
    taken :
        (c : Result Error (Unit {0})) (s : Result Text FigmentValue)
        → ((v : FigmentValue) → s ≡ ok v → IsWellFormed v)
        → (v : FigmentValue) → (c >>= λ _. serialized_at path s) ≡ ok v
        → IsWellFormed v
    taken (err e) s w v q = absurd (cc)
    taken (ok u) (err m) w v q = absurd (cc)
    taken (ok u) (ok x) w v q = w v (cc)

module _ (read : Text → FigmentValue) where
  -- A text is taken, or the layer is left as it was.
  put_entry-err :
      (layer layer' : Layer) (path : Text) (r : Result Error FigmentValue) (e : Error)
      → put_entry layer path r ≡ (layer', err e)
      → layer' ≡ layer
  unfolding put_entry
  put_entry-err layer layer' path (err x) e h = cc
  put_entry-err layer layer' path (ok v) e h = absurd (cc)

  assign-err :
      (layer layer' : Layer) (assignment : Text) (e : Error)
      → assign read layer assignment ≡ (layer', err e)
      → layer' ≡ layer
  unfolding assign
  assign-err layer layer' assignment e h = at (split_once (b'=' ∷ []) assignment) refl
    where
      at : (o : Option (Text × Text)) → split_once (b'=' ∷ []) assignment ≡ o → layer' ≡ layer
      at none q = cc (rw (q, assign) at h)
      at (some (path, value)) q =
          put_entry-err layer layer' (trim path) (check_path (trim path) >>= λ _. ok (read value)) e
            (rw (q, assign) at h)

  -- A failing list of assignments stops at the first that fails: what stands before it is set, as
  -- if it stood alone, and the failing one changes nothing.
  pub set_assignments-stops :
      (layer layer' : Layer) (assignments : List Text) (e : Error)
      → set_assignments read layer assignments ≡ (layer', err e)
      → (done : List Text) × (failed : Text) × (rest : List Text) × (assignments
          ≡ done ++ (failed ∷ rest))
        × (set_assignments read layer done ≡ (layer', ok tt))
        × (assign read layer' failed ≡ (layer', err e))
  unfolding set_assignments
  set_assignments-stops layer layer' [] e h = absurd (cc)
  set_assignments-stops layer layer' (a ∷ rest) e h =
      go (assign read layer a) refl (λ l. set_assignments-stops l layer' rest e)
    where
      go :
          (r : Layer × Result Error (Unit {0}))
          → assign read layer a ≡ r
          → ((l : Layer)
              → set_assignments read l rest ≡ (layer', err e)
              → (done : List Text) × (failed : Text) × (after : List Text) × (rest
                  ≡ done ++ (failed ∷ after))
                × (set_assignments read l done ≡ (layer', ok tt))
                × (assign read layer' failed ≡ (layer', err e)))
          → (done : List Text) × (failed : Text) × (after : List Text) × (a ∷ rest
              ≡ done ++ (failed ∷ after))
            × (set_assignments read layer done ≡ (layer', ok tt))
            × (assign read layer' failed ≡ (layer', err e))
      go (l, ok u) q ih =
          let later : set_assignments read l rest ≡ (layer', err e) = ground (arith, h, q) in
          let (done, failed, after, parts, before, last) = ih l later in
          (a ∷ done, failed, after, ap (λ ys. a ∷ ys) parts, ground (arith, q, before), last)
      go (l, err x) q ih =
          let stopped : ◌≡◌ {A = Layer × Result Error (Unit {0})} (l, err x) (layer', err e) =
            ground (arith, h, q) in
          let same : l ≡ layer = assign-err layer l a x q in ([], a, rest, refl, cc, cc)
