-- ===== src/Loader/Questions.antt =====
-- dynamic-config/src/loader/mod.rs, below the layers: what a caller asks of a load, with the record of
-- where each value came from that dynamic-config/src/snapshot.rs keeps.
use dynamic_config.Prelude.{
  Bool, false, Option, none, some, List, [], ◌∷◌, ◌&&◌, ◌||◌, ◌≡◌, ◌∙◌, ap, subst, refl, not, arith,
  is_some, if◌then◌else◌,
}
use dynamic_config.Prelude.Text.{Text, eq_of_cmp, text_eq, split}
use dynamic_config.Prelude.Results.{Result, ok, err, ◌>>=◌}
use dynamic_config.Map.{Map, get, insert}
use dynamic_config.Map.Laws.{get-insert}
use dynamic_config.Error.{Error, Origin, is_unknown}
use dynamic_config.Figment.{Dict}
use dynamic_config.Figment.Provided.{Failure, Metadata}
use dynamic_config.Value.{leaves_below}
use dynamic_config.Source.{LoadSpec}
use dynamic_config.Loader.Outside.{World}
use dynamic_config.Loader.Resolved.{Engine, merged}
use dynamic_config.Loader.Recovery.{ok-injective}
use dynamic_config.Loader.Origin.{convert, refine_env, origin_of, origin_or_unknown}

-- `Snapshot`
pub record Snapshot : Type 0 where
  pub values : Dict
  pub provenance : Map Origin

-- Whether a variable is set: `std::env::var_os(name).is_some()`.
unfoldable pub has_variable : List (Option Text × Option Text) → Text → Bool
has_variable [] name = false
has_variable ((none, value) ∷ rest) name = has_variable rest name
has_variable ((some key, value) ∷ rest) name = text_eq name key || has_variable rest name

-- The rows of `provenance` in `resolved`, for what `origin_in` answers.
unfoldable pub recorded : (Text → Origin) → List Text → Map Origin → Map Origin
unfolding insert
recorded origin [] rows = rows
recorded origin (path ∷ paths) rows =
    recorded origin paths
      (if is_unknown (origin path) then rows else insert path (origin path) rows)

module _ {F : Type 0} (engine : Engine F) (world : World) where
  -- `map_err(|error| convert(error, spec))`
  unfoldable pub converted : LoadSpec → Result Failure Dict → Result Error Dict
  unfolding convert has_variable
  converted spec (ok values) = ok values
  converted spec (err failure) = err (convert (has_variable world.variables) spec.nest failure)

  -- `load`, up to the conversion of the dictionary into the caller's type.
  unfoldable pub load : LoadSpec → Result Error Dict
  unfolding merged converted
  load spec = merged engine world spec >>= λ f. converted spec (engine.extract f)

  -- `origin_in`
  unfoldable pub origin_in : F → (path nest : Text) → Origin
  unfolding refine_env origin_or_unknown has_variable split
  origin_in f path nest =
      refine_env (has_variable world.variables) (origin_or_unknown (engine.find_metadata f path))
        (split b'.' path) nest

  -- The snapshot of a dictionary that a figment gave, with where each leaf came from.
  unfoldable pub snapshot_of : LoadSpec → F → Dict → Snapshot
  unfolding origin_in recorded leaves_below
  snapshot_of spec f values = record {
    values = values;
    provenance = recorded (λ path. origin_in f path spec.nest) (leaves_below values [] []) [];
  }

  unfoldable pub answered : LoadSpec → F → Result Error Dict → Result Error (Snapshot × F)
  unfolding snapshot_of
  answered spec f (err e) = err e
  answered spec f (ok values) = ok (snapshot_of spec f values, f)

  -- `resolved`
  unfoldable pub resolved : LoadSpec → Result Error (Snapshot × F)
  unfolding merged converted answered
  resolved spec =
      merged engine world spec >>= λ f. answered spec f (converted spec (engine.extract f))

  unfoldable pub traced : Option Metadata → (path nest : Text) → Option Origin
  unfolding refine_env origin_of has_variable split
  traced none path nest = none
  traced (some metadata) path nest =
      some (refine_env (has_variable world.variables) (origin_of metadata) (split b'.' path) nest)

  -- `source_of`
  unfoldable pub source_of : LoadSpec → Text → Result Error (Option Origin)
  unfolding merged traced
  source_of spec path =
      merged engine world spec >>= λ f. ok (traced (engine.find_metadata f path) path spec.nest)

  -- `is_set`
  unfoldable pub is_set : LoadSpec → Text → Result Error Bool
  unfolding merged
  is_set spec path = merged engine world spec >>= λ f. ok (is_some (engine.find_value f path))

-- Whether a path is among these.
abbrev pub is_among : Text → List Text → Bool
is_among path [] = false
is_among path (p ∷ ps) = text_eq path p || is_among path ps

get-recorded :
    (origin : Text → Origin) (paths : List Text) (rows : Map Origin) (path : Text)
    → get (recorded origin paths rows) path ≡ (
        if is_among path paths && not (is_unknown (origin path))
        then some (origin path)
        else get rows path)
unfolding recorded
get-recorded origin [] rows path = refl
get-recorded origin (p ∷ ps) rows path = ground (
  arith,
  get-recorded origin ps (if is_unknown (origin p) then rows else insert p (origin p) rows) path,
  get-insert p (origin p) rows path,
  eq_of_cmp path p,
)

module _ {F : Type 0} (engine : Engine F) (world : World) where
  answered_shape :
      (spec : LoadSpec) (s : Snapshot) (f g : F) (r : Result Error Dict)
      → answered engine world spec g r ≡ ok (s, f)
      → s ≡ snapshot_of engine world spec f s.values
  unfolding answered snapshot_of
  answered_shape spec s f g (err e) h = absurd (cc)
  answered_shape spec s f g (ok values) h =
      subst (λ (q : Snapshot × F). q.0 ≡ snapshot_of engine world spec q.1 q.0.values)
        (ok-injective h) refl

  resolved_shape :
      (spec : LoadSpec) (s : Snapshot) (f : F) (m : Result Error F)
      → (m >>= λ g. answered engine world spec g (converted engine world spec (engine.extract g)))
        ≡ ok (s, f)
      → s ≡ snapshot_of engine world spec f s.values
  resolved_shape spec s f (err e) h = absurd (cc)
  resolved_shape spec s f (ok g) h =
      answered_shape spec s f g (converted engine world spec (engine.extract g)) h

  -- What a snapshot answers of a path is what the load that made it would: the origin of the path if it
  -- is one of the leaves and its origin is known, and nothing otherwise.
  pub resolved-provenance :
      (spec : LoadSpec) (s : Snapshot) (f : F)
      → resolved engine world spec ≡ ok (s, f)
      → (path : Text)
      → get s.provenance path ≡ (
          if is_among path (leaves_below s.values [] [])
            && not (is_unknown (origin_in engine world f path spec.nest))
          then some (origin_in engine world f path spec.nest)
          else none)
  unfolding resolved snapshot_of get
  resolved-provenance spec s f h path =
      ap (λ (q : Snapshot). get q.provenance path)
        (resolved_shape spec s f (merged engine world spec) h)
      ∙ get-recorded (λ p. origin_in engine world f p spec.nest) (leaves_below s.values [] []) []
          path
