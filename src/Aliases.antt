-- ===== src/Aliases.antt =====
-- dynamic-config/src/aliases.rs: old key paths and the paths that took their place, and
-- dynamic-config/src/loader/aliases_pass.rs, which fills the gaps that they leave.
pub mod Acyclic
pub mod Pass
mod Examples
use dynamic_config.Prelude.{
  ℕ, zero, suc, Bool, true, false, Option, none, some, List, [], ◌∷◌, ◌++◌, ◌||◌, ◌+◌, ltb, not,
  length, is_empty, if◌then◌else◌,
}
use dynamic_config.Prelude.Text.{Text, codes, text_eq, split}
use dynamic_config.Prelude.Str.{split_once, contains}
use dynamic_config.Prelude.Results.{Result, ok, err, ◌>>=◌, ◌>>◌}
use dynamic_config.Error
use dynamic_config.Error.{Error, type}
use dynamic_config.Layer
use dynamic_config.Layer.{check_path}
use dynamic_config.Map.{Map, get, insert}

-- `split_section`
unfoldable pub split_section : Text → Option Text × Text
unfolding split_once
split_section path = elim (split_once Layer.section path) [
  | none ↦ (none, path)
  | some (section, rest) ↦ (some section, rest)
]

-- The error of `check_old_path`, with the beginning of its message, and the others of `add`.
abbrev pub unusable : Text → Error
unusable from = Error.new type (codes "`" ++ (from ++ codes "` is not a usable old key path"))

abbrev pub qualified : Text → Error
qualified to = Error.new type (codes "`" ++ (to ++ codes "` names another section"))

abbrev pub itself : Text → Error
itself from = Error.new type (codes "`" ++ (from ++ codes "` cannot be an alias for itself"))

abbrev pub closes_cycle : Text → Text → Error
closes_cycle from to =
    Error.new type
      (codes "`" ++ (from ++ (codes "` -> `" ++ (to ++ codes "` closes an alias cycle"))))

-- `check_old_path`
unfoldable pub check_old_path : Text → Result Error (Unit {0})
unfolding split_section check_path contains
check_old_path from =
    let (section, path) = split_section from in
    elim section [
      | none ↦ check_path path
      | some s ↦
          if is_empty s || (contains s (b'.' ∷ []) || contains path Layer.section)
          then err (unusable from)
          else check_path path
    ]

-- The loop of `add`, on fuel: whether the chain from the cursor comes back to `from`, or has more
-- hops than there are aliases; `none` is that the fuel ran out.
unfoldable pub comes_back : ℕ → Map Text → Text → Text → ℕ → Option Bool
unfolding get
comes_back zero entries from cursor hops = none
comes_back (suc fuel) entries from cursor hops = elim (get entries cursor) [
  | none ↦ some false
  | some next ↦ elim (text_eq next from || ltb (length entries) hops) [
    | true ↦ some true
    | false ↦ comes_back fuel entries from next (hops + 1)
  ]
]

-- The checks of `add` before it takes the lock.
unfoldable pub check_alias : Text → Text → Result Error (Unit {0})
unfolding check_old_path check_path contains
check_alias from to =
    check_old_path from
    >> ((if contains to Layer.section then err (qualified to) else ok tt)
        >> (check_path to >> (if text_eq from to then err (itself from) else ok tt)))

-- `Aliases::add`; the loop makes one hop more than there are aliases, and one to see it.
unfoldable pub add : Text → Text → Map Text → Option (Result Error (Map Text))
unfolding check_alias comes_back insert
add from to entries = elim (check_alias from to) [
  | err e ↦ some (err e)
  | ok u ↦ elim (comes_back (length entries + 3) entries from to 0) [
    | none ↦ none
    | some cycle ↦ some (if cycle then err (closes_cycle from to) else ok (insert from to entries))
  ]
]

-- `known_keys`
unfoldable pub known_keys : Map Text → List Text
unfolding contains split
known_keys [] = []
known_keys ((path, to) ∷ rest) =
    let later = known_keys rest in
    if contains path Layer.section
    then later
    else elim (split b'.' path) [ [] ↦ later | first ∷ others ↦ first ∷ later ]

-- What the pass asks of figment: whether something above the defaults supplies a path, the value at an
-- old path, and the figment with a value at the new one.
pub record Gaps (F V : Type 0) : Type 0 where
  pub supplied : F → Text → Bool
  pub value_at : F → Text → Option V
  pub fill : F → (from to : Text) → V → F

-- `filled.contains(to)`
unfoldable pub has : Text → List Text → Bool
has to [] = false
has to (f ∷ fs) = text_eq f to || has to fs

-- What `apply_aliases` carries: the figment, the paths that it filled, and whether this round did.
pub record Filling (F : Type 0) : Type 0 where
  pub figment : F
  pub filled : List Text
  pub progressed : Bool

module _ {F V : Type 0} (gaps : Gaps F V) where
  -- One alias of a round.
  unfoldable pub try_alias : Text → Text → Filling F → Filling F
  unfolding has
  try_alias from to s =
      if has to s.filled || gaps.supplied s.figment to
      then s
      else elim (gaps.value_at s.figment from) [
        | none ↦ s
        | some value ↦ record {
          figment = gaps.fill s.figment from to value;
          filled = to ∷ s.filled;
          progressed = true;
        }
      ]

  -- A round.
  unfoldable pub round : List (Text × Text) → Filling F → Filling F
  unfolding try_alias
  round [] s = s
  round ((from, to) ∷ pairs) s = round pairs (try_alias from to s)

  -- The rounds, on fuel, until one fills nothing; `none` is that the fuel ran out.
  unfoldable pub rounds : ℕ → List (Text × Text) → F → List Text → Option (Filling F)
  unfolding round
  rounds zero pairs f filled = none
  rounds (suc fuel) pairs f filled =
      let s : Filling F =
        round pairs (record { figment = f; filled = filled; progressed = false }) in
      elim s.progressed [ true ↦ rounds fuel pairs s.figment s.filled | false ↦ some s ]

  -- `apply_aliases`: one round more than there are aliases.
  unfoldable pub apply_aliases : List (Text × Text) → F → Option (Filling F)
  unfolding rounds
  apply_aliases pairs f = rounds (length pairs + 1) pairs f []
