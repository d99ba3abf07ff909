-- ===== src/Group.antt =====
-- dynamic-config/src/group.rs: a group of configurations that reload together or not at all. The
-- values of all the members have one type here; each member has its own builder and sources.
pub mod Atomic
mod Examples
use dynamic_config.Prelude.{List, [], ◌∷◌}
use dynamic_config.Prelude.Text.{Text}
use dynamic_config.Prelude.Results.{Result, ok, err}
use dynamic_config.Error.{Error, prepend_key}
use dynamic_config.Lifecycle.{Builder, Outside, prepare, commit}

-- `struct Member`, with what its `prepare` reads and changes.
pub record Member (T : Type 0) : Type 0 where
  pub name : Text
  pub outside : Outside T
  pub builder : Builder T

-- What the first loop of `reload` leaves: the members, and the commits collected or the failure.
pub record Collected (T : Type 0) : Type 0 where
  pub members : List (Member T)
  pub commits : Result Error (List T)

module _ {T : Type 0} where
  -- The first loop, which stops at the first failure.
  unfoldable pub collect : List (Member T) → Collected T
  unfolding prepare prepend_key
  collect [] = record { members = []; commits = ok [] }
  collect (m ∷ rest) =
      let later = collect rest in
      let (builder, outcome) = prepare m.outside m.builder in
      let m' : Member T = record m { builder = builder } in
      elim outcome [
        | err e ↦ record { members = m' ∷ rest; commits = err (prepend_key m.name e) }
        | ok value ↦ record {
          members = m' ∷ later.members;
          commits = elim later.commits [ ok values ↦ ok (value ∷ values) | err e ↦ err e ];
        }
      ]

  -- The second loop: a commit that panics does not stop the others, and has installed by then.
  unfoldable pub commit_all : List T → List (Member T) → List (Member T)
  unfolding commit
  commit_all [] members = members
  commit_all (value ∷ values) [] = []
  commit_all (value ∷ values) (m ∷ rest) =
      record m { builder = commit m.outside value m.builder } ∷ commit_all values rest

  -- `ReloadGroup::reload`
  unfoldable pub reload : List (Member T) → List (Member T) × Result Error (Unit {0})
  unfolding collect commit_all
  reload members =
      let collected = collect members in
      elim collected.commits [
        | err e ↦ (collected.members, err e)
        | ok values ↦ (commit_all values collected.members, ok tt)
      ]
