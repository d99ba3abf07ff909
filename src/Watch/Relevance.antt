-- ===== src/Watch/Relevance.antt =====
-- dynamic-config/src/watch/relevance.rs: which events of a file watcher are about the configuration.
use dynamic_config.Prelude.{
  Bool, true, false, Option, none, some, List, [], ◌∷◌, ◌||◌, if◌then◌else◌,
}
use dynamic_config.Prelude.Text.{Text, codes}
use dynamic_config.Prelude.Str.{starts_with}
use dynamic_config.Prelude.Paths.{FilePath, file_name, parent, same_path, ends_with}
use dynamic_config.Source.Discovery.{is_candidate}

-- `notify::EventKind`, as far as `relevant_path` tells kinds apart.
pub data EventKind : Type 0 where
  create modify remove other : EventKind

-- `notify::Event`
pub record Event : Type 0 where
  pub kind : EventKind
  pub paths : List FilePath

-- `struct Watched`
pub record Watched : Type 0 where
  pub files : List FilePath
  pub search_directories : List FilePath
  pub search_name : Option Text

-- The test of one configured file in `is_ours`.
unfoldable pub is_file : FilePath → List FilePath → Bool
unfolding same_path ends_with
is_file changed [] = false
is_file changed (configured ∷ rest) =
    (same_path changed configured || (ends_with changed configured || ends_with configured changed))
    || is_file changed rest

-- `directory.ends_with(parent) || parent.ends_with(directory)`, for any of these.
unfoldable pub is_inside : FilePath → List FilePath → Bool
unfolding ends_with
is_inside directory [] = false
is_inside directory (p ∷ ps) =
    (ends_with directory p || ends_with p directory) || is_inside directory ps

-- `iter().filter_map(|file| file.parent())`
unfoldable pub parents : List FilePath → List FilePath
unfolding parent
parents [] = []
parents (p ∷ ps) = let later = parents ps in elim (parent p) [ none ↦ later | some d ↦ d ∷ later ]

unfoldable pub is_marker : Option Text → Bool
unfolding starts_with
is_marker none = false
is_marker (some name) = starts_with name (codes "..")

-- `is_mount_marker`
unfoldable pub is_mount_marker : FilePath → Watched → Bool
unfolding file_name parent parents is_inside is_marker
is_mount_marker changed watched =
    if is_marker (file_name changed)
    then elim (parent changed) [
      | none ↦ false
      | some directory ↦
          is_inside directory (parents watched.files)
          || is_inside directory watched.search_directories
    ]
    else false

unfoldable pub is_searched : FilePath → Option Text → Bool
unfolding is_candidate
is_searched changed none = false
is_searched changed (some name) = is_candidate changed name

-- `is_ours`
unfoldable pub is_ours : FilePath → Watched → Bool
unfolding is_file is_searched is_mount_marker
is_ours changed watched =
    is_file changed watched.files
    || (is_searched changed watched.search_name || is_mount_marker changed watched)

-- `iter().find(|changed| is_ours(changed, watched))`
unfoldable pub first_ours : Watched → List FilePath → Option FilePath
unfolding is_ours
first_ours watched [] = none
first_ours watched (p ∷ ps) = if is_ours p watched then some p else first_ours watched ps

unfoldable pub is_change : EventKind → Bool
is_change other = false
is_change _ = true

-- `relevant_path`
unfoldable pub relevant_path : Event → Watched → Option FilePath
unfolding first_ours is_change
relevant_path event watched = if is_change event.kind then first_ours watched event.paths else none

-- What the channel delivers: an event, or an error of the watcher.
pub data Message : Type 0 where
  event : Event → Message
  failed : Text → Message

-- The path that makes a message relevant.
unfoldable pub trigger_of : Watched → Message → Option FilePath
unfolding relevant_path
trigger_of watched (event e) = relevant_path e watched
trigger_of watched (failed text) = none
