-- ===== src/Prelude/Paths.antt =====
-- A `std::path::Path` as its components: `/` for the root, `.` only in front, `..` kept, and the
-- methods of it that the program calls.
use dynamic_config.Prelude.{
  Bool, true, false, Option, none, some, List, [], ◌∷◌, ◌++◌, ◌||◌, ◌==◌, is_empty, if◌then◌else◌,
}
use dynamic_config.Prelude.Text.{Text, codes, text_eq, split, join}

abbrev pub FilePath : Type 0
FilePath = List Text

-- Neither empty nor a dot.
abbrev is_shown : Text → Bool
is_shown s = elim (is_empty s || text_eq s (codes ".")) [ true ↦ false | false ↦ true ]

unfoldable pub below : List Text → FilePath
below [] = []
below (s ∷ ss) = if is_shown s then s ∷ below ss else below ss

-- `Path::components`
unfoldable pub components : Text → FilePath
unfolding split below
components t = elim (split b'/' t) [
  | [] ↦ []
  | first ∷ rest ↦ elim rest [
    | [] ↦ elim (is_empty first) [ true ↦ [] | false ↦ first ∷ [] ]
    | second ∷ more ↦ (if is_empty first then codes "/" else first) ∷ below (second ∷ more)
  ]
]

-- `Path::display`, of a path that is written as its components are.
unfoldable pub display : FilePath → Text
unfolding join
display [] = []
display (c ∷ cs) =
    if text_eq c (codes "/") then c ++ join (codes "/") cs else join (codes "/") (c ∷ cs)

abbrev pub is_normal : Text → Bool
is_normal c = elim (text_eq c (codes "/") || (text_eq c (codes "..") || text_eq c (codes "."))) [
  | true ↦ false
  | false ↦ true
]

-- `Path::file_name`: the last component, if it is a name.
unfoldable pub file_name : FilePath → Option Text
file_name [] = none
file_name (c ∷ []) = if is_normal c then some c else none
file_name (c ∷ d ∷ ds) = file_name (d ∷ ds)

unfoldable pub front : FilePath → FilePath
front [] = []
front (c ∷ []) = []
front (c ∷ d ∷ ds) = c ∷ front (d ∷ ds)

-- `Path::parent`
unfoldable pub parent : FilePath → Option FilePath
unfolding front
parent [] = none
parent (c ∷ []) = if text_eq c (codes "/") then none else some []
parent (c ∷ d ∷ ds) = some (front (c ∷ d ∷ ds))

-- `Path::with_file_name`
unfoldable pub with_file_name : FilePath → Text → FilePath
unfolding file_name front
with_file_name path name = elim (file_name path) [
  | none ↦ path ++ name ∷ []
  | some old ↦ front path ++ name ∷ []
]

-- `Path == Path`
unfoldable pub same_path : FilePath → FilePath → Bool
same_path [] [] = true
same_path [] (d ∷ ds) = false
same_path (c ∷ cs) [] = false
same_path (c ∷ cs) (d ∷ ds) = if text_eq c d then same_path cs ds else false

-- `Path::ends_with`
unfoldable pub ends_with : FilePath → FilePath → Bool
unfolding same_path
ends_with [] end = same_path [] end
ends_with (c ∷ cs) end = same_path (c ∷ cs) end || ends_with cs end

-- A name parted at its last dot: what is before it, and what is after.
unfoldable pub at_last_dot : Text → Option (Text × Text)
at_last_dot [] = none
at_last_dot (c ∷ cs) = elim (at_last_dot cs) [
  | some (before, after) ↦ some (c ∷ before, after)
  | none ↦ (if c == b'.' then some ([], cs) else none)
]

-- `Path::file_stem` and `Path::extension` of a path that is this name.
unfoldable pub file_stem : Text → Text
unfolding at_last_dot
file_stem name = elim (at_last_dot name) [
  | none ↦ name
  | some (before, after) ↦ (if is_empty before then name else before)
]

unfoldable pub extension : Text → Option Text
unfolding at_last_dot
extension name = elim (at_last_dot name) [
  | none ↦ none
  | some (before, after) ↦ (if is_empty before then none else some after)
]
