-- ===== src/Loader/Secrets.antt =====
-- dynamic-config/src/loader/secrets.rs: a directory of files, each the value of one key.
use dynamic_config.Prelude.{
  Bool, Option, none, some, List, [], ◌∷◌, ◌++◌, ◌||◌, is_empty, if◌then◌else◌, lt, eq, gt,
  Ordering,
}
use dynamic_config.Prelude.Text.{Text, codes, cmp, split}
use dynamic_config.Prelude.Str.{replace, strip_suffix}
use dynamic_config.Prelude.Results.{ok, err}
use dynamic_config.Prelude.Paths.{FilePath, components, display, file_name}
use dynamic_config.Error
use dynamic_config.Error.{Error, ErrorKind, with_origin}
use dynamic_config.Tree.{leaf, end}
use dynamic_config.Figment
use dynamic_config.Figment.Provided.{Provided, from_file}
use dynamic_config.Layer.{any_empty, insert_path}
use dynamic_config.Source.{LoadSpec}
use dynamic_config.Loader.Outside.{World, Io, missing, broken, done, section_profile}
use dynamic_config.Loader.Sections.{Merging, then_merge}

-- `Path::cmp`
unfoldable pub cmp_path : FilePath → FilePath → Ordering
unfolding cmp
cmp_path [] [] = eq
cmp_path [] (d ∷ ds) = lt
cmp_path (c ∷ cs) [] = gt
cmp_path (c ∷ cs) (d ∷ ds) = elim (cmp c d) [ lt ↦ lt | gt ↦ gt | eq ↦ cmp_path cs ds ]

-- `paths.sort()`
unfoldable pub place : FilePath → List FilePath → List FilePath
unfolding cmp_path
place p [] = p ∷ []
place p (q ∷ qs) = elim (cmp_path p q) [ gt ↦ q ∷ place p qs | _ ↦ p ∷ q ∷ qs ]

unfoldable pub sort : List FilePath → List FilePath
unfolding place
sort [] = []
sort (p ∷ ps) = place p (sort ps)

-- `key_of`
unfoldable pub key_of : FilePath → Text → Option Text
unfolding file_name replace any_empty split
key_of path nest = elim (file_name path) [
  | none ↦ none
  | some name ↦
      let key = replace name nest (codes ".") in
      if is_empty key || any_empty (split b'.' key) then none else some key
]

-- `trim_one_newline`
unfoldable pub trim_one_newline : Text → Text
unfolding strip_suffix
trim_one_newline text = elim (strip_suffix (b'\n' ∷ []) text) [
  | none ↦ text
  | some trimmed ↦ elim (strip_suffix (b'\r' ∷ []) trimmed) [ none ↦ trimmed | some rest ↦ rest ]
]

-- `io`
unfoldable pub io_error : FilePath → Text → Error
unfolding with_origin display
io_error path message = with_origin (Error.file (display path)) (Error.new ErrorKind.io message)

-- `Secret` as a provider
unfoldable pub secret : FilePath → (key value section : Text) → Provided
unfolding insert_path display section_profile
secret path key value section = record {
  metadata = record {
    name = codes "the secrets file " ++ display path;
    source = some (from_file path);
  };
  documents =
      ok ((section_profile section, insert_path end key (leaf (Figment.string value))) ∷ []);
}

module _ (world : World) where
  -- The end of a round of the loop of `read`, for a regular file.
  unfoldable pub read_secret : LoadSpec → FilePath → Text → Io Text → Merging
  unfolding io_error secret trim_one_newline
  read_secret spec path key (missing message) = err (io_error path message)
  read_secret spec path key (broken message) = err (io_error path message)
  read_secret spec path key (done text) = ok (secret path key (trim_one_newline text) spec.key ∷ [])

  -- What `std::fs::metadata` says of the path.
  unfoldable pub read_entry : LoadSpec → FilePath → Text → Io Bool → Merging
  unfolding io_error read_secret
  read_entry spec path key (missing message) = ok []
  read_entry spec path key (broken message) = err (io_error path message)
  read_entry spec path key (done regular) =
      if regular then read_secret spec path key (world.contents path) else ok []

  -- The loop of `read`.
  unfoldable pub read_each : LoadSpec → List FilePath → Merging
  unfolding key_of read_entry then_merge
  read_each spec [] = ok []
  read_each spec (path ∷ rest) = elim (key_of path spec.nest) [
    | none ↦ read_each spec rest
    | some key ↦ then_merge (read_entry spec path key (world.is_regular path)) (read_each spec rest)
  ]

  -- `merge_secrets_dir`, with `read`
  unfoldable pub merge_secrets_dir : LoadSpec → Merging
  unfolding components io_error sort read_each
  merge_secrets_dir spec = elim spec.secrets_dir [
    | none ↦ ok []
    | some directory ↦ elim (world.directory (components directory)) [
      | missing message ↦ ok []
      | broken message ↦ err (io_error (components directory) message)
      | done paths ↦ read_each spec (sort paths)
    ]
  ]
