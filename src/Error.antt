-- ===== src/Error.antt =====
-- dynamic-config/src/error.rs: the one error type, its kinds and where a value came from.
use dynamic_config.Prelude.{Bool, true, false, List, [], ◌∷◌, ◌++◌, is_empty, if◌then◌else◌}
use dynamic_config.Prelude.Text.{Text, codes, join}

pub data ErrorKind : Type 0 where
  io parse missing type env invalid remote auth decrypt backend : ErrorKind

-- `ErrorKind::as_str`
unfoldable pub as_str : ErrorKind → Text
as_str io = codes "io"
as_str parse = codes "parse"
as_str missing = codes "missing"
as_str type = codes "type"
as_str env = codes "env"
as_str invalid = codes "invalid"
as_str remote = codes "remote"
as_str auth = codes "auth"
as_str decrypt = codes "decrypt"
as_str backend = codes "backend"

pub data Origin : Type 0 where
  file env remote runtime : Text → Origin
  inline unknown : Origin

-- `Origin == Origin::Unknown`
abbrev pub is_unknown : Origin → Bool
is_unknown unknown = true
is_unknown _ = false

-- `Display for Origin`
unfoldable pub origin_text : Origin → Text
origin_text (file path) = codes "in " ++ path
origin_text (Origin.env name) = codes "from " ++ name
origin_text inline = codes "in an inline source"
origin_text (Origin.remote name) = codes "from " ++ name
origin_text (runtime layer) = codes "set as " ++ layer
origin_text unknown = codes "origin unknown"

pub record Error : Type 0 where
  pub kind : ErrorKind
  pub path : List Text
  pub origin : Origin
  pub message : Text

-- `Error::new`
abbrev pub new : ErrorKind → Text → Error
new kind message = record { kind = kind; path = []; origin = unknown; message = message }

-- `Error::prepend_key`
unfoldable pub prepend_key : Text → Error → Error
prepend_key key e = record e { path = key ∷ e.path }

-- `Error::with_origin`: the first origin stays.
unfoldable pub with_origin : Origin → Error → Error
with_origin origin e = if is_unknown e.origin then record e { origin = origin } else e

-- `Error::path`
unfoldable pub dotted_path : Error → Text
unfolding join
dotted_path e = join (b'.' ∷ []) e.path

-- `Display for Error`
unfoldable pub display : Error → Text
unfolding dotted_path origin_text
display e =
    (if is_empty e.path then e.message else dotted_path e ++ (codes ": " ++ e.message))
    ++ (if is_unknown e.origin then [] else codes " (" ++ (origin_text e.origin ++ codes ")"))
