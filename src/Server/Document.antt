-- ===== src/Server/Document.antt =====
-- dynamic-config-server/src/document.rs: the document of a section, a `serde_json::Value`, which is
-- a tree here; what stands at a leaf other than an array is any type.
use mathlib.Core.List.{append_assoc}
use dynamic_config.Prelude.{List, [], ◌∷◌, ◌++◌, ◌≡◌, refl, sym, ap, ◌∙◌, if◌then◌else◌}
use dynamic_config.Prelude.Text.{Text, join}
use dynamic_config.Tree.{Tree, Table, leaf, array, table, end, entry, is_end}
use dynamic_config.Value
use dynamic_config.Value.{leaves, leaves_below}

module _ {L : Type 0} where
  unfoldable mutual
    -- `collect`; the prefix is pushed and cut again, so the caller's is the same after the call.
    pub collect : Tree L → Text → List Text → List Text
    collect (leaf s) prefix paths = paths ++ (prefix ∷ [])
    collect (array xs) prefix paths = paths ++ (prefix ∷ [])
    collect (table t) prefix paths =
        if is_end t then paths ++ (prefix ∷ []) else collect_below t prefix paths

    pub collect_below : Table L → Text → List Text → List Text
    collect_below end prefix paths = paths
    collect_below (entry key nested rest) prefix paths =
        collect_below rest prefix (collect nested (prefix ++ (b'.' ∷ key)) paths)

  -- The loop of `Document::leaf_paths`.
  unfoldable pub collect_top : Table L → List Text → List Text
  unfolding collect
  collect_top end paths = paths
  collect_top (entry key value rest) paths = collect_top rest (collect value key paths)

  -- `Document::leaf_paths`
  unfoldable pub leaf_paths : Tree L → List Text
  unfolding collect_top
  leaf_paths (table t) = collect_top t []
  leaf_paths v = []

-- A key more on a path that is not empty.
join-snoc :
    (first : Text) (path : List Text) (key : Text)
    → join (b'.' ∷ []) ((first ∷ path) ++ (key ∷ []))
      ≡ join (b'.' ∷ []) (first ∷ path) ++ (b'.' ∷ key)
unfolding join
join-snoc first [] key = refl
join-snoc first (s ∷ ss) key =
    ap (λ t. first ++ (b'.' ∷ t)) (join-snoc s ss key)
    ∙ sym (append_assoc first (b'.' ∷ []) (join (b'.' ∷ []) (s ∷ ss) ++ (b'.' ∷ key)))
    ∙ (append_assoc first (b'.' ∷ []) (join (b'.' ∷ []) (s ∷ ss) ++ (b'.' ∷ key))
        ∙ sym (append_assoc first (b'.' ∷ join (b'.' ∷ []) (s ∷ ss)) (b'.' ∷ key)))

module _ {L : Type 0} where
  mutual
    unfolding collect leaves

    collect-leaves :
        (v : Tree L) (first : Text) (path found : List Text)
        → collect v (join (b'.' ∷ []) (first ∷ path)) found ≡ leaves v (first ∷ path) found
    collect-leaves (leaf s) first path found = refl
    collect-leaves (array xs) first path found = refl
    collect-leaves (table end) first path found = refl
    collect-leaves (table (entry k v rest)) first path found =
        collect_below-leaves (entry k v rest) first path found

    collect_below-leaves :
        (t : Table L) (first : Text) (path found : List Text)
        → collect_below t (join (b'.' ∷ []) (first ∷ path)) found
          ≡ leaves_below t (first ∷ path) found
    collect_below-leaves end first path found = refl
    collect_below-leaves (entry k v rest) first path found =
        let inner = collect-leaves v first (path ++ (k ∷ [])) found in
        let later =
          collect_below-leaves rest first path (leaves v ((first ∷ path) ++ (k ∷ [])) found) in
        rw (← (join-snoc first path k)) (rw inner later)

  collect_top-leaves_below :
      (t : Table L) (found : List Text) → collect_top t found ≡ leaves_below t [] found
  unfolding collect_top leaves join
  collect_top-leaves_below end found = refl
  collect_top-leaves_below (entry k v rest) found =
      rw (collect-leaves v k [] found) (collect_top-leaves_below rest (leaves v (k ∷ []) found))

  -- The server walks a document with one growing text, the library with a stack of keys: both
  -- list the same paths in the same order.
  pub leaf_paths-leaf_paths : (document : Tree L) → leaf_paths document ≡ Value.leaf_paths document
  unfolding leaf_paths Value.leaf_paths
  leaf_paths-leaf_paths (leaf s) = refl
  leaf_paths-leaf_paths (array xs) = refl
  leaf_paths-leaf_paths (table t) = collect_top-leaves_below t []
