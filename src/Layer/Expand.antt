-- ===== src/Layer/Expand.antt =====
-- `Layer::dict`: what was set at a path is read there in the nested shape, unless another entry's
-- path lies above or below it; and the shape is well formed.
use dynamic_config.Prelude.{some, [], ◌∷◌, ◌≡◌, refl, eq, ◌∙◌, sym, subst}
use dynamic_config.Prelude.Text.{Text, cmp, cmp_refl, gt_of_lt, Cases, cmp-Cases, split, split-cons}
use dynamic_config.Prelude.Results.{ok}
use dynamic_config.Map
use dynamic_config.Map.{Map}
use dynamic_config.Map.Laws
use dynamic_config.Tree.{table, end}
use dynamic_config.Figment.{FigmentValue, Dict}
use dynamic_config.Value.{walk}
use dynamic_config.Layer.{Layer, insert_path, expand, dict, set, check_path}
use dynamic_config.Layer.InsertPath.{Diverge, walk-insert_segments_self, walk-insert_segments_ne}

-- No other entry's path lies above or below `path`.
abbrev pub Apart : Text → Map FigmentValue → Type 0
Apart path [] = Unit
Apart path ((j, w) ∷ rest) =
    elim (cmp path j) [ eq ↦ Unit | _ ↦ Diverge (split b'.' path) (split b'.' j) ] × Apart path rest

pub walk-insert_path :
    (root : Dict) (path : Text) (v : FigmentValue)
    → walk (table (insert_path root path v)) (split b'.' path) ≡ some v
unfolding insert_path
walk-insert_path root path v =
    let (s, ss, e) = split-cons b'.' path in rw e (walk-insert_segments_self root s ss v)

walk-expand_ne :
    (root : Dict) (path : Text) (m : Map FigmentValue)
    → Map.Laws.Above path m
    → Apart path m
    → walk (table (expand root m)) (split b'.' path) ≡ walk (table root) (split b'.' path)
unfolding expand
walk-expand_ne root path [] above apart = refl
walk-expand_ne root path ((j, w) ∷ rest) above apart =
    walk-expand_ne (insert_path root j w) path rest above.1 apart.1
    ∙ walk-insert_segments_ne root (split b'.' j) (split b'.' path) w (rw above.0 at apart.0)

walk-expand-insert :
    (root : Dict) (path : Text) (v : FigmentValue) (m : Map FigmentValue)
    → Map.Laws.IsSorted m
    → Apart path m
    → walk (table (expand root (Map.insert path v m))) (split b'.' path) ≡ some v
unfolding expand Map.insert
walk-expand-insert root path v [] s a = walk-insert_path root path v
walk-expand-insert root path v ((j, w) ∷ rest) s a = elim (cmp-Cases path j) [
  | Cases.below e ↦
      rw (e, Map.insert)
        (walk-expand_ne (insert_path root path v) path ((j, w) ∷ rest)
            (e, Map.Laws.Above-trans path j rest e s.0) a
          ∙ walk-insert_path root path v)
  | Cases.same e ↦
      let c : cmp path j ≡ eq = rw e (cmp_refl j) in
      rw (c, Map.insert)
        (walk-expand_ne (insert_path root path v) path rest
            (subst (λ x. Map.Laws.Above x rest) (sym e) s.0) a.1
          ∙ walk-insert_path root path v)
  | Cases.above e ↦
      rw (gt_of_lt j path e, Map.insert)
        (walk-expand-insert (insert_path root j w) path v rest s.1 a.1)
]

-- A value set at a usable path, in a layer whose entries are in key order, is read back at that
-- path of the nested shape, if no other entry's path lies above or below it.
pub walk-dict-set :
    (layer : Layer) (path : Text) (value : FigmentValue)
    → Map.Laws.IsSorted layer.entries
    → check_path path ≡ ok tt
    → Apart path layer.entries
    → walk (table (dict (set layer path (ok value)).0)) (split b'.' path) ≡ some value
unfolding set dict
walk-dict-set layer path value s c a =
    rw (c, set) (walk-expand-insert end path value layer.entries s a)
