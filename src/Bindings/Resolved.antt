-- ===== src/Bindings/Resolved.antt =====
-- Which text a bound key takes, and where it is read.
use dynamic_config.Prelude.{
  Bool, Option, none, some, List, [], ◌∷◌, ◌||◌, ◌≡◌, refl, arith, not, is_empty, if◌then◌else◌,
}
use dynamic_config.Prelude.Text.{Text, split, split-cons}
use dynamic_config.Prelude.Str.{trim}
use dynamic_config.Map.{get}
use dynamic_config.Tree
use dynamic_config.Tree.{Tree, Table, table, end}
use dynamic_config.Value.{walk, step}
use dynamic_config.Figment.{FigmentValue}
use dynamic_config.Bindings.{
  BindingProvider, resolve, data_of, with_value, unless_blank, chosen, accept,
}
use dynamic_config.Layer.Expand.{walk-insert_path}

-- A text a binding may take: blank ones only if they are asked for.
abbrev pub is_full : Bool → Text → Bool
is_full allow_empty text = allow_empty || not (is_empty (trim text))

-- The first text there is that a binding may take.
unfoldable pub first_full : Bool → List (Option Text) → Option Text
unfolding trim
first_full allow_empty [] = none
first_full allow_empty (none ∷ rest) = first_full allow_empty rest
first_full allow_empty (some text ∷ rest) =
    let later = first_full allow_empty rest in if is_full allow_empty text then some text else later

abbrev pub read_with : (Text → FigmentValue) → Option Text → Option FigmentValue
read_with read none = none
read_with read (some text) = some (read text)

accept-full :
    (read : Text → FigmentValue) (allow_empty : Bool) (e f : Option Text)
    → accept read allow_empty (chosen (unless_blank allow_empty e) f)
      ≡ read_with read (first_full allow_empty (e ∷ f ∷ []))
unfolding accept chosen unless_blank first_full
accept-full read allow_empty none none = refl
accept-full read allow_empty none (some t) = ground arith
accept-full read allow_empty (some s) none = ground arith
accept-full read allow_empty (some s) (some t) = ground arith

walk-with_value :
    (path : Text) (value : Option FigmentValue)
    → walk (table (with_value path value)) (split b'.' path) ≡ value
unfolding with_value walk step Tree.get
walk-with_value path none = let (s, ss, e) = split-cons b'.' path in rw e refl
walk-with_value path (some value) = walk-insert_path end path value

module _ (environment : Text → Option Text) (read : Text → FigmentValue) where
  -- At its path, the document of a binding has the reading of the first of two texts that is not
  -- blank, or is there at all if blank ones are allowed: the variable's in the environment, and the
  -- one a `.env` file gave; it has nothing there if neither is.
  pub data_of-first_full :
      (p : BindingProvider)
      → walk (table (data_of environment read p).1) (split b'.' p.path)
        ≡ read_with read
            (first_full p.allow_empty (environment p.variable ∷ get p.fallback p.variable ∷ []))
  unfolding data_of resolve
  data_of-first_full p =
      rw (accept-full read p.allow_empty (environment p.variable) (get p.fallback p.variable)) (
        walk-with_value p.path (
          read_with read
            (first_full p.allow_empty (environment p.variable ∷ get p.fallback p.variable ∷ []))))
