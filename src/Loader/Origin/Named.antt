-- ===== src/Loader/Origin/Named.antt =====
-- The names of the providers that the loader makes, and the origins they are traced to.
use dynamic_config.Prelude.{
  Option, none, some, List, [], ◌∷◌, ◌++◌, ◌≡◌, ◌⊎◌, inl, inr, refl, sym, subst, All, All-append,
  map,
}
use dynamic_config.Prelude.Text.{Text, codes, cmp}
use dynamic_config.Prelude.Str.{strip_prefix}
use dynamic_config.Prelude.Paths.{FilePath, display}
use dynamic_config.Prelude.Results.{ok}
use dynamic_config.Map.{Map}
use dynamic_config.Error.{Origin}
use dynamic_config.Figment.Provided.{Provided}
use dynamic_config.Bindings.{BindingProvider}
use dynamic_config.Layer.{Layer}
use dynamic_config.Source.{LoadSpec}
use dynamic_config.Dotenv.Provider.{provider_of}
use dynamic_config.Loader.Outside.{World, section_profile}
use dynamic_config.Loader.Sections.{Merging, then_merge, renamed}
use dynamic_config.Loader.Secrets.{secret}
use dynamic_config.Loader.Layers.{
  layer_provider, providers_of, merge_layer, binding_provider, defaults_name, overrides_name,
  flags_name,
}
use dynamic_config.Loader.Precedence.{then_merge-eq-ok}
use dynamic_config.Loader.Recovery.{ok-injective}
use dynamic_config.Loader.Origin.{origin_of, origin_of_prefix, origin_of_source}

-- The provider is traced to an origin of which this holds.
abbrev pub IsFrom : (Origin → Type 0) → Provided → Type 0
IsFrom P p = P (origin_of p.metadata)

abbrev pub IsOneOf : List Origin → Origin → Type 0
IsOneOf [] o = ⊥
IsOneOf (origin ∷ rest) o = (o ≡ origin) ⊎ IsOneOf rest o

pub All-IsOneOf :
    {A : Type 0} (f : A → Origin) (xs : List A) (P : Origin → Type 0)
    → ((o : Origin) → IsOneOf (map f xs) o → P o)
    → All (λ x. P (f x)) xs
All-IsOneOf f [] P h = tt
All-IsOneOf f (x ∷ xs) P h = (h (f x) (inl refl), All-IsOneOf f xs P (λ o m. h o (inr m)))

-- Two steps of a load, each of which merges what is from there.
pub then_merge-IsFrom :
    (P : Origin → Type 0) (a b : Merging) (ps : List Provided)
    → ((xs : List Provided) → a ≡ ok xs → All (IsFrom P) xs)
    → ((ys : List Provided) → b ≡ ok ys → All (IsFrom P) ys)
    → then_merge a b ≡ ok ps
    → All (IsFrom P) ps
then_merge-IsFrom P a b ps first second h =
    let (xs, ys, e, f, j) = then_merge-eq-ok a b ps h in
    subst (All (IsFrom P)) (sym j) (All-append (IsFrom P) xs ys (first xs e) (second ys f))

pub one-IsFrom :
    (P : Origin → Type 0) (p : Provided) (ps : List Provided)
    → IsFrom P p
    → ◌≡◌ {A = Merging} (ok (p ∷ [])) (ok ps)
    → All (IsFrom P) ps
one-IsFrom P p ps from h = subst (All (IsFrom P)) (ok-injective h) (from, tt)

pub none-IsFrom :
    (P : Origin → Type 0) (ps : List Provided)
    → ◌≡◌ {A = Merging} (ok []) (ok ps)
    → All (IsFrom P) ps
none-IsFrom P ps h = subst (All (IsFrom P)) (ok-injective h) tt

-- The names that the parts of the loader give, and what `origin_of` makes of them.
pub runtime_names :
    (layer : Layer) (profile : Text)
    → (origin_of (layer_provider layer profile defaults_name).metadata
        ≡ Origin.runtime (codes "default"))
      × (origin_of (layer_provider layer profile flags_name).metadata
          ≡ Origin.runtime (codes "command-line flag"))
      × (origin_of (layer_provider layer profile overrides_name).metadata
          ≡ Origin.runtime (codes "override"))
unfolding origin_of cmp layer_provider
runtime_names layer profile = (refl, refl, refl)

pub binding_name :
    (world : World) (p : BindingProvider)
    → origin_of (binding_provider world p).metadata ≡ Origin.env p.variable
unfolding origin_of origin_of_prefix strip_prefix cmp binding_provider
binding_name world p = refl

pub env_file_name :
    (world : World) (spec : LoadSpec) (prefix path : Text) (entries : Map Text)
    → origin_of
        (provider_of world.read spec.allow_empty_env prefix spec.nest path
          (section_profile spec.key)
          entries).metadata
      ≡ Origin.file path
unfolding origin_of origin_of_prefix strip_prefix cmp provider_of
env_file_name world spec prefix path entries = refl

pub secret_name :
    (path : FilePath) (key value section : Text)
    → origin_of (secret path key value section).metadata ≡ Origin.file (display path)
unfolding origin_of origin_of_prefix origin_of_source strip_prefix cmp secret
secret_name path key value section = refl

pub store_document_name :
    (store : Text) (document : Provided)
    → origin_of (renamed (codes "the remote store " ++ store) none document).metadata
      ≡ Origin.remote store
unfolding origin_of origin_of_prefix strip_prefix cmp renamed
store_document_name store document = refl

pub merge_layer-IsFrom :
    (layer : Option Layer) (profile name : Text) (o : Origin) (ps : List Provided)
    → ((l : Layer) → origin_of (layer_provider l profile name).metadata ≡ o)
    → merge_layer layer profile name ≡ ok ps
    → All (IsFrom (IsOneOf (o ∷ []))) ps
unfolding merge_layer providers_of
merge_layer-IsFrom none profile name o ps from h = none-IsFrom (IsOneOf (o ∷ [])) ps h
merge_layer-IsFrom (some l) profile name o ps from h =
    one-IsFrom (IsOneOf (o ∷ [])) (layer_provider l profile name) ps (inl (from l)) h
