-- ===== src/Loader/Siblings.antt =====
-- The file that a profile names lies beside the file that it varies.
use dynamic_config.Prelude.{
  true, false, none, some, [], ◌∷◌, ◌++◌, ◌≤◌, ◌≡◌, ◌≢◌, refl, sym, subst, ◌∙◌, ap, All, All-append,
  arith, length, length-append, if◌then◌else◌, Option-cases, eq, inl, inr,
}
use dynamic_config.Prelude.Text.{Text, codes, split, text_eq_iff, cmp, eq_of_cmp}
use dynamic_config.Prelude.Str.{contains, starts_with, strip_prefix, strip_suffix}
use dynamic_config.Prelude.Str.Cut.{All-tail}
use dynamic_config.Prelude.Paths.{
  FilePath, components, file_name, is_normal, front, with_file_name, at_last_dot, file_stem,
  extension,
}
use dynamic_config.Source.{extension_of, inner_name, encrypted_suffix}
use dynamic_config.Loader.Sections.{
  profile_is_safe, plain_variant, name_variant_in, name_variant, profile_variant, encrypted_name,
}

-- No separator of directories is in the text.
abbrev pub NoSlash : Text → Type 0
NoSlash t = All (λ c. c ≢ b'/') t

contains-NoSlash : (t : Text) → contains t (codes "/") ≡ false → NoSlash t
unfolding contains starts_with strip_prefix
contains-NoSlash [] h = tt
contains-NoSlash (c ∷ cs) h = (ground arith, contains-NoSlash cs (ground arith))

split-NoSlash : (t : Text) → NoSlash t → split b'/' t ≡ t ∷ []
unfolding split
split-NoSlash [] h = refl
split-NoSlash (c ∷ cs) h = ground (arith, split-NoSlash cs h.1)

All-head : (xs ys : Text) → NoSlash (xs ++ ys) → NoSlash xs
All-head [] ys h = tt
All-head (x ∷ xs) ys h = (h.0, All-head xs ys h.1)

at_last_dot-append : (t a b : Text) → at_last_dot t ≡ some (a, b) → t ≡ a ++ b'.' ∷ b
unfolding at_last_dot
at_last_dot-append [] a b h = absurd (cc)
at_last_dot-append (c ∷ cs) a b h = elim (Option-cases (at_last_dot cs)) [
  | inl q ↦ ground (arith, q, h)
  | inr ((a', b'), q) ↦
      let ih : cs ≡ a' ++ b'.' ∷ b' = at_last_dot-append cs a' b' q in ground (arith, q, h, ih)
]

strip_suffix-append : (s t r : Text) → strip_suffix s t ≡ some r → t ≡ r ++ s
unfolding strip_suffix
strip_suffix-append s [] r h = ground (arith, text_eq_iff s [], h)
strip_suffix-append s (c ∷ cs) r h = elim (Option-cases (strip_suffix s cs)) [
  | inl q ↦ ground (arith, q, h, text_eq_iff s (c ∷ cs))
  | inr (rest, q) ↦ ground (arith, q, h, text_eq_iff s (c ∷ cs), strip_suffix-append s cs rest q)
]

file_name-NoSlash :
    (name last : Text) → NoSlash name → file_name (components name) ≡ some last → last ≡ name
unfolding components file_name
file_name-NoSlash [] last h e = absurd (unfold split in cc)
file_name-NoSlash (c ∷ cs) last h e =
    let e' : (if is_normal (c ∷ cs) then some (c ∷ cs) else none) ≡ some last =
      rw (split-NoSlash (c ∷ cs) h, components, file_name) at e in
    ground (arith, e')

-- A name in a directory: no separator is in it, and it is neither `.` nor `..`.
abbrev IsPlain : Text → Type 0
IsPlain v = NoSlash v × (3 ≤ length v)

IsPlain-name :
    (before after profile : Text)
    → NoSlash before
    → NoSlash after
    → NoSlash profile
    → before ≢ []
    → IsPlain (before ++ (codes "." ++ (profile ++ (codes "." ++ after))))
IsPlain-name [] after profile hb ha hp e = absurd (e refl)
IsPlain-name (c ∷ cs) after profile hb ha hp e = (
  All-append (λ c. c ≢ b'/') (c ∷ cs) (codes "." ++ (profile ++ (codes "." ++ after))) hb
      (omega arith, All-append (λ c. c ≢ b'/') profile (codes "." ++ after) hp (omega arith, ha)),
  omega (
    arith,
    length-append (c ∷ cs) (codes "." ++ (profile ++ (codes "." ++ after))),
    length-append profile (codes "." ++ after),
  ),
)

stem_and_extension :
    (last ext : Text)
    → extension last ≡ some ext
    → (before : Text) × (file_stem last ≡ before) × (before ≢ []) × (last ≡ before ++ b'.' ∷ ext)
unfolding extension file_stem
stem_and_extension last ext h = elim (Option-cases (at_last_dot last)) [
  | inl q ↦ absurd (ground (arith, q, h))
  | inr (([], after), q) ↦ absurd (ground (arith, q, h))
  | inr ((b ∷ bs, after), q) ↦ (
    b ∷ bs,
    rw (q, file_stem) refl,
    λ e. cc,
    ground (arith, q, h, at_last_dot-append last (b ∷ bs) after q),
  )
]

plain_variant-IsPlain :
    (name profile v : Text)
    → NoSlash name
    → NoSlash profile
    → plain_variant name profile ≡ some v
    → IsPlain v
unfolding plain_variant
plain_variant-IsPlain name profile v hn hp h = elim (Option-cases (file_name (components name))) [
  | inl q ↦ absurd (ground (arith, q, h))
  | inr (last, q) ↦ elim (Option-cases (extension last)) [
    | inl r ↦ absurd (ground (arith, q, r, h))
    | inr (ext, r) ↦
        let (before, s, e, k) = stem_and_extension last ext r in
        let clean : NoSlash (before ++ b'.' ∷ ext) =
          subst NoSlash (sym (file_name-NoSlash name last hn q) ∙ k) hn in
        let same : before ++ (codes "." ++ (profile ++ (codes "." ++ ext))) ≡ v =
          ground (arith, q, r, s, h) in
        subst IsPlain same (
          IsPlain-name before ext profile (All-head before (b'.' ∷ ext) clean)
            (All-tail (λ c. c ≢ b'/') before (b'.' ∷ ext) clean).1 hp e)
  ]
]

inner_name-append :
    (name inner ext : Text)
    → inner_name name ≡ some (inner, ext)
    → name ≡ (inner ++ codes ".") ++ codes "age"
unfolding inner_name
inner_name-append name inner ext h = elim (Option-cases (strip_suffix encrypted_suffix name)) [
  | inl q ↦ absurd (ground (arith, q, h))
  | inr (dotted, q) ↦ elim (Option-cases (strip_suffix (codes ".") dotted)) [
    | inl r ↦ absurd (ground (arith, q, r, h))
    | inr (stripped, r) ↦ elim (Option-cases (extension_of stripped)) [
      | inl s ↦ absurd (ground (arith, q, r, s, h))
      | inr (e, s) ↦
          let same : stripped ≡ inner = ground (arith, q, r, s, h) in
          strip_suffix-append encrypted_suffix name dotted q
          ∙ ap (λ t. t ++ codes "age")
              (strip_suffix-append (codes ".") dotted stripped r ∙ ap (λ t. t ++ codes ".") same)
    ]
  ]
]

name_variant_in-IsPlain :
    (fuel name profile v : Text)
    → NoSlash name
    → NoSlash profile
    → name_variant_in fuel name profile ≡ some v
    → IsPlain v
unfolding name_variant_in encrypted_name
name_variant_in-IsPlain [] name profile v hn hp h = plain_variant-IsPlain name profile v hn hp h
name_variant_in-IsPlain (c ∷ fuel) name profile v hn hp h = elim (Option-cases (inner_name name)) [
  | inl q ↦ plain_variant-IsPlain name profile v hn hp (ground (arith, q, h))
  | inr ((inner, ext), q) ↦
      let clean : NoSlash ((inner ++ codes ".") ++ codes "age") =
        subst NoSlash (inner_name-append name inner ext q) hn in
      elim (Option-cases (name_variant_in fuel inner profile)) [
        | inl r ↦ absurd (ground (arith, q, r, h))
        | inr (w, r) ↦
            let below : IsPlain w =
              name_variant_in-IsPlain fuel inner profile w
                (All-head inner (codes ".") (All-head (inner ++ codes ".") (codes "age") clean)) hp
                r in
            let same : w ++ (codes "." ++ encrypted_suffix) ≡ v = ground (arith, q, r, h) in
            subst IsPlain same (
              All-append (λ c. c ≢ b'/') w (codes ".age") below.0
                  (omega arith, (omega arith, (omega arith, (omega arith, tt)))),
              omega (arith, length-append w (codes ".age"), below.1),
            )
      ]
]

profile_is_safe-NoSlash : (profile : Text) → profile_is_safe profile ≡ true → NoSlash profile
unfolding profile_is_safe
profile_is_safe-NoSlash profile h = contains-NoSlash profile (ground arith)

short-ne : (v x : Text) → 3 ≤ length v → length x ≤ 2 → cmp v x ≢ eq
short-ne v x h k e = absurd (omega (arith, ap length (eq_of_cmp v x e)))

IsPlain-components :
    (v : Text) → IsPlain v → (components v ≡ v ∷ []) × (file_name (v ∷ []) ≡ some v)
unfolding components file_name
IsPlain-components [] h = absurd (omega (arith, h.1))
IsPlain-components (c ∷ cs) h = (
  rw (split-NoSlash (c ∷ cs) h.0, components) refl,
  ground (
    arith,
    short-ne (c ∷ cs) (codes "/") h.1 (omega arith),
    short-ne (c ∷ cs) (codes "..") h.1 (omega arith),
    short-ne (c ∷ cs) (codes ".") h.1 (omega arith),
  ),
)

-- The file that a safe profile names lies in the directory of the file it varies, whose name has no
-- separator in it: only the last component differs, and the new one is one component and a name.
pub profile_variant-IsSibling :
    (path variant : FilePath) (name profile : Text)
    → file_name path ≡ some name
    → NoSlash name
    → profile_is_safe profile ≡ true
    → profile_variant path profile ≡ some variant
    → (v : Text) × (variant ≡ front path ++ v ∷ [])
      × (components v ≡ v ∷ [])
      × (file_name (v ∷ []) ≡ some v)
unfolding profile_variant with_file_name name_variant
profile_variant-IsSibling path variant name profile named clean safe h =
    elim (Option-cases (name_variant_in name name profile)) [
      | inl q ↦ absurd (ground (arith, named, q, h))
      | inr (v, q) ↦
          let plain : IsPlain v =
            name_variant_in-IsPlain name name profile v clean (profile_is_safe-NoSlash profile safe)
              q in
          let (one, own) = IsPlain-components v plain in (v, ground (arith, named, q, h), one, own)
    ]
