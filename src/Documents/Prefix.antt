-- ===== src/Documents/Prefix.antt =====
-- The check that a key lies under the prefix that was asked for.
use dynamic_config.Prelude.{◌++◌, ◌≡◌, Option, none, some, refl}
use dynamic_config.Prelude.Text.{Text}
use dynamic_config.Prelude.Str.{strip_prefix, starts_with}
use dynamic_config.Prelude.Results.{ok}
use dynamic_config.Prelude.Str.Cut.{strip_prefix-append}
use dynamic_config.Documents.{under_prefix}

-- A key that passes is the prefix with something after it, so a pattern in the prefix
-- lets no other key in.
under_prefix-ok :
    (key prefix described : Text)
    → under_prefix key prefix described ≡ ok tt
    → (rest : Text) × (key ≡ prefix ++ rest)
unfolding under_prefix starts_with
under_prefix-ok key prefix described h = go (strip_prefix prefix key) refl
  where
    go : (o : Option Text) → strip_prefix prefix key ≡ o → (rest : Text) × (key ≡ prefix ++ rest)
    go none q = absurd (cc (rw (q, under_prefix) at h))
    go (some rest) q = (rest, strip_prefix-append prefix key rest q)
