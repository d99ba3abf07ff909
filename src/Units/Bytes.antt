-- ===== src/Units/Bytes.antt =====
-- What `bytes::parse` returns when it succeeds.
use dynamic_config.Prelude.{ℕ, Option, none, some, ◌*◌, ◌<◌, ◌≡◌, refl, arith, map}
use dynamic_config.Prelude.Text.{Text}
use dynamic_config.Prelude.Str.{trim, to_ascii_lowercase}
use dynamic_config.Prelude.Results.{Result, ok, err}
use dynamic_config.Units.{split_unit, multiplier, parse_bytes, u64_mod}

-- The number before the unit, times what the unit stands for, and no wrap-around.
unfoldable pub IsSize : Text → ℕ → Type 0
IsSize text size =
    (value : ℕ) × (unit : Text) × (m : ℕ) × (split_unit text ≡ ok (value, unit))
    × (multiplier (map to_ascii_lowercase (trim unit)) ≡ some m)
    × (size ≡ value * m)
    × (size < u64_mod)

-- A byte count that is read is the number in front times what its unit stands for, and is below
-- `2 ^ 64`: there is no silent wrap-around.
parse_bytes-ok : (text : Text) (size : ℕ) → parse_bytes text ≡ ok size → IsSize text size
unfolding parse_bytes IsSize
parse_bytes-ok text size h = from (split_unit text) refl
  where
    from : (r : Result Text (ℕ × Text)) → split_unit text ≡ r → IsSize text size
    from (err e) q = absurd (ground (arith, h, q))
    from (ok (value, unit)) q = on_unit (multiplier (map to_ascii_lowercase (trim unit))) refl
      where
        on_unit :
            (o : Option ℕ) → multiplier (map to_ascii_lowercase (trim unit)) ≡ o → IsSize text size
        on_unit none p = absurd (ground (arith, h, q, p))
        on_unit (some m) p =
            (value, unit, m, q, p, ground (arith, h, q, p), ground (arith, h, q, p))
