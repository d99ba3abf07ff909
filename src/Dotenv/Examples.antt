-- ===== src/Dotenv/Examples.antt =====
-- A file as people write them, and one that is printed.
use dynamic_config.Prelude.{List, [], ◌∷◌, ◌++◌, ◌≡◌, refl, arith, All}
use dynamic_config.Prelude.Text.{Text, codes, cmp}
use dynamic_config.Prelude.Str.{is_whitespace}
use dynamic_config.Prelude.Results.{ok, err}
use dynamic_config.Dotenv.{parse}
use dynamic_config.Dotenv.RoundTrip.{Plain, print, insert_all, parse-print}

written :
    parse (
      codes "# settings"
      ++ (b'\n' ∷ (codes "export PORT = 8080 " ++ (b'\r' ∷ b'\n' ∷ codes "NAME='a b'"))))
    ≡ ok ((codes "NAME", codes "a b") ∷ (codes "PORT", codes "8080") ∷ [])
unfolding parse cmp
written = refl

third_line_is_reported : parse (codes "A=1" ++ (b'\n' ∷ b'\n' ∷ codes "oops")) ≡ err 3
unfolding parse cmp
third_line_is_reported = refl

abbrev entries : List (Text × Text)
entries = (codes "A", codes " # ") ∷ (codes "B", b'"' ∷ []) ∷ []

entries-ArePlain : All Plain entries
unfolding is_whitespace
entries-ArePlain = (
  (((refl, omega arith, omega arith), tt), omega arith),
  ((((refl, omega arith, omega arith), tt), omega arith), tt),
)

parse-print_example : parse (print entries) ≡ ok (insert_all [] entries)
parse-print_example = parse-print entries entries-ArePlain
