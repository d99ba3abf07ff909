-- ===== src/Units/Examples.antt =====
-- Runs of the parsers on the inputs of the source's own tests.
use dynamic_config.Prelude.{◌≡◌, refl, some, ◌*◌, ◌+◌, ◌^◌}
use dynamic_config.Prelude.Text.{codes, cmp}
use dynamic_config.Prelude.Results.{ok, err}
use dynamic_config.Units.{parse_duration, parse_bytes, serialize_duration, second, milli}
use dynamic_config.Units.RoundTrip.{parse_duration-serialize_duration}

components_add_up : parse_duration (codes "1m 500ms") ≡ some (ok (60_500 * milli))
unfolding parse_duration cmp
components_add_up = refl

binary_sizes : parse_bytes (codes "64MiB") ≡ ok 67_108_864
unfolding parse_bytes cmp
binary_sizes = refl

written : serialize_duration (5_400 * second) ≡ codes "5400000ms"
unfolding serialize_duration
written = refl

parse_duration-serialize_duration_example :
    parse_duration (serialize_duration (3 * second + 7)) ≡ some (ok (3 * second))
parse_duration-serialize_duration_example = parse_duration-serialize_duration (3 * second + 7)

-- A `Duration` of 2^64 milliseconds is written and not read back.
too_long :
    parse_duration (serialize_duration (2 ^ 64 * milli))
    ≡ some (err (codes "the number is too large for a 64-bit count"))
too_long = parse_duration-serialize_duration (2 ^ 64 * milli)
