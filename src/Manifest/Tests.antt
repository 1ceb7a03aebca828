-- ===== src/Manifest/Tests.antt =====
-- `parseManifest` at concrete values.
use tube.Common.{◌≡◌, refl, true, false, none, some, [], ◌∷◌, arith}
use tube.Common.Text.{codes}
use tube.Manifest.Json.{finite, num, str, arr, obj, nil, cons, end, field, Json}
use tube.Manifest.{
  FunctionManifest, ServeRateLimit, global, default_manifest, parse_manifest,
  merge_serve_rate_limit, as_non_negative_int, as_positive_int, as_string_array, string_items,
  as_ratio,
}
use tube.Manifest.WellFormed.{IsWellFormed, parse_manifest-IsWellFormed}
use tube.Manifest.RoundTrip.{spell, parse_manifest-spell}

-- {"rpm": -0, "timeoutMs": 2.5, "permissions": {"net": ["a", "", 3]}, "recycle": {"errorRate": 7}}
abbrev odd : Json
odd = obj (
    field (codes "rpm") (num (finite true 0 0)) (
      field (codes "timeoutMs") (num (finite false 5 1)) (
        field (codes "permissions")
          (obj (
            field (codes "net")
              (arr (cons (str (codes "a")) (cons (str []) (cons (num (finite false 3 0)) nil))))
              end))
          (field (codes "recycle") (obj (field (codes "errorRate") (num (finite false 7 0)) end))
            end))))

odd_read :
    ((parse_manifest odd true).rpm ≡ some 0)
    × ((parse_manifest odd true).timeout_ms ≡ some 2)
    × ((parse_manifest odd true).permissions.net ≡ codes "a" ∷ [])
    × ((parse_manifest odd true).recycle.error_rate ≡ record { num = 1; den = 0 })
unfolding parse_manifest as_non_negative_int as_positive_int as_string_array string_items as_ratio
odd_read = (refl, refl, refl, refl)

parse_manifest-IsWellFormed_example : IsWellFormed (parse_manifest odd true)
parse_manifest-IsWellFormed_example = parse_manifest-IsWellFormed odd true

abbrev sample : FunctionManifest
sample = record default_manifest {
  permissions = record { net = codes "a.b" ∷ []; env = []; read = []; write = [] };
  rpm = some 0;
  rate_limit_by = some global;
  warm = some true;
}

sample-IsWellFormed : IsWellFormed sample
sample-IsWellFormed = record {
  net = (λ e. ground arith, tt);
  env = tt;
  read = tt;
  write = tt;
  timeout = tt;
  memory = tt;
  replicas = tt;
  window = omega arith;
  cooldown = omega arith;
  rate = omega arith;
}

parse_manifest-spell_example :
    parse_manifest (spell sample) true ≡ record sample { from_file = true }
parse_manifest-spell_example = parse_manifest-spell sample sample-IsWellFormed

abbrev override : ServeRateLimit
override = record { rpm = some 7; rate_limit_by = none }

merged :
    merge_serve_rate_limit sample override
    ≡ record sample { rpm = some 7; rate_limit_by = some global }
unfolding merge_serve_rate_limit
merged = refl
