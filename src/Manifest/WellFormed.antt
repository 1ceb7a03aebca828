-- ===== src/Manifest/WellFormed.antt =====
-- What every parsed manifest satisfies, whatever the JSON value was.
use tube.Common.{
  ℕ, zero, suc, ◌≤◌, ◌<◌, ◌≢◌, Bool, false, Option, none, some, [], ◌∷◌, arith, All, get_or, ◌/◌,
}
use tube.Common.Text.{Text}
use tube.Manifest.Json.{finite, Json, num, str, arr, obj, Items, nil, cons}
use tube.Manifest.Parse.{
  FunctionManifest, Ratio, default_recycle, parse_manifest, default_manifest, positive,
  parse_object, string_items, as_string_array, as_positive_int, as_ratio,
}

abbrev pub NonEmpty : Text → Type 0
NonEmpty s = s ≢ []

abbrev pub IsPositive : Option ℕ → Type 0
IsPositive none = Unit
IsPositive (some n) = 0 < n

pub record IsWellFormed (m : FunctionManifest) : Type 0 where
  pub net : All NonEmpty m.permissions.net
  pub env : All NonEmpty m.permissions.env
  pub read : All NonEmpty m.permissions.read
  pub write : All NonEmpty m.permissions.write
  pub timeout : IsPositive m.timeout_ms
  pub memory : IsPositive m.memory_mb
  pub replicas : IsPositive m.min_replicas
  pub window : 0 < m.recycle.error_window
  pub cooldown : 0 < m.recycle.cooldown_ms
  pub rate : m.recycle.error_rate.num ≤ suc m.recycle.error_rate.den

string_items-NonEmpty : (is : Items) → All NonEmpty (string_items is)
unfolding string_items
string_items-NonEmpty nil = tt
string_items-NonEmpty (cons (str []) is) = string_items-NonEmpty is
string_items-NonEmpty (cons (str (c ∷ s)) is) = (λ e. cc, string_items-NonEmpty is)
string_items-NonEmpty (cons _ is) = string_items-NonEmpty is

as_string_array-NonEmpty : (o : Option Json) → All NonEmpty (as_string_array o [])
unfolding as_string_array
as_string_array-NonEmpty (some (arr is)) = string_items-NonEmpty is
as_string_array-NonEmpty _ = tt

positive-IsPositive : (n : ℕ) → IsPositive (positive n)
unfolding positive
positive-IsPositive zero = tt
positive-IsPositive (suc n) = omega arith

as_positive_int-IsPositive : (o : Option Json) → IsPositive (as_positive_int o)
unfolding as_positive_int
as_positive_int-IsPositive (some (num (finite false n d))) = positive-IsPositive (n / suc d)
as_positive_int-IsPositive _ = tt

get_or-pos : (o : Option ℕ) (d : ℕ) → IsPositive o → 0 < d → 0 < get_or o d
get_or-pos none d p h = h
get_or-pos (some n) d p h = p

as_ratio-le :
    (o : Option Json) (r : Ratio) → r.num ≤ suc r.den → (as_ratio o r).num ≤ suc (as_ratio o r).den
unfolding as_ratio
as_ratio-le o r h = ground arith

parse_object-IsWellFormed : (o : Json) (from_file : Bool) → IsWellFormed (parse_object o from_file)
unfolding parse_object
parse_object-IsWellFormed o from_file = record {
  net = as_string_array-NonEmpty _;
  env = as_string_array-NonEmpty _;
  read = as_string_array-NonEmpty _;
  write = as_string_array-NonEmpty _;
  timeout = as_positive_int-IsPositive _;
  memory = as_positive_int-IsPositive _;
  replicas = as_positive_int-IsPositive _;
  window = get_or-pos _ 20 (as_positive_int-IsPositive _) (omega arith);
  cooldown = get_or-pos _ 30_000 (as_positive_int-IsPositive _) (omega arith);
  rate = as_ratio-le _ default_recycle.error_rate (omega arith);
}

default_manifest-IsWellFormed :
    (from_file : Bool) → IsWellFormed (record default_manifest { from_file = from_file })
default_manifest-IsWellFormed from_file = omega arith

-- Every JSON value, of any shape, parses to a well-formed manifest: allowlists of texts that are
-- not empty, positive limits where one is set, a positive error window and cool-down, and an error
-- rate of at most 1.
pub parse_manifest-IsWellFormed :
    (raw : Json) (from_file : Bool) → IsWellFormed (parse_manifest raw from_file)
unfolding parse_manifest
parse_manifest-IsWellFormed (arr is) from_file = parse_object-IsWellFormed (arr is) from_file
parse_manifest-IsWellFormed (obj fs) from_file = parse_object-IsWellFormed (obj fs) from_file
parse_manifest-IsWellFormed _ from_file = default_manifest-IsWellFormed from_file
