-- ===== src/Manifest/RoundTrip.antt =====
-- Every well-formed manifest is what `parseManifest` reads from the JSON object that spells it.
use tube.Common.{
  ℕ, zero, suc, ◌/◌, ◌≤◌, ◌<◌, ◌≡◌, refl, Bool, true, false, Option, none, some, List, [], ◌∷◌,
  arith, All, get_or, ap,
}
use tube.Common.Text.{Text, codes}
use tube.Manifest.Json.{finite, Json, null, bool, num, str, arr, obj, Items, nil, cons, end, field}
use tube.Manifest.Parse.{
  FunctionManifest, ManifestPermissions, ManifestRecycle, Ratio, RateLimitBy, identity, ip, global,
  parse_manifest, parse_permissions, parse_recycle, string_items, as_string_array, as_positive_int,
  as_non_negative_int, as_rate_limit_by, as_ratio, as_boolean, positive,
}
use tube.Manifest.WellFormed.{NonEmpty, IsPositive, IsWellFormed}

abbrev spell_texts : List Text → Items
spell_texts [] = nil
spell_texts (s ∷ l) = cons (str s) (spell_texts l)

abbrev spell_number : ℕ → Json
spell_number n = num (finite false n 0)

abbrev spell_int : Option ℕ → Json
spell_int none = null
spell_int (some n) = spell_number n

abbrev spell_by : Option RateLimitBy → Json
spell_by none = null
spell_by (some identity) = str (codes "identity")
spell_by (some ip) = str (codes "ip")
spell_by (some global) = str (codes "global")

abbrev spell_bool : Option Bool → Json
spell_bool none = null
spell_bool (some b) = bool b

abbrev spell_permissions : ManifestPermissions → Json
spell_permissions p = obj (
    field (codes "net") (arr (spell_texts p.net)) (
      field (codes "env") (arr (spell_texts p.env)) (
        field (codes "read") (arr (spell_texts p.read))
          (field (codes "write") (arr (spell_texts p.write)) end))))

abbrev spell_recycle : ManifestRecycle → Json
spell_recycle r = obj (
    field (codes "maxRequests") (spell_number r.max_requests) (
      field (codes "errorRate") (num (finite false r.error_rate.num r.error_rate.den)) (
        field (codes "errorWindow") (spell_number r.error_window)
          (field (codes "cooldownMs") (spell_number r.cooldown_ms) end))))

-- The object that a manifest file would hold.
pub spell : FunctionManifest → Json
spell m = obj (
    field (codes "permissions") (spell_permissions m.permissions) (
      field (codes "timeoutMs") (spell_int m.timeout_ms) (
        field (codes "rpm") (spell_int m.rpm) (
          field (codes "rateLimitBy") (spell_by m.rate_limit_by) (
            field (codes "memoryMB") (spell_int m.memory_mb) (
              field (codes "warm") (spell_bool m.warm) (
                field (codes "min_replicas") (spell_int m.min_replicas)
                  (field (codes "recycle") (spell_recycle m.recycle) end))))))))

string_items-spell : (l : List Text) → All NonEmpty l → string_items (spell_texts l) ≡ l
unfolding string_items
string_items-spell [] h = refl
string_items-spell ([] ∷ l) h = absurd (h.0 refl)
string_items-spell ((c ∷ s) ∷ l) h = ap (◌∷◌ (c ∷ s)) (string_items-spell l h.1)

div-one : (n : ℕ) → n / 1 ≡ n
div-one n = omega arith

positive-eq_some : (n : ℕ) → 0 < n → positive n ≡ some n
unfolding positive
positive-eq_some zero h = absurd (omega arith)
positive-eq_some (suc n) h = refl

as_positive_int-spell : (o : Option ℕ) → IsPositive o → as_positive_int (some (spell_int o)) ≡ o
unfolding as_positive_int
as_positive_int-spell none h = refl
as_positive_int-spell (some n) h = rw div-one (positive-eq_some n h)

max_requests-spell : (n : ℕ) → get_or (as_positive_int (some (spell_number n))) 0 ≡ n
unfolding as_positive_int positive
max_requests-spell zero = refl
max_requests-spell (suc n) = rw div-one refl

get_or-spell : (n d : ℕ) → 0 < n → get_or (as_positive_int (some (spell_number n))) d ≡ n
get_or-spell n d h = rw (as_positive_int-spell (some n) h) refl

as_non_negative_int-spell : (o : Option ℕ) → as_non_negative_int (some (spell_int o)) ≡ o
unfolding as_non_negative_int
as_non_negative_int-spell none = refl
as_non_negative_int-spell (some n) = rw div-one refl

as_rate_limit_by-spell : (o : Option RateLimitBy) → as_rate_limit_by (some (spell_by o)) ≡ o
unfolding as_rate_limit_by
as_rate_limit_by-spell none = refl
as_rate_limit_by-spell (some identity) = refl
as_rate_limit_by-spell (some ip) = refl
as_rate_limit_by-spell (some global) = refl

as_boolean-spell : (o : Option Bool) → as_boolean (some (spell_bool o)) ≡ o
unfolding as_boolean
as_boolean-spell none = refl
as_boolean-spell (some b) = refl

as_ratio-spell :
    (r d : Ratio) → r.num ≤ suc r.den → as_ratio (some (num (finite false r.num r.den))) d ≡ r
unfolding as_ratio
as_ratio-spell r d h = ground arith

parse_permissions-spell :
    (p : ManifestPermissions)
    → All NonEmpty p.net
    → All NonEmpty p.env
    → All NonEmpty p.read
    → All NonEmpty p.write
    → parse_permissions (spell_permissions p) ≡ p
unfolding parse_permissions as_string_array
parse_permissions-spell p n e r w = cc (
  string_items-spell p.net n,
  string_items-spell p.env e,
  string_items-spell p.read r,
  string_items-spell p.write w,
)

parse_recycle-spell :
    (r : ManifestRecycle)
    → r.error_rate.num ≤ suc r.error_rate.den
    → 0 < r.error_window
    → 0 < r.cooldown_ms
    → parse_recycle (spell_recycle r) ≡ r
unfolding parse_recycle
parse_recycle-spell r q w c = cc (
  max_requests-spell r.max_requests,
  as_ratio-spell r.error_rate (record { num = 1; den = 1 }) q,
  get_or-spell r.error_window 20 w,
  get_or-spell r.cooldown_ms 30_000 c,
)

-- Parsing the object that spells a well-formed manifest gives the manifest back, field by field,
-- marked as read from a file.
pub parse_manifest-spell :
    (m : FunctionManifest)
    → IsWellFormed m
    → parse_manifest (spell m) true ≡ record m { from_file = true }
unfolding parse_manifest spell
parse_manifest-spell m h = cc (
  parse_permissions-spell m.permissions h.net h.env h.read h.write,
  as_positive_int-spell m.timeout_ms h.timeout,
  as_non_negative_int-spell m.rpm,
  as_rate_limit_by-spell m.rate_limit_by,
  as_positive_int-spell m.memory_mb h.memory,
  as_boolean-spell m.warm,
  as_positive_int-spell m.min_replicas h.replicas,
  parse_recycle-spell m.recycle h.rate h.window h.cooldown,
)
