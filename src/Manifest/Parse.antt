-- ===== src/Manifest/Parse.antt =====
-- `parseManifest` and its readers, `mergeServeRateLimit` and `loadManifest` of manifest.ts.
-- A value that the code reads as `undefined` is `none`.
use tube.Common.{
  ℕ, zero, suc, ◌/◌, Bool, true, false, Option, none, some, List, [], ◌∷◌, ltb, ◌==◌, text_eq,
  if◌then◌else◌, get_or,
}
use tube.Common.Text.{Text, codes}
use tube.Manifest.Json.{
  finite, Json, bool, num, str, arr, obj, Items, nil, cons, member, member_or_empty,
}

pub data RateLimitBy : Type 0 where
  identity ip global : RateLimitBy

-- A ratio `num / suc den`.
pub record Ratio : Type 0 where
  pub num : ℕ
  pub den : ℕ

pub record ManifestPermissions : Type 0 where
  pub net : List Text
  pub env : List Text
  pub read : List Text
  pub write : List Text

pub record ManifestRecycle : Type 0 where
  pub max_requests : ℕ
  pub error_rate : Ratio
  pub error_window : ℕ
  pub cooldown_ms : ℕ

pub record FunctionManifest : Type 0 where
  pub permissions : ManifestPermissions
  pub timeout_ms : Option ℕ
  pub rpm : Option ℕ
  pub rate_limit_by : Option RateLimitBy
  pub memory_mb : Option ℕ
  pub warm : Option Bool
  pub min_replicas : Option ℕ
  pub recycle : ManifestRecycle
  pub from_file : Bool

-- `errorRate: 0.5` is 1 / suc 1.
abbrev pub default_recycle : ManifestRecycle
default_recycle = record {
  max_requests = 0;
  error_rate = record { num = 1; den = 1 };
  error_window = 20;
  cooldown_ms = 30_000;
}

abbrev pub default_manifest : FunctionManifest
default_manifest = record {
  permissions = record { net = []; env = []; read = []; write = [] };
  timeout_ms = none;
  rpm = none;
  rate_limit_by = none;
  memory_mb = none;
  warm = none;
  min_replicas = none;
  recycle = default_recycle;
  from_file = false;
}

-- The items that are texts and not empty.
unfoldable pub string_items : Items → List Text
string_items nil = []
string_items (cons (str []) is) = string_items is
string_items (cons (str (c ∷ s)) is) = (c ∷ s) ∷ string_items is
string_items (cons _ is) = string_items is

unfoldable pub as_string_array : Option Json → List Text → List Text
as_string_array (some (arr is)) fallback = string_items is
as_string_array _ fallback = fallback

unfoldable pub positive : ℕ → Option ℕ
positive zero = none
positive (suc n) = some (suc n)

-- `Math.floor` of a negative number is at most 0, or `-0`.
unfoldable pub as_positive_int : Option Json → Option ℕ
unfolding positive
as_positive_int (some (num (finite false n d))) = positive (n / suc d)
as_positive_int _ = none

-- `-0` passes the test `n >= 0`; any other negative number floors to -1 or less.
unfoldable pub as_non_negative_int : Option Json → Option ℕ
as_non_negative_int (some (num (finite false n d))) = some (n / suc d)
as_non_negative_int (some (num (finite true zero d))) = some 0
as_non_negative_int _ = none

unfoldable pub as_rate_limit_by : Option Json → Option RateLimitBy
as_rate_limit_by (some (str s)) =
    if s == codes "identity"
    then some identity
    else if s == codes "ip"
    then some ip
    else if s == codes "global"
    then some global
    else none
as_rate_limit_by _ = none

unfoldable pub as_ratio : Option Json → Ratio → Ratio
as_ratio (some (num (finite true zero d))) fallback = record { num = 0; den = d }
as_ratio (some (num (finite true (suc n) d))) fallback = record { num = 0; den = 0 }
as_ratio (some (num (finite false n d))) fallback =
    if ltb (suc d) n then record { num = 1; den = 0 } else record { num = n; den = d }
as_ratio _ fallback = fallback

unfoldable pub as_boolean : Option Json → Option Bool
as_boolean (some (bool b)) = some b
as_boolean _ = none

unfoldable pub parse_permissions : Json → ManifestPermissions
parse_permissions perm = record {
  net = as_string_array (member perm (codes "net")) [];
  env = as_string_array (member perm (codes "env")) [];
  read = as_string_array (member perm (codes "read")) [];
  write = as_string_array (member perm (codes "write")) [];
}

unfoldable pub parse_recycle : Json → ManifestRecycle
parse_recycle recycle = record {
  max_requests = get_or (as_positive_int (member recycle (codes "maxRequests"))) 0;
  error_rate = as_ratio (member recycle (codes "errorRate")) default_recycle.error_rate;
  error_window =
      get_or (as_positive_int (member recycle (codes "errorWindow"))) default_recycle.error_window;
  cooldown_ms =
      get_or (as_positive_int (member recycle (codes "cooldownMs"))) default_recycle.cooldown_ms;
}

unfoldable pub parse_object : Json → Bool → FunctionManifest
unfolding parse_permissions parse_recycle as_boolean member_or_empty
parse_object o from_file = record {
  permissions = parse_permissions (member_or_empty o (codes "permissions"));
  timeout_ms = as_positive_int (member o (codes "timeoutMs"));
  rpm = as_non_negative_int (member o (codes "rpm"));
  rate_limit_by = as_rate_limit_by (member o (codes "rateLimitBy"));
  memory_mb = as_positive_int (member o (codes "memoryMB"));
  warm = as_boolean (member o (codes "warm"));
  min_replicas = as_positive_int (member o (codes "min_replicas"));
  recycle = parse_recycle (member_or_empty o (codes "recycle"));
  from_file = from_file;
}

-- `typeof raw === "object"` holds of arrays too; an array has none of the fields.
unfoldable pub parse_manifest : Json → Bool → FunctionManifest
unfolding parse_object
parse_manifest (arr is) from_file = parse_object (arr is) from_file
parse_manifest (obj fs) from_file = parse_object (obj fs) from_file
parse_manifest _ from_file = record default_manifest { from_file = from_file }

pub record ServeRateLimit : Type 0 where
  pub rpm : Option ℕ
  pub rate_limit_by : Option RateLimitBy

-- `a ?? b`, of two optional values
abbrev pub or_else {ℓ} : {A : Type ℓ} → Option A → Option A → Option A
or_else none b = b
or_else (some a) b = some a

merge_by : FunctionManifest → Option ℕ → Option RateLimitBy → FunctionManifest
merge_by manifest none none = manifest
merge_by manifest rpm by = record manifest {
  rpm = or_else rpm manifest.rpm;
  rate_limit_by = or_else by manifest.rate_limit_by;
}

unfoldable pub merge_serve_rate_limit : FunctionManifest → ServeRateLimit → FunctionManifest
unfolding merge_by
merge_serve_rate_limit manifest override = merge_by manifest override.rpm override.rate_limit_by

-- What reading the manifest file gives: its text, ENOENT, or another error.
pub data FileRead : Type 0 where
  content : Text → FileRead
  not_found : FileRead
  unreadable : FileRead

-- `parse_json` is `JSON.parse`, with `none` where it throws. The warnings are not modelled.
unfoldable pub load_manifest : (Text → Option Json) → FileRead → FunctionManifest
unfolding parse_manifest
load_manifest parse_json not_found = default_manifest
load_manifest parse_json unreadable = default_manifest
load_manifest parse_json (content raw) = elim (parse_json raw) [
  | none ↦ default_manifest
  | some v ↦ parse_manifest v true
]
