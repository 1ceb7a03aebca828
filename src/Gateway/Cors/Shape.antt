-- ===== src/Gateway/Cors/Shape.antt =====
-- The parts of the configuration that do not depend on the origins.
use tube.Common.{
  ℕ, zero, suc, ◌+◌, ◌*◌, ◌-◌, Bool, true, false, ◌&&◌, ◌||◌, Option, none, some, List, [], ◌∷◌,
  ◌++◌, eqb, leb, filter, map, if◌then◌else◌, get_or, ◌==◌, text_eq,
}
use tube.Common.Sets.{member}
use tube.Common.Text.{Text, codes, split, trim, to_lower, join}

-- The variables of the environment: empty where absent, and where it matters `none`.
pub record CorsEnv : Type 0 where
  pub origin : Text
  pub dev : Text
  pub allow_headers : Text
  pub allow_methods : Text
  pub expose_headers : Text
  pub max_age : Text
  pub allow_credentials : Option Text

pub record ResponseShape : Type 0 where
  pub allow_headers : Text
  pub allow_methods : Text
  pub expose_headers : Text
  pub max_age : Option ℕ
  pub allow_credentials : Option Bool

pub default_allowed_headers : Text
default_allowed_headers =
    codes
      "authorization, x-client-info, apikey, content-type, x-application-name, user-agent, x-deployment-id"

pub default_allowed_methods : Text
default_allowed_methods = codes "POST, GET, OPTIONS, PUT, PATCH, DELETE"

pub internal_exposed_headers : Text
internal_exposed_headers =
    codes "x-1tube-warming, x-1tube-stale, x-1tube-auth-unavailable, retry-after, x-deployment-id"

abbrev pub is_present : Text → Bool
is_present [] = false
is_present (c ∷ s) = true

-- `raw.split(",").map((s) => s.trim()).filter(Boolean)`
unfoldable pub comma_items : Text → List Text
unfolding split trim
comma_items raw = filter is_present (map trim (split b',' raw))

dedupe : List Text → List Text → List Text
unfolding member to_lower
dedupe seen [] = []
dedupe seen (part ∷ parts) =
    let key = to_lower part in
    let rest = dedupe (if member key seen then seen else key ∷ seen) parts in
    if member key seen then rest else part ∷ rest

unfoldable pub merge_header_list : Text → Text → Text
unfolding comma_items dedupe join
merge_header_list base extra = join (codes ", ") (dedupe [] (comma_items (base ++ b',' ∷ extra)))

unfoldable pub read_bool_env : Option Text → Option Bool
unfolding trim to_lower
read_bool_env none = none
read_bool_env (some v) =
    let t = to_lower (trim v) in
    if t == codes "1" || t == codes "true"
    then some true
    else if t == codes "0" || t == codes "false"
    then some false
    else none

abbrev pub is_digit : ℕ → Bool
is_digit c = leb 48 c && leb c 57

-- The number that the digits in front spell, after `n`, `none` where there is no digit yet.
digits : Option ℕ → Text → Option ℕ
digits n [] = n
digits n (c ∷ s) = if is_digit c then digits (some (get_or n 0 * 10 + (c - 48))) s else n

abbrev if_zero : Option ℕ → Option ℕ
if_zero none = none
if_zero (some zero) = some 0
if_zero (some (suc n)) = none

-- `parseInt` of a trimmed text, where the result is at least 0.
unfoldable pub parse_seconds : Text → Option ℕ
unfolding digits
parse_seconds [] = none
parse_seconds (c ∷ s) =
    if eqb c b'-'
    then if_zero (digits none s)
    else if eqb c b'+'
    then digits none s
    else digits none (c ∷ s)

abbrev or_text : Text → Text → Text
or_text [] default = default
or_text (c ∷ s) default = c ∷ s

unfoldable pub load_response_shape : CorsEnv → ResponseShape
unfolding trim merge_header_list read_bool_env parse_seconds default_allowed_headers
    default_allowed_methods internal_exposed_headers
load_response_shape env = record {
  allow_headers = trim (or_text env.allow_headers default_allowed_headers);
  allow_methods = trim (or_text env.allow_methods default_allowed_methods);
  expose_headers = merge_header_list internal_exposed_headers (trim env.expose_headers);
  max_age = parse_seconds (trim env.max_age);
  allow_credentials = read_bool_env env.allow_credentials;
}
