-- ===== src/Gateway/Cors.antt =====
-- gateway/cors.ts: the configuration from the environment, the headers for an origin and, in
-- `Middleware`, the reply that gets them. The configuration is that of the environment at its first
-- use. `new URL(origin).hostname` is a parameter, `none` where it throws. A response shape keeps the
-- seconds of the maximal age as a number, and `Vary: Origin` and the credentials header as whether
-- they are sent.
pub mod Shape
pub mod Allowed
pub mod Credentials
pub mod Middleware
mod Tests
use mathlib.Core.Option
use tube.Common.{
  ℕ, zero, suc, ◌+◌, ◌*◌, ◌-◌, Bool, true, false, not, ◌&&◌, ◌||◌, Option, none, some, List, [],
  ◌∷◌, ◌++◌, any, eqb, leb, ltb, filter, map, if◌then◌else◌, length, take, drop, get_or, ◌==◌,
  text_eq,
}
use tube.Common.Sets.{member}
use tube.Common.Text.{
  Text, codes, starts_with, ends_with, index_of, split, trim, to_lower, drop_while, join,
}
use tube.Gateway.Cors.Shape.{
  CorsEnv, ResponseShape, is_present, comma_items, is_digit, load_response_shape,
}

pub record CorsConfig : Type 0 where
  pub allow_any : Bool
  pub allow_list : List Text
  pub wildcard_list : List Text
  pub shape : ResponseShape

abbrev is_lower : ℕ → Bool
is_lower c = leb 97 c && leb c 122

abbrev is_scheme_char : ℕ → Bool
is_scheme_char c = is_lower c || is_digit c || eqb c b'+' || eqb c b'.' || eqb c b'-'

-- `value.replace(/^[a-z][a-z0-9+.-]*:\/\//i, "")`, of a text in lower case
drop_scheme : Text → Text
unfolding drop_while starts_with
drop_scheme [] = []
drop_scheme (c ∷ s) =
    let rest = drop_while is_scheme_char s in
    if is_lower c && starts_with (codes "://") rest then drop 3 rest else c ∷ s

abbrev first_item : List Text → Text
first_item [] = []
first_item (s ∷ l) = s

last_item : List Text → Text
last_item [] = []
last_item (s ∷ []) = s
last_item (s ∷ t ∷ l) = last_item (t ∷ l)

-- `value.replace(/\.$/, "")`
pub drop_dot : Text → Text
unfolding ends_with
drop_dot value = if ends_with (codes ".") value then take (length value - 1) value else value

abbrev before : Text → Option ℕ → Text
before value none = value
before value (some i) = take i value

bracketed : Text → Option ℕ → Option Text
bracketed value none = none
bracketed value (some i) = some (take (i - 1) (drop 1 value))

drop_port : Text → Option Text
unfolding starts_with index_of bracketed
drop_port [] = none
drop_port (c ∷ s) =
    let value = c ∷ s in
    elim (if eqb c b'[' then bracketed value (index_of b']' value) else none) [
      | some inner ↦ some inner
      | none ↦ some (before value (index_of b':' value))
    ]

pub normalize_domain_pattern : Text → Option Text
unfolding trim to_lower drop_scheme split last_item drop_dot drop_port
normalize_domain_pattern entry = drop_port (
    drop_dot
      (last_item (split b'@' (first_item (split b'/' (drop_scheme (to_lower (trim entry))))))))

-- The domains and the wildcard suffixes of the entries, `none` where an entry is `*`.
abbrev Lists : Type 0
Lists = List Text × List Text

add_domain : Option Text → Lists → Lists
unfolding starts_with
add_domain none lists = lists
add_domain (some []) lists = lists
add_domain (some (c ∷ s)) (allowed, wildcards) =
    if starts_with (codes "*.") (c ∷ s)
    then (allowed, s ∷ wildcards)
    else ((c ∷ s) ∷ allowed, wildcards)

add_entry : Text → Option Lists → Option Lists
unfolding add_domain normalize_domain_pattern
add_entry entry none = none
add_entry entry (some lists) =
    if entry == codes "*" then none else some (add_domain (normalize_domain_pattern entry) lists)

pub load_entries : List Text → Option Lists
unfolding add_entry
load_entries [] = some ([], [])
load_entries (entry ∷ entries) = add_entry entry (load_entries entries)

abbrev pub config_of : ResponseShape → Option Lists → CorsConfig
config_of shape none = record {
  allow_any = true;
  allow_list = [];
  wildcard_list = [];
  shape = shape;
}
config_of shape (some (allowed, wildcards)) = record {
  allow_any = false;
  allow_list = allowed;
  wildcard_list = wildcards;
  shape = shape;
}

-- Without a value, everything is allowed in dev mode and nothing otherwise.
unset_config : Text → ResponseShape → CorsConfig
unset_config dev shape = record (config_of shape (some ([], []))) { allow_any = dev == codes "1" }

pub load_config : CorsEnv → CorsConfig
unfolding trim unset_config load_response_shape load_entries comma_items
load_config env =
    let raw = trim env.origin in
    if is_present raw
    then config_of (load_response_shape env) (load_entries (comma_items raw))
    else unset_config env.dev (load_response_shape env)

pub wildcard_matches : Text → Text → Bool
unfolding ends_with
wildcard_matches suffix hostname =
    ends_with suffix hostname && ltb (length suffix) (length hostname)

-- The headers that a response gets.
pub record CorsHeaders : Type 0 where
  pub allow_origin : Text
  pub allow_headers : Text
  pub allow_methods : Text
  pub expose_headers : Text
  pub vary_origin : Bool
  pub max_age : Option ℕ
  pub allow_credentials : Bool

host_allowed : CorsConfig → Text → Bool
unfolding member wildcard_matches
host_allowed cfg hostname =
    is_present hostname
    && (member hostname cfg.allow_list
        || any (λ suffix. wildcard_matches suffix hostname) cfg.wildcard_list)

abbrev pub any_origin : Text
any_origin = codes "*"

-- `reqOrigin || "*"`, and `!reqOrigin`: an empty origin is like none.
abbrev origin_or_any : Option Text → Text
origin_or_any none = any_origin
origin_or_any (some []) = any_origin
origin_or_any (some (c ∷ s)) = c ∷ s

abbrev credentials_or : Bool → Option Bool → Bool
credentials_or d none = d
credentials_or d (some b) = b

headers_for : CorsConfig → Text → CorsHeaders
headers_for cfg allowed = record {
  allow_origin = allowed;
  allow_headers = cfg.shape.allow_headers;
  allow_methods = cfg.shape.allow_methods;
  expose_headers = cfg.shape.expose_headers;
  vary_origin = not (allowed == any_origin);
  max_age = cfg.shape.max_age;
  allow_credentials =
      credentials_or (not cfg.allow_any) cfg.shape.allow_credentials && not (allowed == any_origin);
}

module _ (url_hostname : Text → Option Text) where
  domain_or : Text → Option Text → Text
  unfolding to_lower drop_dot normalize_domain_pattern
  domain_or origin none = elim (normalize_domain_pattern origin) [
    | none ↦ []
    | some domain ↦ domain
  ]
  domain_or origin (some hostname) = drop_dot (to_lower hostname)

  -- Empty where the code has `null`.
  pub origin_domain : Text → Text
  unfolding domain_or
  origin_domain origin = domain_or origin (url_hostname origin)

  listed_origin : CorsConfig → Option Text → Option Text
  unfolding host_allowed origin_domain
  listed_origin cfg none = none
  listed_origin cfg (some []) = none
  listed_origin cfg (some (c ∷ s)) =
      if host_allowed cfg (origin_domain (c ∷ s)) then some (c ∷ s) else none

  pub pick_allowed_origin : CorsConfig → Option Text → Option Text
  unfolding listed_origin
  pick_allowed_origin cfg origin =
      if cfg.allow_any then some (origin_or_any origin) else listed_origin cfg origin

  pub build_cors_headers : CorsConfig → Option Text → Option CorsHeaders
  unfolding headers_for pick_allowed_origin
  build_cors_headers cfg origin = Option.map (headers_for cfg) (pick_allowed_origin cfg origin)
