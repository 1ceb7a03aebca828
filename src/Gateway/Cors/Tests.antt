-- ===== src/Gateway/Cors/Tests.antt =====
-- An allowlist of one domain, one wildcard and one address.
use tube.Common.{
  ℕ, ◌≡◌, refl, true, ◌&&◌, ◌||◌, Option, none, some, [], ◌∷◌, any, if◌then◌else◌, text_eq,
}
use tube.Common.Sets.{member}
use tube.Common.Text.{Text, codes, starts_with, ends_with, index_of, split, trim, to_lower}
use tube.Gateway.Cors.Shape.{CorsEnv, is_present, comma_items, merge_header_list, parse_seconds}
use tube.Gateway.Cors.{
  CorsHeaders, load_config, origin_domain, pick_allowed_origin, build_cors_headers, headers_for,
}
use tube.Gateway.Cors.Allowed.{is_star, entry_allows}
use tube.Gateway.Cors.Middleware.{
  CorsReply, allow_origin_name, cors_middleware, cors_middleware-entry_allows,
}
use tube.Common.JsMap

abbrev env : CorsEnv
env = record {
  origin = codes "https://App.test:8080, *.example.com,http://[::1]:3000";
  dev = [];
  allow_headers = [];
  allow_methods = [];
  expose_headers = codes "X-A, x-a, Retry-After";
  max_age = codes "600s";
  allow_credentials = none;
}

abbrev origin : Text
origin = codes "https://a.example.com"

-- A host of names only.
abbrev hostname : Text → Option Text
hostname o = none

-- What `new URL` gives for an address: with its brackets.
abbrev address : Text → Option Text
address o = some (codes "[::1]")

merged : merge_header_list (codes "a, b") (codes "B,c") ≡ codes "a, b, c"
unfolding merge_header_list
merged = refl

seconds : parse_seconds (codes "600s") ≡ some 600
unfolding parse_seconds
seconds = refl

present : is_present (trim env.origin) ≡ true
unfolding trim
present = refl

no_origin : JsMap.get allow_origin_name ((codes "Content-Type", codes "text/plain") ∷ []) ≡ none
unfolding JsMap.get
no_origin = refl

abbrev seconds_text : ℕ → Text
seconds_text n = codes "600"

abbrev reply : CorsReply
reply = record {
  status = 200;
  headers = (codes "Content-Type", codes "text/plain") ∷ [];
  body = some (codes "ok");
}

cors_middleware-entry_allows_example :
    JsMap.get allow_origin_name
      (cors_middleware seconds_text hostname
        (load_config env)
        (some origin)
        (codes "GET")
        reply).headers
    ≡ (if any is_star (comma_items (trim env.origin))
          || (is_present (origin_domain hostname origin)
              && any (entry_allows (origin_domain hostname origin)) (comma_items (trim env.origin)))
        then some origin
        else none)
cors_middleware-entry_allows_example =
    cors_middleware-entry_allows seconds_text hostname env 104 (codes "ttps://a.example.com")
      (codes "GET") reply present no_origin

allowed : pick_allowed_origin hostname (load_config env) (some origin) ≡ some origin
unfolding pick_allowed_origin load_config trim split starts_with ends_with index_of to_lower member
allowed = refl

-- An address in the allowlist is kept without the brackets that the origin's host has.
address_refused :
    pick_allowed_origin address (load_config env) (some (codes "http://[::1]:3000")) ≡ none
unfolding pick_allowed_origin load_config trim split starts_with ends_with index_of to_lower member
address_refused = refl

abbrev sent : CorsHeaders
sent = headers_for (load_config env) origin

built : build_cors_headers hostname (load_config env) (some origin) ≡ some sent
unfolding build_cors_headers pick_allowed_origin load_config trim split starts_with ends_with
    index_of to_lower member
built = refl
