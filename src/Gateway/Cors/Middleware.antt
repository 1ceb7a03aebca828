-- ===== src/Gateway/Cors/Middleware.antt =====
-- `corsMiddleware`: the headers on the reply of what comes next. The names of headers are in one
-- spelling, `next` is the reply that comes next, and the spelling of the maximal age is a parameter.
use mathlib.Core.Option
use tube.Common.{
  ℕ, ◌≡◌, refl, ◌∙◌, Bool, true, false, ◌&&◌, ◌||◌, Option, none, some, [], ◌∷◌, ◌++◌, any,
  if◌then◌else◌, ◌==◌, text_eq, arith,
}
use tube.Common.JsMap
use tube.Common.JsMap.{JsMap}
use tube.Common.Text.{Text, codes, trim}
use tube.Gateway.Cors.Shape.{CorsEnv, is_present, comma_items}
use tube.Gateway.Cors.{
  CorsConfig, CorsHeaders, headers_for, load_config, origin_domain, pick_allowed_origin,
  build_cors_headers,
}
use tube.Gateway.Cors.Allowed.{is_star, entry_allows, pick_allowed_origin-entry_allows}

pub record CorsReply : Type 0 where
  pub status : ℕ
  pub headers : JsMap Text Text
  pub body : Option Text

abbrev pub allow_origin_name : Text
allow_origin_name = codes "Access-Control-Allow-Origin"

abbrev entry_if : Bool → Text → Text → JsMap Text Text
entry_if false name value = []
entry_if true name value = (name, value) ∷ []

abbrev present_or_none : Option Text → Option Text
present_or_none none = none
present_or_none (some []) = none
present_or_none (some (c ∷ s)) = some (c ∷ s)

module _ (spell_seconds : ℕ → Text) where
  abbrev max_age_entry : Option ℕ → JsMap Text Text
  max_age_entry none = []
  max_age_entry (some n) = (codes "Access-Control-Max-Age", spell_seconds n) ∷ []

  -- The entries that a reply has only for some configurations and origins.
  optional : CorsHeaders → JsMap Text Text
  optional h =
      entry_if h.vary_origin (codes "Vary") (codes "Origin")
      ++ max_age_entry h.max_age
      ++ entry_if h.allow_credentials (codes "Access-Control-Allow-Credentials") (codes "true")

  -- What follows the origin in `Object.entries(headers)`.
  later_entries : CorsHeaders → JsMap Text Text
  unfolding optional
  later_entries h =
      (codes "Access-Control-Allow-Headers", h.allow_headers)
      ∷ (codes "Access-Control-Allow-Methods", h.allow_methods)
      ∷ (codes "Access-Control-Expose-Headers", h.expose_headers)
      ∷ optional h

  -- `Object.entries(headers)`
  pub header_entries : CorsHeaders → JsMap Text Text
  unfolding later_entries
  header_entries h = (allow_origin_name, h.allow_origin) ∷ later_entries h

  entries_or_none : Option CorsHeaders → JsMap Text Text
  unfolding header_entries
  entries_or_none none = []
  entries_or_none (some h) = header_entries h

  with_entries : Text → JsMap Text Text → CorsReply → CorsReply
  unfolding JsMap.set_all
  with_entries method entries next =
      if method == codes "OPTIONS"
      then record { status = 204; headers = JsMap.set_all entries []; body = none }
      else record next { headers = JsMap.set_all entries next.headers }

  pub cors_middleware :
      (Text → Option Text) → CorsConfig → Option Text → Text → CorsReply → CorsReply
  unfolding build_cors_headers entries_or_none with_entries
  cors_middleware url_hostname cfg origin method next =
      with_entries method
        (entries_or_none (build_cors_headers url_hostname cfg (present_or_none origin))) next

  get-set_all_absent :
      (k : Text) (m base : JsMap Text Text)
      → JsMap.has k m ≡ false
      → JsMap.get k (JsMap.set_all m base) ≡ JsMap.get k base
  unfolding JsMap.get JsMap.has JsMap.set_all
  get-set_all_absent k [] base e = refl
  get-set_all_absent k ((j, v) ∷ m) base e =
      ground (arith, e, get-set_all_absent k m (JsMap.set j v base), JsMap.get-set j k v base)

  has-append :
      (k : Text) (m n : JsMap Text Text) → JsMap.has k (m ++ n) ≡ (JsMap.has k m || JsMap.has k n)
  unfolding JsMap.get JsMap.has
  has-append k [] n = refl
  has-append k ((j, v) ∷ m) n = ground (arith, has-append k m n)

  entry_if-other :
      (b : Bool) (name value : Text)
      → (name == allow_origin_name) ≡ false
      → JsMap.has allow_origin_name (entry_if b name value) ≡ false
  unfolding JsMap.get JsMap.has
  entry_if-other false name value e = refl
  entry_if-other true name value e = ground (arith, e)

  max_age_entry-other : (o : Option ℕ) → JsMap.has allow_origin_name (max_age_entry o) ≡ false
  unfolding JsMap.get JsMap.has
  max_age_entry-other none = refl
  max_age_entry-other (some n) = refl

  optional-other : (h : CorsHeaders) → JsMap.has allow_origin_name (optional h) ≡ false
  unfolding optional
  optional-other h =
      let vary = entry_if h.vary_origin (codes "Vary") (codes "Origin") in
      let credentials =
        entry_if h.allow_credentials (codes "Access-Control-Allow-Credentials") (codes "true") in
      ground (
        arith,
        has-append allow_origin_name (vary ++ max_age_entry h.max_age) credentials,
        has-append allow_origin_name vary (max_age_entry h.max_age),
        entry_if-other h.vary_origin (codes "Vary") (codes "Origin") refl,
        max_age_entry-other h.max_age,
        entry_if-other h.allow_credentials (codes "Access-Control-Allow-Credentials") (codes "true")
            refl,
      )

  later_entries-other : (h : CorsHeaders) → JsMap.has allow_origin_name (later_entries h) ≡ false
  unfolding later_entries JsMap.get JsMap.has
  later_entries-other h = optional-other h

  get-header_entries :
      (h : CorsHeaders) (base : JsMap Text Text)
      → JsMap.get allow_origin_name (JsMap.set_all (header_entries h) base) ≡ some h.allow_origin
  unfolding header_entries JsMap.set_all
  get-header_entries h base =
      get-set_all_absent allow_origin_name (later_entries h) _ (later_entries-other h)
      ∙ JsMap.get-set allow_origin_name allow_origin_name h.allow_origin base

  get-entries_or_none :
      (cfg : CorsConfig) (o : Option Text) (base : JsMap Text Text)
      → JsMap.get allow_origin_name base ≡ none
      → JsMap.get allow_origin_name
          (JsMap.set_all (entries_or_none (Option.map (headers_for cfg) o)) base)
        ≡ o
  unfolding entries_or_none JsMap.set_all headers_for
  get-entries_or_none cfg none base h = h
  get-entries_or_none cfg (some a) base h = get-header_entries (headers_for cfg a) base

  get-with_entries :
      (method : Text) (cfg : CorsConfig) (o : Option Text) (next : CorsReply)
      → JsMap.get allow_origin_name next.headers ≡ none
      → JsMap.get allow_origin_name
          (with_entries method (entries_or_none (Option.map (headers_for cfg) o)) next).headers
        ≡ o
  unfolding with_entries JsMap.get
  get-with_entries method cfg o next h =
      ground (arith, h, get-entries_or_none cfg o [], get-entries_or_none cfg o next.headers)

  -- The middleware adds the origin that it allows to a reply that names none.
  get-cors_middleware :
      (url_hostname : Text → Option Text) (cfg : CorsConfig) (c : ℕ) (s method : Text)
      (next : CorsReply)
      → JsMap.get allow_origin_name next.headers ≡ none
      → JsMap.get allow_origin_name
          (cors_middleware url_hostname cfg (some (c ∷ s)) method next).headers
        ≡ pick_allowed_origin url_hostname cfg (some (c ∷ s))
  unfolding cors_middleware build_cors_headers
  get-cors_middleware url_hostname cfg c s method next h =
      get-with_entries method cfg (pick_allowed_origin url_hostname cfg (some (c ∷ s))) next h

  -- With a value of `1TUBE_CORS_ORIGIN`, and whatever comes next names no origin itself, the reply to a
  -- request allows its origin exactly if one of the entries of the value is `*`, or the origin has a
  -- domain and one of the entries has that domain or is a wildcard above it. It then names the origin,
  -- and else none: for every method, a preflight included.
  pub cors_middleware-entry_allows :
      (url_hostname : Text → Option Text) (env : CorsEnv) (c : ℕ) (s method : Text)
      (next : CorsReply)
      → is_present (trim env.origin) ≡ true
      → JsMap.get allow_origin_name next.headers ≡ none
      → JsMap.get allow_origin_name
          (cors_middleware url_hostname (load_config env) (some (c ∷ s)) method next).headers
        ≡ (let host = origin_domain url_hostname (c ∷ s) in
            let entries = comma_items (trim env.origin) in
            if any is_star entries || (is_present host && any (entry_allows host) entries)
            then some (c ∷ s)
            else none)
  cors_middleware-entry_allows url_hostname env c s method next h lacks =
      get-cors_middleware url_hostname (load_config env) c s method next lacks
      ∙ pick_allowed_origin-entry_allows url_hostname env c s h
