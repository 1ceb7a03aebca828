-- ===== src/Gateway/Cors/Credentials.antt =====
-- Whose origin the headers name, and when credentials go with it.
use mathlib.Core.Option
use tube.Common.{
  ◌≡◌, ◌≢◌, refl, true, false, not, Option, none, some, [], ◌∷◌, ◌==◌, text_eq, text_beq_iff, arith,
}
use tube.Common.Text.{Text}
use tube.Gateway.Cors.{
  CorsConfig, CorsHeaders, headers_for, any_origin, listed_origin, pick_allowed_origin,
  build_cors_headers,
}

map-some :
    {A B : Type 0} (f : A → B) (o : Option A) (b : B)
    → Option.map f o ≡ some b
    → (a : A) × (o ≡ some a) × (f a ≡ b)
map-some f none b e = cc
map-some f (some a) b e = (a, refl, cc)

headers_for-credentials :
    (cfg : CorsConfig) (allowed : Text)
    → (headers_for cfg allowed).allow_credentials ≡ true
    → allowed ≢ any_origin
unfolding headers_for
headers_for-credentials cfg allowed h = ground (arith, text_beq_iff allowed any_origin)

module _ (url_hostname : Text → Option Text) where
  listed_origin-same :
      (cfg : CorsConfig) (origin : Option Text) (a : Text)
      → listed_origin url_hostname cfg origin ≡ some a
      → origin ≡ some a
  unfolding listed_origin
  listed_origin-same cfg none a e = cc
  listed_origin-same cfg (some []) a e = cc
  listed_origin-same cfg (some (c ∷ s)) a e = ground arith

  pick_allowed_origin-same :
      (cfg : CorsConfig) (origin : Option Text) (a : Text)
      → pick_allowed_origin url_hostname cfg origin ≡ some a
      → cfg.allow_any ≡ false
      → origin ≡ some a
  unfolding pick_allowed_origin
  pick_allowed_origin-same cfg origin a e any = listed_origin-same cfg origin a (ground arith)

  -- Headers that a response gets never allow credentials together with the origin `*`, vary by the
  -- origin unless they name `*`, and without `*` in the configuration name the request's own origin.
  pub build_cors_headers-credentials :
      (cfg : CorsConfig) (origin : Option Text) (h : CorsHeaders)
      → build_cors_headers url_hostname cfg origin ≡ some h
      → (h.allow_credentials ≡ true → h.allow_origin ≢ any_origin)
        × (h.vary_origin ≡ not (h.allow_origin == any_origin))
        × (cfg.allow_any ≡ false → origin ≡ some h.allow_origin)
  unfolding build_cors_headers
  build_cors_headers-credentials cfg origin h e =
      let (a, picked, same) =
        map-some (headers_for cfg) (pick_allowed_origin url_hostname cfg origin) h e in
      rw (← same) (
        headers_for-credentials cfg a,
        unfold headers_for in refl,
        pick_allowed_origin-same cfg origin a picked,
      )
