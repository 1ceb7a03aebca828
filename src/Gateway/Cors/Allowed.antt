-- ===== src/Gateway/Cors/Allowed.antt =====
-- Which origins an allowlist allows, entry by entry.
use mathlib.Core.List.{reverse, reverse-append, reverse-reverse}
use tube.Common.{
  ℕ, ◌≡◌, refl, ap, sym, ◌∙◌, leb, eqb_iff, length, Bool-cases, inl, inr, text_beq_iff, Bool, true,
  false, ◌&&◌, ◌||◌, Option, none, some, List, [], ◌∷◌, any, if◌then◌else◌, ◌==◌, text_eq, arith,
}
use tube.Common.Sets.{member}
use tube.Common.Text.{Text, codes, starts_with, ends_with, trim, starts_with-snoc, length_reversed}
use tube.Gateway.Cors.Shape.{CorsEnv, ResponseShape, is_present, comma_items, load_response_shape}
use tube.Gateway.Cors.{
  normalize_domain_pattern, Lists, add_domain, add_entry, load_entries, config_of, load_config,
  wildcard_matches, host_allowed, origin_domain, listed_origin, pick_allowed_origin, any_origin,
}

abbrev pub is_star : Text → Bool
is_star entry = entry == any_origin

-- The host ends in the suffix, with something before it.
pub is_above : Text → Text → Bool
is_above suffix [] = false
is_above suffix (c ∷ host) = let rest = is_above suffix host in host == suffix || rest

-- Whether the domain of an entry is that of the host, or a wildcard above it.
pub domain_allows : Text → Option Text → Bool
unfolding is_above
domain_allows host none = false
domain_allows host (some []) = false
domain_allows host (some (c ∷ s)) =
    if starts_with (codes "*.") (c ∷ s) then is_above s host else c ∷ s == host

pub entry_allows : Text → Text → Bool
unfolding domain_allows
entry_allows host entry = domain_allows host (normalize_domain_pattern entry)

abbrev list_allows : Text → Lists → Bool
list_allows host lists = member host lists.0 || any (λ suffix. wildcard_matches suffix host) lists.1

starts_with-length : (p s : Text) → starts_with p s ≡ true → leb (length p) (length s) ≡ true
unfolding starts_with
starts_with-length [] s e = ground arith
starts_with-length (c ∷ p) [] e = ground (arith, e)
starts_with-length (c ∷ p) (d ∷ s) e = ground (arith, e, starts_with-length p s)

starts_with-full : (p s : Text) → leb (length s) (length p) ≡ true → starts_with p s ≡ (s == p)
unfolding starts_with
starts_with-full [] [] e = refl
starts_with-full [] (d ∷ s) e = ground (arith, e)
starts_with-full (c ∷ p) [] e = refl
starts_with-full (c ∷ p) (d ∷ s) e =
    ground (arith, e, starts_with-full p s, eqb_iff c d, eqb_iff d c)

reverse-beq : (s t : Text) → (reverse s == reverse t) ≡ (s == t)
reverse-beq s t = elim (Bool-cases (s == t)) [
  | inl e ↦ (text_beq_iff (reverse s) (reverse t)).1 (ap reverse ((text_beq_iff s t).0 e)) ∙ sym e
  | inr e ↦ elim (Bool-cases (reverse s == reverse t)) [
    | inl f ↦
        f
        ∙ sym (
            (text_beq_iff s t).1 (
              sym (reverse-reverse s)
              ∙ ap reverse ((text_beq_iff (reverse s) (reverse t)).0 f)
              ∙ reverse-reverse t))
    | inr f ↦ f ∙ sym e
  ]
]

same_length : (s t : Text) → (s == t) ≡ true → length s ≡ length t
same_length s t e = ap length ((text_beq_iff s t).0 e)

wildcard_matches-is_above :
    (suffix host : Text) → wildcard_matches suffix host ≡ is_above suffix host
unfolding wildcard_matches is_above ends_with
wildcard_matches-is_above suffix [] = ground arith
wildcard_matches-is_above suffix (c ∷ host) = ground (
  arith,
  wildcard_matches-is_above suffix host,
  ap (starts_with (reverse suffix)) (reverse-append (c ∷ []) host),
  starts_with-snoc (reverse suffix) (reverse host) c,
  starts_with-full (reverse suffix) (reverse host),
  reverse-beq host suffix,
  length_reversed suffix,
  length_reversed host,
  same_length host suffix,
)

any-is_above :
    (host : Text) (ss : List Text)
    → any (λ suffix. wildcard_matches suffix host) ss ≡ any (λ suffix. is_above suffix host) ss
any-is_above host [] = refl
any-is_above host (s ∷ ss) = ground (arith, any-is_above host ss, wildcard_matches-is_above s host)

add_domain-list_allows :
    (host : Text) (domain : Option Text) (lists : Lists)
    → list_allows host (add_domain domain lists)
      ≡ (domain_allows host domain || list_allows host lists)
unfolding add_domain domain_allows member
add_domain-list_allows host none lists = refl
add_domain-list_allows host (some []) lists = refl
add_domain-list_allows host (some (c ∷ s)) (allowed, wildcards) =
    ground (arith, wildcard_matches-is_above s host)

-- With `*` among the entries, everything is allowed.
abbrev is_any : Option Lists → Bool
is_any none = true
is_any (some lists) = false

abbrev allowed_by : Text → Option Lists → Bool
allowed_by host none = true
allowed_by host (some lists) = list_allows host lists

is_any-add_entry : (e : Text) (o : Option Lists) → is_any (add_entry e o) ≡ (is_star e || is_any o)
unfolding add_entry
is_any-add_entry e none = ground arith
is_any-add_entry e (some lists) = ground arith

allowed_by-add_entry :
    (host e : Text) (o : Option Lists)
    → allowed_by host (add_entry e o) ≡ (is_star e || (entry_allows host e || allowed_by host o))
unfolding add_entry entry_allows
allowed_by-add_entry host e none = ground arith
allowed_by-add_entry host e (some lists) =
    ground (arith, add_domain-list_allows host (normalize_domain_pattern e) lists)

is_any-load_entries : (entries : List Text) → is_any (load_entries entries) ≡ any is_star entries
unfolding load_entries
is_any-load_entries [] = refl
is_any-load_entries (e ∷ entries) =
    is_any-add_entry e (load_entries entries)
    ∙ ap (λ b. is_star e || b) (is_any-load_entries entries)

allowed_by-load_entries :
    (host : Text) (entries : List Text)
    → allowed_by host (load_entries entries)
      ≡ (any is_star entries || any (entry_allows host) entries)
unfolding load_entries member
allowed_by-load_entries host [] = refl
allowed_by-load_entries host (e ∷ entries) =
    allowed_by-add_entry host e (load_entries entries)
    ∙ ground (arith, allowed_by-load_entries host entries)

configured :
    (env : CorsEnv)
    → is_present (trim env.origin) ≡ true
    → load_config env
      ≡ config_of (load_response_shape env) (load_entries (comma_items (trim env.origin)))
unfolding load_config
configured env h = ground arith

module _ (url_hostname : Text → Option Text) where
  pick_allowed_origin-config_of :
      (shape : ResponseShape) (o : Option Lists) (c : ℕ) (s : Text)
      → pick_allowed_origin url_hostname (config_of shape o) (some (c ∷ s)) ≡ (
          let host = origin_domain url_hostname (c ∷ s) in
          if is_any o || (is_present host && allowed_by host o) then some (c ∷ s) else none)
  unfolding pick_allowed_origin listed_origin host_allowed
  pick_allowed_origin-config_of shape none c s = refl
  pick_allowed_origin-config_of shape (some lists) c s = refl

  -- With a value of `1TUBE_CORS_ORIGIN`, a request's origin is allowed exactly if one of the entries
  -- of the value is `*`, or the origin has a domain and one of the entries has that domain or is a
  -- wildcard above it; and it is then the origin itself that is sent back.
  pub pick_allowed_origin-entry_allows :
      (env : CorsEnv) (c : ℕ) (s : Text)
      → is_present (trim env.origin) ≡ true
      → pick_allowed_origin url_hostname (load_config env) (some (c ∷ s)) ≡ (
          let host = origin_domain url_hostname (c ∷ s) in
          let entries = comma_items (trim env.origin) in
          if any is_star entries || (is_present host && any (entry_allows host) entries)
          then some (c ∷ s)
          else none)
  unfolding load_config
  pick_allowed_origin-entry_allows env c s h =
      let host = origin_domain url_hostname (c ∷ s) in
      let entries = comma_items (trim env.origin) in
      ap (λ cfg. pick_allowed_origin url_hostname cfg (some (c ∷ s))) (configured env h)
      ∙ pick_allowed_origin-config_of (load_response_shape env) (load_entries entries) c s
      ∙ ground (arith, is_any-load_entries entries, allowed_by-load_entries host entries)
