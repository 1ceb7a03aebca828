-- ===== src/Capnp/Served.antt =====
-- What the services of a configuration hold.
use tube.Common.{
  any, eqb, not, ◌||◌, ◌≡◌, refl, ap, sym, ◌∙◌, Bool, true, false, ◌&&◌, Option, none, some, List,
  [], ◌∷◌, ◌++◌, get_or, length, ◌==◌, text_eq, arith,
}
use tube.Common.Sets.{member}
use tube.Common.Text.{split, Text, codes}
use tube.Capnp.{
  CapnpFunctionInput, CapnpOptions, Service, CapnpConfig, bad_compat_flag, bad_env_var,
  bad_compat_date, checked, map_checked, every, is_env_var_name, is_compat_flag, is_compat_date,
  is_embed_path, is_dots, validate_bundle_embed_path, validate_compat_date, validate_env_var_name,
  validate_compat_flag, dedupe_from, dedupe_stable, check_ports, check_names, routes_from, date_of,
  service_of, base_port_of, flags_of, check_config, default_compat_date, modules_of, twice,
}
use tube.Capnp.Dedupe.{
  are_distinct, are_distinct-dedupe_from, every-dedupe_from, holds, holds-and_then,
  holds-map_checked, holds-if, holds-anything,
}

-- A path with no segment that is empty, `.` or `..`, and with no quote and no backslash.
abbrev pub stays_inside : Text → Bool
stays_inside path =
    not (any (λ s. s == [] || s == codes "." || s == codes "..") (split b'/' path))
    && not (any (λ c. eqb c 34 || eqb c 92) path)

any-or :
    (s : Text)
    → any (λ c. eqb c 34 || eqb c 92) s ≡ (any (λ c. eqb c 92) s || any (λ c. eqb c 34) s)
any-or [] = refl
any-or (c ∷ s) = ground (arith, any-or s)

any-is_dots :
    (ts : List Text) → any (λ s. s == [] || s == codes "." || s == codes "..") ts ≡ any is_dots ts
any-is_dots [] = refl
any-is_dots ([] ∷ ts) = refl
any-is_dots ((c ∷ s) ∷ ts) = ap (λ b. is_dots (c ∷ s) || b) (any-is_dots ts)

path_holds : (s : Text) → holds stays_inside (validate_bundle_embed_path s) ≡ true
unfolding validate_bundle_embed_path is_embed_path
path_holds s = ground (arith, any-is_dots (split b'/' s), any-or s)

flag_holds : (s : Text) → holds is_compat_flag (validate_compat_flag s) ≡ true
unfolding validate_compat_flag
flag_holds s = holds-if is_compat_flag s (bad_compat_flag s)

env_holds : (s : Text) → holds is_env_var_name (validate_env_var_name s) ≡ true
unfolding validate_env_var_name
env_holds s = holds-if is_env_var_name s (bad_env_var s)

date_holds : (s : Text) → holds is_compat_date (validate_compat_date s) ≡ true
unfolding validate_compat_date
date_holds s = holds-if is_compat_date s (bad_compat_date s)

date_of-holds :
    (g : Text) (o : Option Text)
    → is_compat_date g ≡ true
    → holds is_compat_date (date_of g o) ≡ true
unfolding date_of
date_of-holds g none h = h
date_of-holds g (some []) h = h
date_of-holds g (some (c ∷ s)) h = date_holds (c ∷ s)

abbrev paths_of : List (Text × Text) → List Text
paths_of [] = []
paths_of (m ∷ ms) = m.1 ∷ paths_of ms

-- Paths that stay in the directory of the configuration, none twice and at least one.
abbrev are_embeddable : List Text → Bool
are_embeddable [] = false
are_embeddable (t ∷ ts) = every stays_inside (t ∷ ts) && are_distinct (t ∷ ts)

-- A service that embeds only such paths, with a date, and with flags and variables of which each is
-- well-formed and none stands twice.
abbrev pub is_loadable : Service → Bool
is_loadable s =
    are_embeddable (paths_of s.modules)
    && is_compat_date s.compatibility_date
    && (every is_compat_flag s.flags && are_distinct s.flags)
    && (every is_env_var_name s.env_names && are_distinct s.env_names)

paths_of-twice : (ts : List Text) → paths_of (twice ts) ≡ ts
paths_of-twice [] = refl
paths_of-twice (t ∷ ts) = ap (λ x. t ∷ x) (paths_of-twice ts)

are_embeddable-modules_of :
    (bundle : Text) (ts : List Text)
    → stays_inside bundle ≡ true
    → every stays_inside ts ≡ true
    → are_distinct ts ≡ true
    → are_embeddable (paths_of (modules_of bundle ts)) ≡ true
unfolding member
are_embeddable-modules_of bundle [] b e d = ground (arith, b)
are_embeddable-modules_of bundle (t ∷ ts) b e d =
    ap are_embeddable (paths_of-twice (t ∷ ts)) ∙ ground (arith, e, d)

every-append :
    (f : Text → Bool) (xs ys : List Text) → every f (xs ++ ys) ≡ (every f xs && every f ys)
every-append f [] ys = refl
every-append f (x ∷ xs) ys = ground (arith, every-append f xs ys)

two : {a b : Bool} → a ≡ true → b ≡ true → (a && b) ≡ true
two {a = a} {b = b} p q = ap (λ x. x && b) p ∙ q

four : {a b c d : Bool} → a ≡ true → b ≡ true → c ≡ true → d ≡ true → (a && b && c && d) ≡ true
four p q r s = two (two (two p q) r) s

service_of-holds :
    (date : Text) (flags : List Text) (input : CapnpFunctionInput)
    → is_compat_date date ≡ true
    → every is_compat_flag flags ≡ true
    → holds is_loadable (service_of date flags input) ≡ true
unfolding service_of dedupe_stable
service_of-holds date flags input d fs =
    holds-and_then is_loadable stays_inside (validate_bundle_embed_path input.bundle_basename) _
      (path_holds input.bundle_basename)
      (λ bundle b.
        holds-and_then is_loadable (every stays_inside)
          (map_checked validate_bundle_embed_path input.module_files) _
          (holds-map_checked stays_inside validate_bundle_embed_path path_holds input.module_files)
          (λ files e.
            holds-and_then is_loadable is_compat_date (date_of date input.compatibility_date) _
              (date_of-holds date input.compatibility_date d)
              (λ compat c.
                holds-and_then is_loadable (every is_compat_flag)
                  (map_checked validate_compat_flag input.extra_compatibility_flags) _
                  (holds-map_checked is_compat_flag validate_compat_flag flag_holds
                    input.extra_compatibility_flags)
                  (λ extra x.
                    holds-and_then is_loadable (every is_env_var_name)
                      (map_checked validate_env_var_name input.env_bindings) _
                      (holds-map_checked is_env_var_name validate_env_var_name env_holds
                        input.env_bindings)
                      (λ env v.
                        four
                          (are_embeddable-modules_of bundle (dedupe_from [] files) b
                            (every-dedupe_from stays_inside [] files e)
                            (are_distinct-dedupe_from [] files))
                          c
                          (two
                            (every-dedupe_from is_compat_flag [] (flags ++ extra)
                              (every-append is_compat_flag flags extra ∙ two fs x))
                            (are_distinct-dedupe_from [] (flags ++ extra)))
                          (two (every-dedupe_from is_env_var_name [] env v)
                            (are_distinct-dedupe_from [] env)))))))

-- What a configuration that is returned has.
abbrev pub loads_all : CapnpConfig → Bool
loads_all cfg = every is_loadable cfg.services

check_config-holds :
    (opts : CapnpOptions) (inputs : List CapnpFunctionInput)
    → holds loads_all (check_config opts inputs) ≡ true
unfolding check_config
check_config-holds opts [] = refl
check_config-holds opts (input ∷ inputs) =
    let date = get_or opts.compatibility_date default_compat_date in
    let address = get_or opts.bind_address (codes "127.0.0.1") in
    holds-and_then loads_all is_compat_date (validate_compat_date date) _ (date_holds date) (λ d hd.
      holds-and_then loads_all (every is_compat_flag)
        (map_checked validate_compat_flag (flags_of opts)) _
        (holds-map_checked is_compat_flag validate_compat_flag flag_holds (flags_of opts))
        (λ flags hf.
          holds-and_then loads_all (λ b. true)
            (check_ports (base_port_of opts) (length (input ∷ inputs))) _ (holds-anything _)
            (λ base hb.
              holds-and_then loads_all (λ b. true) (check_names [] (input ∷ inputs)) _
                (holds-anything _)
                (λ seen hs.
                  holds-and_then loads_all (λ b. true) (routes_from address base (input ∷ inputs)) _
                    (holds-anything _)
                    (λ routes hr.
                      holds-and_then loads_all (every is_loadable)
                        (map_checked (service_of d flags) (input ∷ inputs)) _
                        (holds-map_checked is_loadable (service_of d flags)
                          (λ i. service_of-holds d flags i hd hf) (input ∷ inputs))
                        (λ services h. h))))))

-- Every service of a configuration that generateCapnp returns embeds at least one module, each by a
-- relative path without `..`, `.`, empty segments, quotes and backslashes, has a date of the form
-- YYYY-MM-DD, and has well-formed flags and variable names, with no path, flag or name twice.
pub check_config-loads_all :
    (opts : CapnpOptions) (inputs : List CapnpFunctionInput) (cfg : CapnpConfig)
    → check_config opts inputs ≡ checked cfg
    → loads_all cfg ≡ true
check_config-loads_all opts inputs cfg e =
    sym (ap (holds loads_all) e) ∙ check_config-holds opts inputs
