-- ===== src/Capnp/Valid.antt =====
-- Which inputs `generateCapnp` takes.
use tube.Common.{
  ℕ, suc, ◌+◌, ◌≡◌, refl, ap, ◌∙◌, Bool, true, false, not, ◌&&◌, Option, none, some, List, [], ◌∷◌,
  leb, if◌then◌else◌, get_or, length, text_eq, arith,
}
use tube.Common.Sets.{member}
use tube.Common.Text.{Text, codes}
use tube.Capnp.{
  CapnpFunctionInput, CapnpOptions, CapnpError, Checked, threw, checked, is_checked, and_then,
  map_checked, every, is_service_name, is_env_var_name, is_compat_flag, is_compat_date,
  is_embed_path, validate_service_name, validate_bundle_embed_path, validate_compat_date,
  validate_env_var_name, validate_compat_flag, check_ports, check_names, routes_from, date_of,
  service_of, base_port_of, flags_of, check_config, default_compat_date,
}

-- No name stands twice, or in `seen`.
abbrev are_new : List Text → List CapnpFunctionInput → Bool
are_new seen [] = true
are_new seen (input ∷ inputs) = not (member input.name seen) && are_new (input.name ∷ seen) inputs

abbrev is_date_or_unset : Option Text → Bool
is_date_or_unset none = true
is_date_or_unset (some []) = true
is_date_or_unset (some (c ∷ s)) = is_compat_date (c ∷ s)

-- Of the texts of an input, each that the configuration embeds.
abbrev pub is_valid_input : CapnpFunctionInput → Bool
is_valid_input input =
    is_embed_path input.bundle_basename
    && every is_embed_path input.module_files
    && is_date_or_unset input.compatibility_date
    && every is_compat_flag input.extra_compatibility_flags
    && every is_env_var_name input.env_bindings

abbrev has_inputs : List CapnpFunctionInput → Bool
has_inputs [] = false
has_inputs (input ∷ inputs) = true

abbrev pub is_valid : CapnpOptions → List CapnpFunctionInput → Bool
is_valid opts inputs =
    has_inputs inputs
    && is_compat_date (get_or opts.compatibility_date default_compat_date)
    && every is_compat_flag (flags_of opts)
    && (leb 1024 (base_port_of opts) && leb (base_port_of opts + length inputs) 65536)
    && are_new [] inputs
    && every (λ i. is_service_name i.name) inputs
    && every is_valid_input inputs

is_checked-and_then {ℓ κ} :
    {A : Type ℓ} {B : Type κ}
    → (m : Checked A) (f : A → Checked B) (c : Bool) → ((a : A) → is_checked (f a) ≡ c)
    → is_checked (and_then m f) ≡ (is_checked m && c)
is_checked-and_then (threw e) f c h = refl
is_checked-and_then (checked a) f c h = h a

-- Two checks in a row, of which the second does not look at what the first has found.
both {ℓ κ} :
    {A : Type ℓ} {B : Type κ}
    → (m : Checked A) (f : A → Checked B) (b c : Bool) → is_checked m ≡ b
    → ((a : A) → is_checked (f a) ≡ c)
    → is_checked (and_then m f) ≡ (b && c)
both m f b c e h = is_checked-and_then m f c h ∙ ap (λ x. x && c) e

is_checked-map_checked {ℓ κ} :
    {A : Type ℓ} {B : Type κ}
    → (f : A → Checked B) (test : A → Bool) → ((a : A) → is_checked (f a) ≡ test a)
    → (items : List A) → is_checked (map_checked f items) ≡ every test items
is_checked-map_checked f test h [] = refl
is_checked-map_checked f test h (a ∷ rest) = both (f a) _ (test a) (every test rest) (h a) (λ b.
    both (map_checked f rest) (λ bs. checked (b ∷ bs)) (every test rest) true
      (is_checked-map_checked f test h rest) (λ bs. refl)
    ∙ ground arith)

is_checked-if {ℓ} :
    {A : Type ℓ}
    → (b : Bool) (a : A) (e : CapnpError)
    → is_checked {A = A} (if b then checked a else threw e) ≡ b
is_checked-if true a e = refl
is_checked-if false a e = refl

path_checked : (s : Text) → is_checked (validate_bundle_embed_path s) ≡ is_embed_path s
unfolding validate_bundle_embed_path
path_checked s = is_checked-if (is_embed_path s) s _

flag_checked : (s : Text) → is_checked (validate_compat_flag s) ≡ is_compat_flag s
unfolding validate_compat_flag
flag_checked s = is_checked-if (is_compat_flag s) s _

env_checked : (s : Text) → is_checked (validate_env_var_name s) ≡ is_env_var_name s
unfolding validate_env_var_name
env_checked s = is_checked-if (is_env_var_name s) s _

date_checked : (s : Text) → is_checked (validate_compat_date s) ≡ is_compat_date s
unfolding validate_compat_date
date_checked s = is_checked-if (is_compat_date s) s _

name_checked : (s : Text) → is_checked (validate_service_name s) ≡ is_service_name s
unfolding validate_service_name
name_checked s = is_checked-if (is_service_name s) s _

date_of_checked : (g : Text) (o : Option Text) → is_checked (date_of g o) ≡ is_date_or_unset o
unfolding date_of
date_of_checked g none = refl
date_of_checked g (some []) = refl
date_of_checked g (some (c ∷ s)) = date_checked (c ∷ s)

and_true : (a b c d e : Bool) → (a && (b && (c && (d && (e && true))))) ≡ (a && b && c && d && e)
and_true a b c d e = ground arith

six_and_true :
    (a b c d e f : Bool)
    → (a && (b && (c && (d && (e && (f && true)))))) ≡ (a && b && c && d && e && f)
six_and_true a b c d e f = ground arith

service_of_checked :
    (date : Text) (flags : List Text) (input : CapnpFunctionInput)
    → is_checked (service_of date flags input) ≡ is_valid_input input
unfolding service_of
service_of_checked date flags input =
    both (validate_bundle_embed_path input.bundle_basename) _ _ _
      (path_checked input.bundle_basename)
      (λ bundle.
        both (map_checked validate_bundle_embed_path input.module_files) _ _ _
          (is_checked-map_checked validate_bundle_embed_path is_embed_path path_checked
            input.module_files)
          (λ files.
            both (date_of date input.compatibility_date) _ _ _
              (date_of_checked date input.compatibility_date)
              (λ compat.
                both (map_checked validate_compat_flag input.extra_compatibility_flags) _ _ _
                  (is_checked-map_checked validate_compat_flag is_compat_flag flag_checked
                    input.extra_compatibility_flags)
                  (λ extra.
                    both (map_checked validate_env_var_name input.env_bindings) _ _ true
                      (is_checked-map_checked validate_env_var_name is_env_var_name env_checked
                        input.env_bindings)
                      (λ env. refl)))))
    ∙ and_true (is_embed_path input.bundle_basename) (every is_embed_path input.module_files)
        (is_date_or_unset input.compatibility_date)
        (every is_compat_flag input.extra_compatibility_flags)
        (every is_env_var_name input.env_bindings)

routes_from_checked :
    (address : Text) (port : ℕ) (inputs : List CapnpFunctionInput)
    → is_checked (routes_from address port inputs) ≡ every (λ i. is_service_name i.name) inputs
unfolding routes_from
routes_from_checked address port [] = refl
routes_from_checked address port (input ∷ inputs) =
    both (validate_service_name input.name) _ _ _ (name_checked input.name) (λ service.
      both (routes_from address (suc port) inputs) _ (every (λ i. is_service_name i.name) inputs)
        true (routes_from_checked address (suc port) inputs) (λ routes. refl)
      ∙ ground arith)

check_names_checked :
    (seen : List Text) (inputs : List CapnpFunctionInput)
    → is_checked (check_names seen inputs) ≡ are_new seen inputs
unfolding check_names
check_names_checked seen [] = refl
check_names_checked seen (input ∷ inputs) =
    ground (arith, check_names_checked (input.name ∷ seen) inputs)

check_ports_checked :
    (base n : ℕ)
    → is_checked (check_ports base (suc n)) ≡ (leb 1024 base && leb (base + suc n) 65536)
unfolding check_ports
check_ports_checked base n = ground arith

-- `generateCapnp` throws on no inputs, and else exactly if the date or a flag is malformed, the ports
-- do not all lie in [1024, 65535], a name stands twice or is none of a service, or an input has a
-- path that leaves the directory or a malformed date, flag or variable: in any other case it
-- returns.
pub check_config-is_valid :
    (opts : CapnpOptions) (inputs : List CapnpFunctionInput)
    → is_checked (check_config opts inputs) ≡ is_valid opts inputs
unfolding check_config
check_config-is_valid opts [] = refl
check_config-is_valid opts (i ∷ is) =
    let inputs = i ∷ is in
    let date = get_or opts.compatibility_date default_compat_date in
    both (validate_compat_date date) _ _ _ (date_checked date) (λ date.
      both (map_checked validate_compat_flag (flags_of opts)) _ _ _
        (is_checked-map_checked validate_compat_flag is_compat_flag flag_checked (flags_of opts))
        (λ flags.
          both (check_ports (base_port_of opts) (length inputs)) _ _ _
            (check_ports_checked (base_port_of opts) (length is))
            (λ base. both (check_names [] inputs) _ _ _ (check_names_checked [] inputs) (λ seen.
              both (routes_from (get_or opts.bind_address (codes "127.0.0.1")) base inputs) _ _ _
                (routes_from_checked (get_or opts.bind_address (codes "127.0.0.1")) base inputs)
                (λ routes.
                  both (map_checked (service_of date flags) inputs) _ _ true
                    (is_checked-map_checked (service_of date flags) is_valid_input
                      (service_of_checked date flags) inputs)
                    (λ services. refl))))))
    ∙ six_and_true (is_compat_date date) (every is_compat_flag (flags_of opts))
        (leb 1024 (base_port_of opts) && leb (base_port_of opts + length inputs) 65536)
        (are_new [] inputs) (every (λ j. is_service_name j.name) inputs)
        (every is_valid_input inputs)
