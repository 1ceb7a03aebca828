-- ===== src/Capnp.antt =====
-- backends/workerd/capnp.ts: the configuration of workerd. `JSON.stringify` of a text and the spelling
-- of a number are parameters.
pub mod Render
pub mod Valid
pub mod Dedupe
pub mod Served
pub mod Ports
mod Tests
use tube.Common.{
  ℕ, suc, ◌+◌, ◌-◌, Bool, true, false, not, ◌&&◌, ◌||◌, Option, none, some, List, [], ◌∷◌, ◌++◌,
  any, eqb, leb, ltb, if◌then◌else◌, get_or, length, ◌==◌, text_eq,
}
use tube.Common.Sets.{member}
use tube.Common.Text.{Text, codes, starts_with, ends_with, split}

pub record CapnpFunctionInput : Type 0 where
  pub name : Text
  pub bundle_basename : Text
  pub module_files : List Text
  pub compatibility_date : Option Text
  pub extra_compatibility_flags : List Text
  pub env_bindings : List Text

pub record CapnpOptions : Type 0 where
  pub bind_address : Option Text
  pub base_port : Option ℕ
  pub compatibility_date : Option Text
  pub compatibility_flags : Option (List Text)
  pub allow_local_outbound : Bool

pub record CapnpRoute : Type 0 where
  pub name : Text
  pub service : Text
  pub address : Text
  pub port : ℕ

-- What a function's block in the list of services says.
pub record Service : Type 0 where
  pub name : Text
  pub modules : List (Text × Text)
  pub compatibility_date : Text
  pub flags : List Text
  pub env_names : List Text

pub data CapnpError : Type 0 where
  no_inputs port_overflow bad_base_port : CapnpError
  duplicate_name bad_service_name bad_embed_path : Text → CapnpError
  bad_compat_date bad_env_var bad_compat_flag : Text → CapnpError

pub data Checked {ℓ} (A : Type ℓ) : Type ℓ where
  threw : CapnpError → Checked A
  checked : A → Checked A

module _ {ℓ} {A : Type ℓ} where
  abbrev pub is_checked : Checked A → Bool
  is_checked (threw e) = false
  is_checked (checked a) = true

  module _ {κ} {B : Type κ} where
    abbrev pub and_then : Checked A → (A → Checked B) → Checked B
    and_then (threw e) f = threw e
    and_then (checked a) f = f a

abbrev pub map_checked {ℓ κ} :
    {A : Type ℓ} {B : Type κ} → (A → Checked B) → List A → Checked (List B)
map_checked f [] = checked []
map_checked f (a ∷ rest) =
    and_then (f a) (λ b. and_then (map_checked f rest) (λ bs. checked (b ∷ bs)))

abbrev pub every {ℓ} : {A : Type ℓ} → (A → Bool) → List A → Bool
every f [] = true
every f (a ∷ rest) = f a && every f rest

unfoldable pub default_compat_date : Text
default_compat_date = codes "2026-04-25"

unfoldable pub default_compat_flags : List Text
default_compat_flags = codes "nodejs_compat" ∷ codes "nodejs_compat_populate_process_env" ∷ []

abbrev is_lower : ℕ → Bool
is_lower c = leb b'a' c && leb c b'z'

abbrev is_letter : ℕ → Bool
is_letter c = is_lower c || (leb b'A' c && leb c b'Z')

abbrev is_digit : ℕ → Bool
is_digit c = leb b'0' c && leb c b'9'

-- `/^[first][rest]*$/`
abbrev begins_then : (ℕ → Bool) → (ℕ → Bool) → Text → Bool
begins_then first rest [] = false
begins_then first rest (c ∷ s) = first c && every rest s

abbrev pub is_service_name : Text → Bool
is_service_name s =
    begins_then is_letter (λ c. is_letter c || is_digit c || eqb c b'_' || eqb c b'-') s

abbrev pub is_env_var_name : Text → Bool
is_env_var_name s =
    begins_then (λ c. is_letter c || eqb c b'_') (λ c. is_letter c || is_digit c || eqb c b'_') s

abbrev pub is_compat_flag : Text → Bool
is_compat_flag s = begins_then is_lower (λ c. is_lower c || is_digit c || eqb c b'_') s

abbrev pub is_compat_date : Text → Bool
is_compat_date (a ∷ b ∷ c ∷ d ∷ e ∷ f ∷ g ∷ h ∷ i ∷ j ∷ []) =
    every is_digit (a ∷ b ∷ c ∷ d ∷ f ∷ g ∷ i ∷ j ∷ []) && eqb e b'-' && eqb h b'-'
is_compat_date _ = false

abbrev is_empty : Text → Bool
is_empty [] = true
is_empty (c ∷ s) = false

abbrev includes : ℕ → Text → Bool
includes c s = any (λ d. eqb d c) s

abbrev pub is_dots : Text → Bool
is_dots s = is_empty s || s == codes "." || s == codes ".."

unfoldable pub is_embed_path : Text → Bool
unfolding starts_with ends_with split
is_embed_path path =
    not (is_empty path || includes 92 path || includes 34 path)
    && not (
        starts_with (codes "/") path || starts_with (codes "./") path || ends_with (codes "/") path)
    && not (any is_dots (split b'/' path))

unfoldable pub validate_service_name : Text → Checked Text
validate_service_name name =
    if is_service_name name then checked name else threw (bad_service_name name)

unfoldable pub validate_bundle_embed_path : Text → Checked Text
unfolding is_embed_path
validate_bundle_embed_path path =
    if is_embed_path path then checked path else threw (bad_embed_path path)

unfoldable pub validate_compat_date : Text → Checked Text
validate_compat_date date =
    if is_compat_date date then checked date else threw (bad_compat_date date)

unfoldable pub validate_env_var_name : Text → Checked Text
validate_env_var_name name = if is_env_var_name name then checked name else threw (bad_env_var name)

unfoldable pub validate_compat_flag : Text → Checked Text
validate_compat_flag flag =
    if is_compat_flag flag then checked flag else threw (bad_compat_flag flag)

unfoldable pub dedupe_from : List Text → List Text → List Text
unfolding member
dedupe_from seen [] = []
dedupe_from seen (t ∷ ts) =
    let later = dedupe_from (t ∷ seen) ts in
    let rest = dedupe_from seen ts in if member t seen then rest else t ∷ later

unfoldable pub dedupe_stable : List Text → List Text
unfolding dedupe_from
dedupe_stable ts = dedupe_from [] ts

unfoldable pub check_ports : ℕ → ℕ → Checked ℕ
check_ports base n =
    if ltb base 1024 || ltb 65535 base
    then threw bad_base_port
    else if ltb 65535 (base + n - 1)
    then threw port_overflow
    else checked base

unfoldable pub check_names : List Text → List CapnpFunctionInput → Checked (List Text)
unfolding member
check_names seen [] = checked seen
check_names seen (input ∷ inputs) =
    let rest = check_names (input.name ∷ seen) inputs in
    if member input.name seen then threw (duplicate_name input.name) else rest

unfoldable pub routes_from : Text → ℕ → List CapnpFunctionInput → Checked (List CapnpRoute)
unfolding validate_service_name
routes_from address port [] = checked []
routes_from address port (input ∷ inputs) =
    let rest = routes_from address (suc port) inputs in
    and_then (validate_service_name input.name) (λ service. and_then rest (λ routes.
      checked
        (record { name = input.name; service = service; address = address; port = port } ∷ routes)))

abbrev twice : List Text → List (Text × Text)
twice [] = []
twice (t ∷ ts) = (t, t) ∷ twice ts

-- Each module with its name.
abbrev modules_of : Text → List Text → List (Text × Text)
modules_of bundle [] = (codes "worker", bundle) ∷ []
modules_of bundle (t ∷ ts) = twice (t ∷ ts)

-- `input.compatibilityDate ? validateCompatDate(…) : globalDate`
unfoldable pub date_of : Text → Option Text → Checked Text
unfolding validate_compat_date
date_of global none = checked global
date_of global (some []) = checked global
date_of global (some (c ∷ s)) = validate_compat_date (c ∷ s)

unfoldable pub service_of : Text → List Text → CapnpFunctionInput → Checked Service
unfolding validate_bundle_embed_path validate_compat_flag validate_env_var_name dedupe_stable
    date_of
service_of date flags input = and_then (validate_bundle_embed_path input.bundle_basename) (λ bundle.
    and_then (map_checked validate_bundle_embed_path input.module_files) (λ files.
      and_then (date_of date input.compatibility_date) (λ compat.
        and_then (map_checked validate_compat_flag input.extra_compatibility_flags) (λ extra.
          and_then (map_checked validate_env_var_name input.env_bindings) (λ env. checked (record {
            name = input.name;
            modules = modules_of bundle (dedupe_stable files);
            compatibility_date = compat;
            flags = dedupe_stable (flags ++ extra);
            env_names = dedupe_stable env;
          }))))))

-- What the text of the configuration renders: the routes and the services.
pub record CapnpConfig : Type 0 where
  pub routes : List CapnpRoute
  pub services : List Service

abbrev pub base_port_of : CapnpOptions → ℕ
base_port_of opts = get_or opts.base_port 8800

abbrev pub flags_of : CapnpOptions → List Text
flags_of opts = get_or opts.compatibility_flags default_compat_flags

-- `generateCapnp` but for the text.
unfoldable pub check_config : CapnpOptions → List CapnpFunctionInput → Checked CapnpConfig
unfolding validate_compat_date validate_compat_flag check_ports check_names routes_from service_of
check_config opts [] = threw no_inputs
check_config opts (input ∷ inputs) =
    and_then (validate_compat_date (get_or opts.compatibility_date default_compat_date)) (λ date.
      and_then (map_checked validate_compat_flag (flags_of opts)) (λ flags.
        and_then (check_ports (base_port_of opts) (length (input ∷ inputs))) (λ base.
          and_then (check_names [] (input ∷ inputs)) (λ seen.
            and_then
              (routes_from (get_or opts.bind_address (codes "127.0.0.1")) base (input ∷ inputs))
              (λ routes.
                and_then (map_checked (service_of date flags) (input ∷ inputs))
                  (λ services. checked (record { routes = routes; services = services })))))))
