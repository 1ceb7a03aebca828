-- ===== src/Capnp/Tests.antt =====
-- The configuration of two functions.
use tube.Common.{ℕ, ◌≡◌, refl, true, none, some, [], ◌∷◌}
use tube.Common.Sets.{member}
use tube.Common.Text.{codes, split, split_on, starts_with, ends_with}
use tube.Capnp.{
  CapnpFunctionInput, CapnpOptions, CapnpRoute, CapnpConfig, checked, is_checked, every,
  validate_service_name, validate_bundle_embed_path, validate_compat_date, validate_env_var_name,
  validate_compat_flag, dedupe_from, dedupe_stable, check_ports, check_names, routes_from, date_of,
  service_of, check_config, is_embed_path, base_port_of,
}
use tube.Capnp.Valid.{is_valid, check_config-is_valid}
use tube.Capnp.Served.{loads_all, check_config-loads_all}
use tube.Capnp.Ports.{are_routes, in_range, address_of, check_config-in_range}

abbrev chat : CapnpFunctionInput
chat = record {
  name = codes "chat";
  bundle_basename = codes "f/c.js";
  module_files = codes "a.js" ∷ codes "a.js" ∷ [];
  compatibility_date = none;
  extra_compatibility_flags = codes "no_x" ∷ [];
  env_bindings = codes "KEY" ∷ codes "KEY" ∷ [];
}

abbrev internet : CapnpFunctionInput
internet = record chat { name = codes "internet"; module_files = []; env_bindings = [] }

abbrev options : CapnpOptions
options = record {
  bind_address = none;
  base_port = some 65534;
  compatibility_date = some (codes "2024-09-23");
  compatibility_flags = some (codes "no_x" ∷ []);
  allow_local_outbound = true;
}

abbrev route : CapnpFunctionInput → ℕ → CapnpRoute
route i port = record { name = i.name; service = i.name; address = codes "127.0.0.1"; port = port }

abbrev config : CapnpConfig
config = record {
  routes = route chat 65534 ∷ route internet 65535 ∷ [];
  services =
      record {
        name = codes "chat";
        modules = (codes "a.js", codes "a.js") ∷ [];
        compatibility_date = codes "2024-09-23";
        flags = codes "no_x" ∷ [];
        env_names = codes "KEY" ∷ [];
      }
      ∷ record {
        name = codes "internet";
        modules = (codes "worker", codes "f/c.js") ∷ [];
        compatibility_date = codes "2024-09-23";
        flags = codes "no_x" ∷ [];
        env_names = [];
      }
      ∷ [];
}

-- With local outbound, whose block is a service `internet` too, a function of that name is taken.
configured : check_config options (chat ∷ internet ∷ []) ≡ checked config
unfolding check_config validate_service_name validate_bundle_embed_path validate_compat_date
    validate_env_var_name validate_compat_flag dedupe_from dedupe_stable check_ports check_names
    routes_from date_of service_of is_embed_path split split_on starts_with ends_with member
configured = refl

check_config-is_valid_example :
    is_checked (check_config options (chat ∷ internet ∷ []))
    ≡ is_valid options (chat ∷ internet ∷ [])
check_config-is_valid_example = check_config-is_valid options (chat ∷ internet ∷ [])

check_config-loads_all_example : loads_all config ≡ true
check_config-loads_all_example =
    check_config-loads_all options (chat ∷ internet ∷ []) config configured

check_config-in_range_example :
    (are_routes (address_of options) (base_port_of options) (chat ∷ internet ∷ []) config.routes
      ≡ true)
    × (every in_range config.routes ≡ true)
check_config-in_range_example =
    check_config-in_range options (chat ∷ internet ∷ []) config configured
