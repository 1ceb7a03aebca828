-- ===== src/Capnp/Ports.antt =====
-- The routes of a configuration and their ports.
use tube.Common.{
  ℕ, suc, ◌+◌, ◌≡◌, refl, ap, sym, ◌∙◌, Bool, true, false, ◌&&◌, List, [], ◌∷◌, leb, get_or, length,
  ◌==◌, text_eq, arith, text_beq_iff, eqb, ◌≤◌,
}
use tube.Common.Text.{Text, codes}
use tube.Capnp.{
  CapnpFunctionInput, CapnpOptions, CapnpRoute, CapnpConfig, checked, map_checked, every,
  validate_service_name, validate_compat_date, validate_compat_flag, check_ports, check_names,
  routes_from, service_of, base_port_of, flags_of, check_config, default_compat_date,
}
use tube.Capnp.Dedupe.{holds, holds-and_then, holds-anything}

-- The route of each input, in their order, with its name for the service and the next port.
abbrev pub are_routes : Text → ℕ → List CapnpFunctionInput → List CapnpRoute → Bool
are_routes address port [] [] = true
are_routes address port (i ∷ is) (r ∷ rs) =
    r.name == i.name
    && r.service == i.name
    && r.address == address
    && eqb r.port port
    && are_routes address (suc port) is rs
are_routes address port _ _ = false

abbrev pub in_range : CapnpRoute → Bool
in_range r = leb 1024 r.port && leb r.port 65535

name_holds : (s : Text) → holds (λ t. t == s) (validate_service_name s) ≡ true
unfolding validate_service_name
name_holds s = ground (arith, text_beq_iff s s)

routes_from-holds :
    (address : Text) (port : ℕ) (inputs : List CapnpFunctionInput)
    → holds (are_routes address port inputs) (routes_from address port inputs) ≡ true
unfolding routes_from
routes_from-holds address port [] = refl
routes_from-holds address port (i ∷ is) =
    holds-and_then (are_routes address port (i ∷ is)) (λ t. t == i.name)
      (validate_service_name i.name) _ (name_holds i.name)
      (λ service h.
        holds-and_then (are_routes address port (i ∷ is)) (are_routes address (suc port) is)
          (routes_from address (suc port) is) _ (routes_from-holds address (suc port) is)
          (λ routes g.
            ground (arith, text_beq_iff i.name i.name, text_beq_iff address address, h, g)))

are_routes-in_range :
    (address : Text) (port : ℕ) (is : List CapnpFunctionInput) (rs : List CapnpRoute)
    → 1024 ≤ port
    → port + length is ≤ 65536
    → are_routes address port is rs ≡ true
    → every in_range rs ≡ true
are_routes-in_range address port [] [] lo hi e = refl
are_routes-in_range address port [] (r ∷ rs) lo hi e = ground (arith, e)
are_routes-in_range address port (i ∷ is) [] lo hi e = ground (arith, e)
are_routes-in_range address port (i ∷ is) (r ∷ rs) lo hi e =
    ground (arith, are_routes-in_range address (suc port) is rs, lo, hi, e)

abbrev is_base : CapnpOptions → List CapnpFunctionInput → ℕ → Bool
is_base opts inputs base =
    eqb base (base_port_of opts) && leb 1024 base && leb (base + length inputs) 65536

check_ports-holds :
    (opts : CapnpOptions) (i : CapnpFunctionInput) (is : List CapnpFunctionInput)
    → holds (is_base opts (i ∷ is)) (check_ports (base_port_of opts) (length (i ∷ is))) ≡ true
unfolding check_ports
check_ports-holds opts i is = ground arith

abbrev pub address_of : CapnpOptions → Text
address_of opts = get_or opts.bind_address (codes "127.0.0.1")

abbrev routes_well : CapnpOptions → List CapnpFunctionInput → CapnpConfig → Bool
routes_well opts inputs cfg =
    are_routes (address_of opts) (base_port_of opts) inputs cfg.routes && every in_range cfg.routes

routes_well_at :
    (opts : CapnpOptions) (is : List CapnpFunctionInput) (base : ℕ) (cfg : CapnpConfig)
    → is_base opts is base ≡ true
    → are_routes (address_of opts) base is cfg.routes ≡ true
    → routes_well opts is cfg ≡ true
routes_well_at opts is base cfg hb hr =
    ground (arith, are_routes-in_range (address_of opts) (base_port_of opts) is cfg.routes, hb, hr)

check_config-holds :
    (opts : CapnpOptions) (inputs : List CapnpFunctionInput)
    → holds (routes_well opts inputs) (check_config opts inputs) ≡ true
unfolding check_config
check_config-holds opts [] = refl
check_config-holds opts (i ∷ is) =
    let inputs = i ∷ is in
    let well = routes_well opts inputs in
    let address = get_or opts.bind_address (codes "127.0.0.1") in
    holds-and_then well (λ d. true)
      (validate_compat_date (get_or opts.compatibility_date default_compat_date)) _
      (holds-anything _)
      (λ date hd.
        holds-and_then well (λ f. true) (map_checked validate_compat_flag (flags_of opts)) _
          (holds-anything _)
          (λ flags hf.
            holds-and_then well (is_base opts inputs)
              (check_ports (base_port_of opts) (length inputs)) _ (check_ports-holds opts i is)
              (λ base hb.
                holds-and_then well (λ b. true) (check_names [] inputs) _ (holds-anything _)
                  (λ seen hs.
                    holds-and_then well (are_routes address base inputs)
                      (routes_from address base inputs) _ (routes_from-holds address base inputs)
                      (λ routes hr.
                        holds-and_then well (λ b. true) (map_checked (service_of date flags) inputs)
                          _ (holds-anything _)
                          (λ services h.
                            routes_well_at opts inputs base
                              (record { routes = routes; services = services }) hb hr))))))

-- In a configuration that generateCapnp returns each input has one route, in the order of the inputs,
-- with its name as the service and the next port from the base port on, and every port lies in
-- [1024, 65535].
pub check_config-in_range :
    (opts : CapnpOptions) (inputs : List CapnpFunctionInput) (cfg : CapnpConfig)
    → check_config opts inputs ≡ checked cfg
    → (are_routes (address_of opts) (base_port_of opts) inputs cfg.routes ≡ true)
      × (every in_range cfg.routes ≡ true)
check_config-in_range opts inputs cfg e =
    let well = sym (ap (holds (routes_well opts inputs)) e) ∙ check_config-holds opts inputs in
    (ground (arith, well), ground (arith, well))
