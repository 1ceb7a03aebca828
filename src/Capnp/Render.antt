-- ===== src/Capnp/Render.antt =====
-- The text of the configuration.
use tube.Common.{ℕ, Bool, true, false, List, [], ◌∷◌, ◌++◌, map}
use tube.Common.Text.{Text, codes, join}
use tube.Capnp.{
  CapnpFunctionInput, CapnpOptions, CapnpRoute, Service, CapnpConfig, Checked, checked, and_then,
  check_config,
}

-- The routes stand with their origins.
pub record CapnpResult : Type 0 where
  pub text : Text
  pub routes : List (CapnpRoute × Text)

abbrev outbound_block : Bool → List Text
outbound_block false = []
outbound_block true =
    codes
      "  (\n    name = \"internet\",\n    network = (\n      allow = [\"public\", \"local\"],\n      tlsOptions = (trustBrowserCas = true)\n    )\n  )"
    ∷ []

header : Text
header =
    codes
      "# AUTO-GENERATED by 1tube workerd backend — do not edit\n# Each function is a separate workerd service in its own isolate, with\n# its own loopback HTTP socket. The 1tube gateway proxies authorised\n# requests to the right service via the route table returned alongside\n# this file.\n\nusing Workerd = import \"/workerd/workerd.capnp\";\n\nconst config :Workerd.Config = (\n  services = [\n"

module _ (stringify : Text → Text) (show : ℕ → Text) where
  address_of : CapnpRoute → Text
  address_of r = r.address ++ codes ":" ++ show r.port

  origin_of : CapnpRoute → Text
  unfolding address_of
  origin_of r = codes "http://" ++ address_of r

  module_line : Text × Text → Text
  module_line m =
      codes "        (name = "
      ++ stringify m.0
      ++ codes ", esModule = embed \""
      ++ m.1
      ++ codes "\")"

  binding_line : Text → Text
  binding_line n =
      codes "        (name = "
      ++ stringify n
      ++ codes ", fromEnvironment = "
      ++ stringify n
      ++ codes ")"

  bindings_of : List Text → Text
  unfolding join binding_line
  bindings_of [] = []
  bindings_of (n ∷ ns) =
      codes ",\n      bindings = [\n"
      ++ join (codes ",\n") (map binding_line (n ∷ ns))
      ++ codes "\n      ]"

  service_block : Service → Text
  unfolding join module_line bindings_of
  service_block s =
      codes "  (\n    name = \""
      ++ s.name
      ++ codes "\",\n    worker = (\n      modules = [\n"
      ++ join (codes ",\n") (map module_line s.modules)
      ++ codes "\n      ],\n      compatibilityDate = "
      ++ stringify s.compatibility_date
      ++ codes ",\n      compatibilityFlags = ["
      ++ join (codes ", ") (map stringify s.flags)
      ++ codes "]"
      ++ bindings_of s.env_names
      ++ codes "\n    )\n  )"

  socket_block : CapnpRoute → Text
  unfolding address_of
  socket_block r =
      codes "  (\n    name = \""
      ++ r.service
      ++ codes "-sock\",\n    address = \""
      ++ address_of r
      ++ codes "\",\n    http = (),\n    service = \""
      ++ r.service
      ++ codes "\"\n  )"

  pub render : Bool → CapnpConfig → Text
  unfolding header join service_block socket_block
  render local cfg =
      header
      ++ join (codes ",\n") (outbound_block local ++ map service_block cfg.services)
      ++ codes "\n  ],\n  sockets = [\n"
      ++ join (codes ",\n") (map socket_block cfg.routes)
      ++ codes "\n  ]\n);\n"

  pub generate_capnp : CapnpOptions → List CapnpFunctionInput → Checked CapnpResult
  unfolding render origin_of
  generate_capnp opts inputs = and_then (check_config opts inputs) (λ cfg. checked (record {
    text = render opts.allow_local_outbound cfg;
    routes = map (λ r. (r, origin_of r)) cfg.routes;
  }))
