-- ===== src/Server/Tests.antt =====
-- A gateway with one protected function, `chat`, whose breaker trips at two errors out of four.
use tube.Common.{ℕ, ◌≡◌, refl, true, false, Option, none, some, List, [], ◌∷◌, arith, ◌==◌, text_eq}
use tube.Common.JsMap
use tube.Common.JsMap.{JsMap}
use tube.Common.Text.{Text, codes, starts_with, ends_with, to_lower}
use tube.Manifest.{FunctionManifest, default_manifest}
use tube.Registry.{FunctionRegistry, WorkerFunctionHandle, empty_registry, set_worker_handle}
use tube.Supervisor.{SupervisorState, FunctionSupervisor, record_outcome, record_state}
use tube.Gateway.Auth.{Payload, Crypto, missing}
use tube.Gateway.Auth.Spec.{IsSound}
use tube.Gateway.Auth.Probe.{probe_afresh}
use tube.Server.Reply.{Reply}
use tube.Server.Errors.{is_local_hostname}
use tube.FunctionHost.{ready, now_ready}
use tube.Server.Dispatch.{
  HostView, DispatchOptions, Ending, threw, reply_of, answered, auth_of, begin_dispatch,
  finish_dispatch,
}
use tube.Server.Pipeline.{HttpRequest, GatewayConfig, GatewayState, begin_request}
use tube.Server.Access.{Admitted, begin_request-Admitted}
use tube.Server.Outcomes.{trips, finish_dispatch-begin_dispatch}

abbrev strict : FunctionManifest
strict = record default_manifest {
  recycle = record {
    max_requests = 9;
    error_rate = record { num = 1; den = 1 };
    error_window = 4;
    cooldown_ms = 1500;
  };
}

abbrev nearly : SupervisorState
nearly = record {
  invocations = 3;
  errors = 1;
  window = 0 ∷ 1 ∷ 0 ∷ [];
  recycle_recommended = false;
  breaker_opened_at = 0;
}

abbrev supervisor : FunctionSupervisor
supervisor = record {
  states = (codes "chat", nearly) ∷ [];
  manifests = (codes "chat", strict) ∷ [];
}

abbrev options : DispatchOptions
options = record {
  default_timeout_ms = 60_000;
  hmr_fresh_wait_ms = 0;
  errors = record { override = none; is_dev = true; extra_hosts = [] };
}

abbrev chat : WorkerFunctionHandle
chat = record { handle = 1; manifest = strict; is_public = false; timeout_ms = none }

abbrev boom : Ending
boom = threw (codes "boom")

boom-trips : trips options (codes "api.example.com") (codes "chat") boom 9000 supervisor ≡ true
unfolding record_outcome record_state JsMap.get reply_of
boom-trips = refl

finish_dispatch-begin_dispatch_example :
    (r : Reply) × ((begin_dispatch options
        (codes "chat")
        (some chat)
        none
        missing
        10_000
        (finish_dispatch options
          (codes "api.example.com")
          (codes "chat")
          false
          boom
          9000
          supervisor).1).0
      ≡ answered r)
unfolding JsMap.get
finish_dispatch-begin_dispatch_example =
    finish_dispatch-begin_dispatch options (codes "api.example.com") (codes "chat") false boom 9000
      10_000 supervisor strict (some chat) none missing refl (omega arith) boom-trips refl

-- A host that has loaded the function.
abbrev at_rest : HostView
at_rest = record {
  state = some ready;
  boot_wait = now_ready;
  state_after = some ready;
  handle_after = some chat;
  fresh_wait = now_ready;
  handle_fresh = some chat;
}

-- A name that begins with `127.` counts as a loopback address.
name_as_loopback : is_local_hostname [] (codes "127.evil.com") ≡ true
unfolding is_local_hostname to_lower starts_with ends_with
name_as_loopback = refl

abbrev payload_of : List ℕ → Option Payload
payload_of [] = none
payload_of (e ∷ s) = some (record { sub = s; email = []; role = []; exp = some e })

abbrev toy : Crypto
toy = record {
  Key = Text;
  import_key = λ secret. secret;
  verify = λ key bytes signed. key == bytes;
  atob = λ s. some s;
  parse_payload = payload_of;
}

abbrev config : GatewayConfig
config = record {
  dispatch = options;
  limits = record {
    default_rpm = 120;
    overrides = [];
    max_buckets = 10;
    manifest_for = λ name. none;
    route_prefix = codes "/functions/v1";
    trusted_proxies = [];
  };
  disable_rate_limit = [];
  service_key = codes "service";
  jwt_secret = codes "abcd";
}

abbrev registry : FunctionRegistry
registry = set_worker_handle (codes "chat") chat empty_registry

abbrev gateway : GatewayState Text
gateway = record {
  auth = record {
    cached_key = none;
    cached_secret = none;
    verify_cache = [];
    verify_cache_max = 2;
    hits = 0;
    misses = 0;
  };
  buckets = [];
  supervisor = supervisor;
}

abbrev request : Text → HttpRequest
request header = record {
  method = codes "POST";
  path = codes "/functions/v1/chat";
  param = codes "chat";
  authorization = some header;
  body_too_large = false;
  socket = none;
  forwarded_for = none;
  real_ip = none;
}

gateway-IsSound : IsSound toy gateway.auth
gateway-IsSound = record { key = λ k e. absurd (ground arith); entries = JsMap.Every-empty _ }

begin_request-Admitted_example :
    Admitted
      (auth_of
        (probe_afresh toy (codes "service") (codes "abcd") 5 (some (codes "Bearer h.@@@@.abcd"))))
      (begin_request toy config registry none (request (codes "Bearer h.@@@@.abcd")) 5 gateway).0
begin_request-Admitted_example =
    begin_request-Admitted toy config registry none (request (codes "Bearer h.@@@@.abcd")) 5 gateway
      gateway-IsSound
