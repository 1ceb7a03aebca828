-- ===== src/Server/Pipeline.antt =====
-- The middleware in its order, and the dispatch at its end: the preflight, the check of the name, the
-- body limit, the probe of the token, the rate limiter and the Bun dispatch, run without another
-- request between. Hono's `bodyLimit` is an input of the request.
use tube.Common.{
  ℕ, ◌+◌, Bool, false, not, Option, [], ◌∷◌, ltb, if◌then◌else◌, length, drop, ◌==◌, text_eq,
}
use tube.Common.Text.{Text, codes, split}
use tube.Registry.{FunctionRegistry, has, manifest_for, worker_handle}
use tube.Supervisor.{FunctionSupervisor}
use tube.Gateway.RoutePrefix.{slash}
use tube.Gateway.RateLimit.{
  Buckets, RateLimitConfig, Request, Verdict, pass, too_many, first_piece, create_rate_limiter,
}
use tube.Gateway.Auth.{
  Crypto, AuthState, RequestAuthProbe, ok, missing, invalid, unavailable, probe_request,
}
use tube.Server.Reply.{reply, not_found}
use tube.Server.Dispatch.{DispatchOptions, HostView, Begun, answered, begin_dispatch}

-- What the gateway reads of a request. `param` is the `:name` that the router captures.
pub record HttpRequest : Type 0 where
  pub method : Text
  pub path : Text
  pub param : Text
  pub authorization : Option Text
  pub body_too_large : Bool
  pub socket : Option Text
  pub forwarded_for : Option Text
  pub real_ip : Option Text

pub record GatewayConfig : Type 0 where
  pub dispatch : DispatchOptions
  pub limits : RateLimitConfig
  pub disable_rate_limit : Text
  pub service_key : Text
  pub jwt_secret : Text

pub record GatewayState (Key : Type 0) : Type 0 where
  pub auth : AuthState Key
  pub buckets : Buckets
  pub supervisor : FunctionSupervisor

-- The name that the check before all else reads off the path, empty where there is none.
unfoldable pub fast_fail_name : Text → Text → Text
unfolding split
fast_fail_name prefix path =
    if ltb (length prefix + 1) (length path)
    then first_piece (split slash (drop (length prefix + 1) path))
    else []

abbrev pub is_unknown : Text → FunctionRegistry → Bool
is_unknown [] r = false
is_unknown (c ∷ name) r = not (has (c ∷ name) r)

unfoldable pub dispatch_name : HttpRequest → Text
unfolding split
dispatch_name req = first_piece (split slash req.param)

abbrev user_of : RequestAuthProbe → Text
user_of (ok auth) = auth.user_id
user_of missing = []
user_of invalid = []
user_of unavailable = []

abbrev pub limited_request : HttpRequest → RequestAuthProbe → Request
limited_request req probe = record {
  path = req.path;
  user_id = user_of probe;
  socket = req.socket;
  forwarded_for = req.forwarded_for;
  real_ip = req.real_ip;
}

abbrev pub limits_of : GatewayConfig → FunctionRegistry → RateLimitConfig
limits_of cfg r = record cfg.limits { manifest_for = λ name. manifest_for name r }

module _ (crypto : Crypto) where
  open crypto use {Key}

  -- From the rate limiter's verdict on.
  unfoldable pub after_limit :
      GatewayConfig
      → FunctionRegistry
      → Option HostView
      → HttpRequest
      → ℕ
      → RequestAuthProbe
      → Verdict
      → GatewayState Key
      → Begun × GatewayState Key
  unfolding begin_dispatch
  after_limit cfg r host req now probe (too_many seconds) st =
      (answered (reply 429 (codes "Rate limit exceeded") []), st)
  after_limit cfg r host req now probe pass st =
      let (begun, supervisor) =
        begin_dispatch cfg.dispatch (dispatch_name req) (worker_handle (dispatch_name req) r) host
          probe now st.supervisor in
      (begun, record st { supervisor = supervisor })

  unfoldable pub after_probe :
      GatewayConfig
      → FunctionRegistry
      → Option HostView
      → HttpRequest
      → ℕ
      → RequestAuthProbe
      → GatewayState Key
      → Begun × GatewayState Key
  unfolding after_limit
  after_probe cfg r host req now probe st =
      let (verdict, buckets) =
        create_rate_limiter cfg.disable_rate_limit (limits_of cfg r) (limited_request req probe) now
          st.buckets in
      after_limit cfg r host req now probe verdict (record st { buckets = buckets })

  -- A request until it is answered or a function is called.
  unfoldable pub begin_request :
      GatewayConfig
      → FunctionRegistry
      → Option HostView
      → HttpRequest
      → ℕ
      → GatewayState Key
      → Begun × GatewayState Key
  unfolding after_probe fast_fail_name
  begin_request cfg r host req now st =
      let name = fast_fail_name cfg.limits.route_prefix req.path in
      if req.method == codes "OPTIONS"
      then (answered (reply 204 [] []), st)
      else if is_unknown name r
      then (answered (not_found name), st)
      else if req.body_too_large
      then (answered (reply 413 (codes "Request body too large") []), st)
      else let (probe, auth) =
          probe_request crypto cfg.service_key cfg.jwt_secret now req.authorization st.auth in
        after_probe cfg r host req now probe (record st { auth = auth })
