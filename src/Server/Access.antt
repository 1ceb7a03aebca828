-- ===== src/Server/Access.antt =====
-- Who reaches a function: the gate of the dispatch behind the probe of the token.
use tube.Common.{
  ℕ, ◌≡◌, ◌⊎◌, inl, inr, refl, Bool, true, false, not, ◌&&◌, Bool-cases, Option, is_some,
  if◌then◌else◌, ◌==◌, text_eq,
}
use tube.Common.Text.{Text, codes}
use tube.Registry.{WorkerFunctionHandle, FunctionRegistry}
use tube.Supervisor.{FunctionSupervisor, admit}
use tube.Gateway.RateLimit.{Verdict, pass, too_many}
use tube.Gateway.Auth.{Crypto, AuthContext, RequestAuthProbe}
use tube.Gateway.Auth.Spec.{IsSound}
use tube.Gateway.Auth.Probe.{probe_afresh, probe_request-probe_afresh}
use tube.Server.Reply.{Reply}
use tube.Server.Dispatch.{
  DispatchOptions, HostView, Begun, answered, calling, Found, found, refused, auth_of, authorize,
  begin_found, begin_dispatch, freshen,
}
use tube.Server.Pipeline.{
  HttpRequest, GatewayConfig, GatewayState, dispatch_name, after_limit, after_probe, begin_request,
  is_unknown, fast_fail_name,
}

-- What a call of a function shows about its caller: it is called with what the probe found, and a
-- function that is not public with an authenticated caller.
pub data Admitted (auth : Option AuthContext) : Begun → Type 0 where
  replied : {r : Reply} → Admitted auth (answered r)
  called :
      {h : WorkerFunctionHandle} {timeout : ℕ} {stale : Bool}
      → (h.is_public ≡ true) ⊎ (is_some auth ≡ true)
      → Admitted auth (calling h auth timeout stale)

gate-Admitted :
    (public known : Bool) (h : WorkerFunctionHandle) (auth : Option AuthContext) (r : Reply)
    (timeout : ℕ) (stale : Bool)
    → h.is_public ≡ public
    → is_some auth ≡ known
    → Admitted auth (if not public && not known then answered r else calling h auth timeout stale)
gate-Admitted true known h auth r timeout stale p k = called (inl p)
gate-Admitted false true h auth r timeout stale p k = called (inr k)
gate-Admitted false false h auth r timeout stale p k = replied

authorize-Admitted :
    (opts : DispatchOptions) (h : WorkerFunctionHandle) (stale : Bool) (probe : RequestAuthProbe)
    → Admitted (auth_of probe) (authorize opts h stale probe)
unfolding authorize
authorize-Admitted opts h stale probe =
    gate-Admitted h.is_public (is_some (auth_of probe)) h (auth_of probe) _ _ stale refl refl

begin_found-Admitted :
    (opts : DispatchOptions) (name : Text) (waited : Bool) (host : Option HostView)
    (probe : RequestAuthProbe) (now : ℕ) (f : Found) (s : FunctionSupervisor)
    → Admitted (auth_of probe) (begin_found opts name waited host probe now f s).0
unfolding begin_found
begin_found-Admitted opts name waited host probe now (refused r) s = replied
begin_found-Admitted opts name waited host probe now (found h) s =
    elim (Bool-cases (admit name now s).0.allowed) [
      | inl allowed ↦
          rw (allowed, begin_found)
            (authorize-Admitted opts (freshen opts waited h host).0 (freshen opts waited h host).1
              probe)
      | inr closed ↦ rw (closed, begin_found) replied
    ]

if-Admitted :
    {S : Type 0} {auth : Option AuthContext} (b : Bool) (x y : Begun × S)
    → Admitted auth x.0
    → Admitted auth y.0
    → Admitted auth (if b then x else y).0
if-Admitted true x y hx hy = hx
if-Admitted false x y hx hy = hy

module _ (crypto : Crypto) where
  open crypto use {Key}

  after_limit-Admitted :
      (cfg : GatewayConfig) (r : FunctionRegistry) (host : Option HostView) (req : HttpRequest)
      (now : ℕ) (probe : RequestAuthProbe) (v : Verdict) (st : GatewayState Key)
      → Admitted (auth_of probe) (after_limit crypto cfg r host req now probe v st).0
  unfolding after_limit begin_dispatch
  after_limit-Admitted cfg r host req now probe (too_many n) st = replied
  after_limit-Admitted cfg r host req now probe pass st =
      begin_found-Admitted cfg.dispatch (dispatch_name req) _ host probe now _ st.supervisor

  after_probe-Admitted :
      (cfg : GatewayConfig) (r : FunctionRegistry) (host : Option HostView) (req : HttpRequest)
      (now : ℕ) (probe : RequestAuthProbe) (st : GatewayState Key)
      → Admitted (auth_of probe) (after_probe crypto cfg r host req now probe st).0
  unfolding after_probe
  after_probe-Admitted cfg r host req now probe st =
      after_limit-Admitted cfg r host req now probe _ _

  -- On a sound cache, a request that reaches a function carries exactly the authentication that its
  -- header has afresh, without any cache, under the keys of the environment; and a function that is
  -- not public is called only for an authenticated caller.
  pub begin_request-Admitted :
      (cfg : GatewayConfig) (r : FunctionRegistry) (host : Option HostView) (req : HttpRequest)
      (now : ℕ) (st : GatewayState Key)
      → IsSound crypto st.auth
      → Admitted
          (auth_of (probe_afresh crypto cfg.service_key cfg.jwt_secret now req.authorization))
          (begin_request crypto cfg r host req now st).0
  unfolding begin_request
  begin_request-Admitted cfg r host req now st sound =
      if-Admitted (req.method == codes "OPTIONS") _ _ replied (
        if-Admitted (is_unknown (fast_fail_name cfg.limits.route_prefix req.path) r) _ _ replied (
          if-Admitted req.body_too_large _ _ replied (
            rw
              (← (probe_request-probe_afresh crypto cfg.service_key cfg.jwt_secret now
                req.authorization st.auth sound).1)
              (after_probe-Admitted cfg r host req now _ _))))
