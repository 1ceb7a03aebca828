-- ===== src/Server/Workerd.antt =====
-- The dispatch to a function of the workerd backend, cut like that of Dispatch at the call.
use tube.Common.{
  ℕ, Bool, true, false, not, ◌&&◌, ◌||◌, Option, none, some, is_some, leb, if◌then◌else◌, get_or,
  text_eq,
}
use tube.Common.Text.{Text}
use tube.Manifest.{FunctionManifest}
use tube.Registry.{RegisteredFunction, WorkerFunctionHandle, FunctionRegistry, get, worker_handle}
use tube.Supervisor.{FunctionSupervisor, admit, record_outcome}
use tube.Gateway.Auth.{AuthContext, RequestAuthProbe, unavailable}
use tube.Server.Reply.{Reply, breaker_reply, auth_unavailable}
use tube.Server.Dispatch.{DispatchOptions, Ending, reply_of, auth_of}

pub data BegunProxy : Type 0 where
  answered_early : Reply → BegunProxy
  proxying : Option AuthContext → ℕ → BegunProxy

public_of : Option RegisteredFunction → Option WorkerFunctionHandle → Option Bool
public_of (some f) h = some f.is_public
public_of none (some h) = some h.is_public
public_of none none = none

-- `registry.get(name)?.isPublic ?? registry.workerHandle(name)?.isPublic`
pub known_public : Text → FunctionRegistry → Option Bool
unfolding public_of
known_public name r = public_of (get name r) (worker_handle name r)

abbrev is_unavailable : RequestAuthProbe → Bool
is_unavailable unavailable = true
is_unavailable _ = false

abbrev is_protected : Option Bool → Bool
is_protected (some false) = true
is_protected _ = false

abbrev manifest_timeout : Option FunctionManifest → Option ℕ
manifest_timeout none = none
manifest_timeout (some m) = m.timeout_ms

unfoldable pub begin_proxy :
    DispatchOptions
    → Text
    → Option FunctionManifest
    → Option Bool
    → RequestAuthProbe
    → ℕ
    → FunctionSupervisor
    → BegunProxy × FunctionSupervisor
begin_proxy opts name manifest public probe now s =
    let (decision, s') = admit name now s in
    if not decision.allowed
    then (answered_early (breaker_reply decision), s')
    else if is_protected public && (not (is_some (auth_of probe)) && is_unavailable probe)
    then (answered_early auth_unavailable, s')
    else (proxying (auth_of probe) (get_or (manifest_timeout manifest) opts.default_timeout_ms), s')

-- The outcome is recorded where the function has a manifest.
abbrev record_if :
    Option FunctionManifest → Text → Bool → ℕ → FunctionSupervisor → FunctionSupervisor
record_if none name error now s = s
record_if (some m) name error now s = (record_outcome name error now s).1

unfoldable pub finish_proxy :
    DispatchOptions
    → Text
    → Text
    → Option FunctionManifest
    → Ending
    → ℕ
    → FunctionSupervisor
    → Reply × FunctionSupervisor
unfolding reply_of
finish_proxy opts host_header name manifest ending now s =
    let (r, raised) = reply_of opts host_header ending in
    (r, record_if manifest name (raised || leb 500 r.status) now s)
