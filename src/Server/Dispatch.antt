-- ===== src/Server/Dispatch.antt =====
-- The dispatch to a function of the Bun backend, cut at the call of the function: `begin_dispatch`
-- and `finish_dispatch`, with whatever other requests do to the supervisor between them.
use tube.Common.{
  ℕ, Bool, true, false, not, ◌&&◌, ◌||◌, Option, none, some, is_some, [], leb, ltb, if◌then◌else◌,
  get_or, text_eq,
}
use tube.Common.Text.{Text, codes}
pub use tube.FunctionHost.{
  BootState, queued, loading, ready, failed, Readiness, now_ready, timed_out, load_failed,
  unknown_name, is_booting,
}
use tube.Registry.{WorkerFunctionHandle}
use tube.Supervisor.{FunctionSupervisor, admit, record_outcome}
use tube.Gateway.Auth.{AuthContext, RequestAuthProbe, ok, missing, invalid, unavailable}
use tube.Server.Reply.{
  Reply, reply, not_found, breaker_reply, auth_unavailable, warming, boot_failed, mark_stale,
}
use tube.Server.Errors.{ErrorPolicy, error_details}

-- What a dispatch sees of the function host: the boot state and, after each of its two waits, what
-- the wait reported, the boot state and the handle of the name.
pub record HostView : Type 0 where
  pub state : Option BootState
  pub boot_wait : Readiness
  pub state_after : Option BootState
  pub handle_after : Option WorkerFunctionHandle
  pub fresh_wait : Readiness
  pub handle_fresh : Option WorkerFunctionHandle

pub record DispatchOptions : Type 0 where
  pub default_timeout_ms : ℕ
  pub hmr_fresh_wait_ms : ℕ
  pub errors : ErrorPolicy

-- How the call of a function ends: with a response, or with an exception, which is an abort by the
-- timer, an abort by the body watchdog, or anything else.
pub data Ending : Type 0 where
  responded : Reply → Ending
  aborted_by_timeout aborted_by_stall : Ending
  threw : Text → Ending

-- A request that has been answered, or that waits for a function: with the authentication and the
-- timeout that the function is called with, and whether the handle is stale.
pub data Begun : Type 0 where
  answered : Reply → Begun
  calling : WorkerFunctionHandle → Option AuthContext → ℕ → Bool → Begun

abbrev is_failed : Option BootState → Bool
is_failed (some failed) = true
is_failed _ = false

-- A handle to call, or the reply that there is none.
pub data Found : Type 0 where
  found : WorkerFunctionHandle → Found
  refused : Reply → Found

abbrev pub found_or : Reply → Option WorkerFunctionHandle → Found
found_or r none = refused r
found_or r (some h) = found h

-- The checks after the first wait, on the boot state of then.
unbooted : Text → Option BootState → Found
unbooted name state = refused (if is_failed state then boot_failed name else not_found name)

unfoldable pub after_boot : Text → HostView → Readiness → Found
unfolding unbooted
after_boot name host now_ready = elim host.handle_after [
  | none ↦ unbooted name host.state_after
  | some h ↦ found h
]
after_boot name host timed_out = refused warming
after_boot name host load_failed = unbooted name host.state_after
after_boot name host unknown_name = unbooted name host.state_after

unfoldable pub find_handle : Text → Option WorkerFunctionHandle → Option HostView → Found
unfolding after_boot unbooted
find_handle name (some h) host = found h
find_handle name none none = refused (not_found name)
find_handle name none (some host) =
    if is_booting host.state then after_boot name host host.boot_wait else unbooted name host.state

abbrev or_handle : WorkerFunctionHandle → Option WorkerFunctionHandle → WorkerFunctionHandle
or_handle h none = h
or_handle h (some h') = h'

abbrev state_now : Bool → HostView → Option BootState
state_now waited host = if waited then host.state_after else host.state

abbrev is_now_ready : Readiness → Bool
is_now_ready now_ready = true
is_now_ready _ = false

-- While a reload of the function is pending: the handle after the wait, and whether it is stale.
unfoldable pub freshen :
    DispatchOptions → Bool → WorkerFunctionHandle → Option HostView → WorkerFunctionHandle × Bool
freshen opts waited h none = (h, false)
freshen opts waited h (some host) =
    if is_booting (state_now waited host)
    then (if ltb 0 opts.hmr_fresh_wait_ms && is_now_ready host.fresh_wait
        then (or_handle h host.handle_fresh, false)
        else (h, true))
    else (h, false)

abbrev pub auth_of : RequestAuthProbe → Option AuthContext
auth_of (ok auth) = some auth
auth_of missing = none
auth_of invalid = none
auth_of unavailable = none

abbrev unauthorized : RequestAuthProbe → Reply
unauthorized unavailable = auth_unavailable
unauthorized _ = reply 401 (codes "Unauthorized") []

timeout_of : DispatchOptions → WorkerFunctionHandle → ℕ
timeout_of opts h = get_or h.timeout_ms (get_or h.manifest.timeout_ms opts.default_timeout_ms)

-- The gate of a function that is not public.
unfoldable pub authorize : DispatchOptions → WorkerFunctionHandle → Bool → RequestAuthProbe → Begun
unfolding timeout_of
authorize opts h stale probe =
    if not h.is_public && not (is_some (auth_of probe))
    then answered (unauthorized probe)
    else calling h (auth_of probe) (timeout_of opts h) stale

-- From the handle on: the freshness, the breaker and the gate.
unfoldable pub begin_found :
    DispatchOptions
    → Text
    → Bool
    → Option HostView
    → RequestAuthProbe
    → ℕ
    → Found
    → FunctionSupervisor
    → Begun × FunctionSupervisor
unfolding freshen authorize breaker_reply
begin_found opts name waited host probe now (refused r) s = (answered r, s)
begin_found opts name waited host probe now (found h) s =
    let (fresh, stale) = freshen opts waited h host in
    let (decision, s') = admit name now s in
    if decision.allowed
    then (authorize opts fresh stale probe, s')
    else (answered (breaker_reply decision), s')

unfoldable pub begin_dispatch :
    DispatchOptions
    → Text
    → Option WorkerFunctionHandle
    → Option HostView
    → RequestAuthProbe
    → ℕ
    → FunctionSupervisor
    → Begun × FunctionSupervisor
unfolding begin_found find_handle
begin_dispatch opts name handle host probe now s =
    begin_found opts name (not (is_some handle)) host probe now (find_handle name handle host) s

-- The reply to an ending, and whether it was an exception.
unfoldable pub reply_of : DispatchOptions → Text → Ending → Reply × Bool
unfolding error_details
reply_of opts host_header (responded r) = (r, false)
reply_of opts host_header aborted_by_timeout =
    (reply 504 (codes "Function execution timed out") [], true)
reply_of opts host_header aborted_by_stall =
    (reply 408 (codes "Request body read timed out") [], true)
reply_of opts host_header (threw message) = (error_details opts.errors host_header message, true)

-- The call has ended: the supervisor records it, and a stale reply is marked.
unfoldable pub finish_dispatch :
    DispatchOptions
    → Text
    → Text
    → Bool
    → Ending
    → ℕ
    → FunctionSupervisor
    → Reply × FunctionSupervisor
unfolding reply_of
finish_dispatch opts host_header name stale ending now s =
    let (r, raised) = reply_of opts host_header ending in
    let (outcome, s') = record_outcome name (raised || leb 500 r.status) now s in
    (if stale then mark_stale r else r, s')
