-- ===== src/Server/Outcomes.antt =====
-- The end of a call and what it does to the calls after it.
use tube.Common.{
  ℕ, ◌+◌, ◌<◌, ◌≡◌, ◌≢◌, refl, ◌∙◌, Bool, true, false, ◌||◌, Bool-cases, inl, inr, Option, some,
  leb, text_eq,
}
use tube.Common.JsMap
use tube.Common.JsMap.{JsMap}
use tube.Common.Text.{Text}
use tube.Manifest.{FunctionManifest}
use tube.Registry.{WorkerFunctionHandle}
use tube.Supervisor.{FunctionSupervisor, admit, record_outcome}
use tube.Supervisor.Isolation.{Same, admit-Same}
use tube.Supervisor.Refusal.{record_outcome-admit, record_outcome-Same}
use tube.Gateway.Auth.{RequestAuthProbe}
use tube.Server.Reply.{Reply, breaker_reply}
use tube.Server.Dispatch.{
  DispatchOptions, HostView, Ending, answered, Found, found, refused, begin_found, begin_dispatch,
  reply_of, finish_dispatch, find_handle,
}

-- Whether the record of an ending trips the breaker.
abbrev pub trips : DispatchOptions → Text → Text → Ending → ℕ → FunctionSupervisor → Bool
trips opts host_header name ending now s =
    let (r, raised) = reply_of opts host_header ending in
    (record_outcome name (raised || leb 500 r.status) now s).0.breaker_just_tripped

begin_found-refused :
    (opts : DispatchOptions) (name : Text) (waited : Bool) (host : Option HostView)
    (probe : RequestAuthProbe) (now : ℕ) (f : Found) (s : FunctionSupervisor)
    → (admit name now s).0.allowed ≡ false
    → (r : Reply) × ((begin_found opts name waited host probe now f s).0 ≡ answered r)
unfolding begin_found
begin_found-refused opts name waited host probe now (refused r) s closed = (r, refl)
begin_found-refused opts name waited host probe now (found h) s closed =
    (breaker_reply (admit name now s).0, rw (closed, begin_found) refl)

finish_dispatch-record :
    (opts : DispatchOptions) (host_header name : Text) (stale : Bool) (ending : Ending) (now : ℕ)
    (s : FunctionSupervisor)
    → (finish_dispatch opts host_header name stale ending now s).1
      ≡ (record_outcome name
          ((reply_of opts host_header ending).1
            || leb 500 (reply_of opts host_header ending).0.status)
          now
          s).1
unfolding finish_dispatch
finish_dispatch-record opts host_header name stale ending now s = refl

-- When the record of an ending trips the breaker of a function that has a manifest, a dispatch to it
-- before the end of the cool-down, with the supervisor as the ending has left it, is answered by the
-- gateway: the function is not called, whatever the registry, the function host and the token say.
pub finish_dispatch-begin_dispatch :
    (opts : DispatchOptions) (host_header name : Text) (stale : Bool) (ending : Ending)
    (now later : ℕ) (s : FunctionSupervisor) (m : FunctionManifest)
    (handle : Option WorkerFunctionHandle) (host : Option HostView) (probe : RequestAuthProbe)
    → JsMap.get name s.manifests ≡ some m
    → 0 < now
    → trips opts host_header name ending now s ≡ true
    → leb (now + m.recycle.cooldown_ms) later ≡ false
    → (r : Reply) × ((begin_dispatch opts name handle host probe later
          (finish_dispatch opts host_header name stale ending now s).1).0
        ≡ answered r)
unfolding begin_dispatch
finish_dispatch-begin_dispatch opts host_header name stale ending now later s m handle host probe h
      pos trip early =
    begin_found-refused opts name _ host probe later (find_handle name handle host)
      (finish_dispatch opts host_header name stale ending now s).1
      (rw finish_dispatch-record (record_outcome-admit name _ now later s m h pos trip ∙ early))

begin_found-Same :
    (opts : DispatchOptions) (name j : Text) (waited : Bool) (host : Option HostView)
    (probe : RequestAuthProbe) (now : ℕ) (f : Found) (s : FunctionSupervisor)
    → name ≢ j
    → Same j (begin_found opts name waited host probe now f s).1 s
unfolding begin_found
begin_found-Same opts name j waited host probe now (refused r) s ne = (refl, refl)
begin_found-Same opts name j waited host probe now (found h) s ne =
    elim (Bool-cases (admit name now s).0.allowed) [
      | inl allowed ↦ rw (allowed, begin_found) (admit-Same name j now s ne)
      | inr closed ↦ rw (closed, begin_found) (admit-Same name j now s ne)
    ]

-- A dispatch to one function, from its start to its end, leaves what the supervisor holds of every
-- other function as it was.
pub dispatch-Same :
    (opts : DispatchOptions) (name j : Text) (handle : Option WorkerFunctionHandle)
    (host : Option HostView) (probe : RequestAuthProbe) (now : ℕ) (s : FunctionSupervisor)
    (host_header : Text) (stale : Bool) (ending : Ending) (later : ℕ)
    → name ≢ j
    → Same j (begin_dispatch opts name handle host probe now s).1 s
      × Same j (finish_dispatch opts host_header name stale ending later s).1 s
unfolding begin_dispatch
dispatch-Same opts name j handle host probe now s host_header stale ending later ne = (
  begin_found-Same opts name j _ host probe now (find_handle name handle host) s ne,
  rw finish_dispatch-record (record_outcome-Same name j _ later s ne),
)
