-- ===== src/FunctionHost/Handles.antt =====
-- The instance that requests find after the spawn of their function.
use tube.Common.{
  ◌≡◌, refl, sym, ap, ◌∙◌, Bool, true, Option, none, some, List, text_eq, nat_eq, arith,
  text_beq_iff,
}
use tube.Common.JsMap
use tube.Common.JsMap.{JsMap}
use tube.Common.Text.{Text}
use tube.Registry.{WorkerFunctionHandle, worker_handle}
use tube.FunctionHost.Spawns.{reset_unless-registry, worker_handle-register_instance}
use tube.FunctionHost.{
  is_booting, when_ready, when_state, add_waiter, Claim, FunctionHost, resolve_waiters,
  set_boot_state, settle_boot_state, register_instance, imported, reset_unless, end_of, end_taken,
  spawn_ends, prioritize,
}
use tube.FunctionHost.Backed.{runs, is_backed, IsBacked}
use tube.FunctionHost.Waiting.{taken_is, spawn_of, take_running-spawn_of, start_claim-runs}

settle-registry :
    (name : Text) (s : FunctionHost) → (settle_boot_state name none s).registry ≡ s.registry
unfolding settle_boot_state resolve_waiters set_boot_state
settle-registry name s = refl

worker_handle-end_of :
    (drains : Bool) (c : Claim) (h : WorkerFunctionHandle) (s : FunctionHost)
    → worker_handle c.candidate.name (end_of drains c (imported h) s).registry ≡ some h
unfolding end_of
worker_handle-end_of drains c h s =
    ap (worker_handle c.candidate.name) (
      settle-registry c.candidate.name
        (reset_unless c.deferred c.candidate.name (register_instance drains c.candidate h s))
      ∙ reset_unless-registry c.deferred c.candidate.name
          (register_instance drains c.candidate h s))
    ∙ worker_handle-register_instance drains c.candidate h s c.candidate.name
    ∙ ground (arith, text_beq_iff c.candidate.name c.candidate.name)

pub worker_handle-end_taken :
    (drains : Bool) (h : WorkerFunctionHandle) (name : Text) (t : Option (Claim × List Claim))
    (s : FunctionHost)
    → taken_is name t ≡ true
    → worker_handle name (end_taken drains (imported h) t s).registry ≡ some h
unfolding end_taken
worker_handle-end_taken drains h name none s is = ground (arith, is)
worker_handle-end_taken drains h name (some (c, others)) s is =
    ap
      (λ n. worker_handle n (end_of drains c (imported h) (record s { running = others })).registry)
      (sym ((text_beq_iff c.candidate.name name).0 is))
    ∙ worker_handle-end_of drains c h (record s { running = others })

pub booting-runs :
    (name : Text) (s : FunctionHost)
    → is_booting (JsMap.get name s.boot_states) ≡ true
    → is_backed name s ≡ true
    → runs name (prioritize name s).running ≡ true
unfolding prioritize
booting-runs name s e h =
    ground (arith, start_claim-runs name (JsMap.get name s.pending_claims) s, e, h)

pub when_ready-running :
    (name : Text) (s : FunctionHost) → (when_ready name s).1.running ≡ s.running
unfolding when_ready when_state add_waiter
when_ready-running name s = ground arith

-- The host while a request waits for a function that is queued or loading.
unfoldable pub waited : Text → FunctionHost → FunctionHost
waited name s = (when_ready name (prioritize name s)).1

-- The instance that the spawn has loaded is what requests find.
pub worker_handle-spawn_ends :
    (drains : Bool) (h : WorkerFunctionHandle) (name : Text) (s : FunctionHost)
    → IsBacked s
    → is_booting (JsMap.get name s.boot_states) ≡ true
    → worker_handle name
        (spawn_ends drains
          (spawn_of name (waited name s).running)
          (imported h)
          (waited name s)).registry
      ≡ some h
unfolding spawn_ends waited
worker_handle-spawn_ends drains h name s b e =
    worker_handle-end_taken drains h name _ (waited name s) (
      take_running-spawn_of name (waited name s).running (
        ap (runs name) (when_ready-running name (prioritize name s))
        ∙ booting-runs name s e (b name)))
