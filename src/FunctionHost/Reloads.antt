-- ===== src/FunctionHost/Reloads.antt =====
-- The removal of functions and the reload, and what stands behind the boot states after them.
use tube.Common.{
  ◌∙◌, Bool, true, false, Option, none, some, List, [], ◌∷◌, text_eq, nat_eq, text_beq_iff, arith,
}
use tube.Common.JsMap
use tube.Common.JsMap.{JsMap}
use tube.Common.Text.{Text}
use tube.Registry.{
  WorkerFunctionHandle, FunctionRegistry, worker_handle, set_worker_handle, register_candidate,
  clear_worker_handle, candidate,
}
use tube.Registry
use tube.FunctionHost.{
  Candidate, FunctionHost, enqueue_deferred, start_deferred, retire, unregister, remove_function,
}
use tube.FunctionHost.Reload.{
  Names, find_candidate, removed_names, remove_all, enqueue_found, enqueue_targets, reload, targets,
}
use tube.FunctionHost.Backed.{IsBacked, BackedBeside, forget-IsBacked, enqueue_claim-IsBacked}
use tube.FunctionHost.Spawns.{retire-backed}

unregister-BackedBeside :
    (name : Text) (s : FunctionHost) → IsBacked s → BackedBeside name (unregister name s)
unfolding unregister clear_worker_handle Registry.delete worker_handle
unregister-BackedBeside name s h j ne = ground (
  arith,
  h j,
  JsMap.get-delete name j s.registry.worker_handles,
  JsMap.get-delete name j (JsMap.delete name s.registry.worker_handles),
  ne,
  text_beq_iff name j,
)

remove_function-IsBacked :
    (drains : Bool) (name : Text) (s : FunctionHost)
    → IsBacked s
    → IsBacked (remove_function drains name s)
unfolding remove_function
remove_function-IsBacked drains name s h =
    let kept = retire drains (JsMap.get name s.handles) s in
    forget-IsBacked name (unregister name kept) (
      unregister-BackedBeside name kept
        (λ j. retire-backed drains (JsMap.get name s.handles) s j ∙ h j))

remove_all-IsBacked :
    (drains : Bool) (names : List Text) (s : FunctionHost)
    → IsBacked s
    → IsBacked (remove_all drains names s)
unfolding remove_all
remove_all-IsBacked drains [] s h = h
remove_all-IsBacked drains (n ∷ ns) s h =
    remove_all-IsBacked drains ns (remove_function drains n s)
      (remove_function-IsBacked drains n s h)

enqueue_found-IsBacked :
    (o : Option Candidate) (s : FunctionHost) → IsBacked s → IsBacked (enqueue_found o s)
unfolding enqueue_found
enqueue_found-IsBacked none s h = h
enqueue_found-IsBacked (some c) s h = enqueue_claim-IsBacked false c s h

enqueue_targets-IsBacked :
    (names : List Text) (candidates : List Candidate) (s : FunctionHost)
    → IsBacked s
    → IsBacked (enqueue_targets names candidates s)
unfolding enqueue_targets
enqueue_targets-IsBacked [] candidates s h = h
enqueue_targets-IsBacked (n ∷ ns) candidates s h =
    enqueue_targets-IsBacked ns candidates _
      (enqueue_found-IsBacked (find_candidate n candidates) s h)

pub reload-IsBacked :
    (drains : Bool) (names : Names) (candidates : List Candidate) (s : FunctionHost)
    → IsBacked s
    → IsBacked (reload drains names candidates s)
unfolding reload
reload-IsBacked drains names candidates s h =
    enqueue_targets-IsBacked (targets names candidates) candidates _
      (remove_all-IsBacked drains (removed_names names candidates s) s h)

pub start_deferred-IsBacked :
    (cs : List Candidate) (s : FunctionHost) → IsBacked s → IsBacked (start_deferred cs s)
unfolding start_deferred enqueue_deferred register_candidate worker_handle
start_deferred-IsBacked [] s h = h
start_deferred-IsBacked (c ∷ cs) s h =
    start_deferred-IsBacked cs (enqueue_deferred c s) (enqueue_claim-IsBacked true c s h)
