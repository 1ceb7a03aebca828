-- ===== src/FunctionHost/Runs.antt =====
-- Runs of a host that boots by `startDeferred`: the calls that the server, the timers and the spawns
-- make on it, in any order. The eager `start`, which queues functions without a claim, is no call.
use tube.Common.{ℕ, refl, Bool, List, [], ◌∷◌, text_eq}
use tube.Common.JsMap
use tube.Common.Text.{Text}
use tube.DepGraph.{DepGraph}
use tube.Registry.{FunctionRegistry}
use tube.Supervisor.{FunctionSupervisor}
use tube.FunctionHost.{
  Candidate, FunctionHost, start_deferred, when_ready, waiter_times_out, prioritize, lane_takes,
  Spawned, spawn_ends,
}
use tube.FunctionHost.Reload.{Names, reload, drained, dispatched, stop}
use tube.FunctionHost.Backed.{
  IsBacked, when_ready-IsBacked, waiter_times_out-IsBacked, prioritize-IsBacked,
  lane_takes-IsBacked,
}
use tube.FunctionHost.Spawns.{spawn_ends-IsBacked}
use tube.FunctionHost.Reloads.{start_deferred-IsBacked, reload-IsBacked}

-- A host before its start.
abbrev pub new_host : FunctionRegistry → FunctionSupervisor → DepGraph → FunctionHost
new_host registry supervisor dep_graph = record {
  handles = [];
  draining = [];
  boot_states = [];
  boot_errors = [];
  boot_waiters = [];
  pending_claims = [];
  running = [];
  last_dispatch = [];
  next_id = 0;
  resolved = [];
  registry = registry;
  supervisor = supervisor;
  dep_graph = dep_graph;
}

pub data Call : Type 0 where
  deferred_starts : List Candidate → Call
  waits prioritizes : Text → Call
  times_out lane_turns dispatches : Text → ℕ → Call
  spawn_ended : ℕ → Spawned → Call
  reloads : Names → List Candidate → Call
  drain_ends : ℕ → Call
  stops : Call

unfoldable pub perform : Bool → Call → FunctionHost → FunctionHost
perform drains (deferred_starts cs) s = start_deferred cs s
perform drains (waits name) s = (when_ready name s).1
perform drains (prioritizes name) s = prioritize name s
perform drains (times_out name w) s = waiter_times_out name w s
perform drains (lane_turns name id) s = lane_takes name id s
perform drains (dispatches name now) s = dispatched name now s
perform drains (spawn_ended i r) s = spawn_ends drains i r s
perform drains (reloads names candidates) s = reload drains names candidates s
perform drains (drain_ends id) s = drained id s
perform drains stops s = stop s

unfoldable pub perform_all : Bool → List Call → FunctionHost → FunctionHost
unfolding perform
perform_all drains [] s = s
perform_all drains (c ∷ cs) s = perform_all drains cs (perform drains c s)

perform-IsBacked :
    (drains : Bool) (c : Call) (s : FunctionHost) → IsBacked s → IsBacked (perform drains c s)
unfolding perform dispatched drained stop
perform-IsBacked drains (deferred_starts cs) s h = start_deferred-IsBacked cs s h
perform-IsBacked drains (waits name) s h = when_ready-IsBacked name s h
perform-IsBacked drains (prioritizes name) s h = prioritize-IsBacked name s h
perform-IsBacked drains (times_out name w) s h = waiter_times_out-IsBacked name w s h
perform-IsBacked drains (lane_turns name id) s h = lane_takes-IsBacked name id s h
perform-IsBacked drains (dispatches name now) s h = h
perform-IsBacked drains (spawn_ended i r) s h = spawn_ends-IsBacked drains i r s h
perform-IsBacked drains (reloads names candidates) s h = reload-IsBacked drains names candidates s h
perform-IsBacked drains (drain_ends id) s h = h
perform-IsBacked drains stops s h = h

perform_all-Backed :
    (drains : Bool) (calls : List Call) (s : FunctionHost)
    → IsBacked s
    → IsBacked (perform_all drains calls s)
unfolding perform_all
perform_all-Backed drains [] s h = h
perform_all-Backed drains (c ∷ cs) s h =
    perform_all-Backed drains cs (perform drains c s) (perform-IsBacked drains c s h)

-- After any calls on a host that has just been made, other than the eager `start`, in any order and
-- however the spawns end, every name is backed: a queued one has a claim of its own, a loading one a spawn that runs, a ready one a
-- handle to serve its requests, and only a queued or a loading one has waiters.
pub perform_all-IsBacked :
    (drains : Bool) (calls : List Call) (registry : FunctionRegistry)
    (supervisor : FunctionSupervisor) (dep_graph : DepGraph)
    → IsBacked (perform_all drains calls (new_host registry supervisor dep_graph))
unfolding JsMap.get
perform_all-IsBacked drains calls registry supervisor dep_graph =
    perform_all-Backed drains calls (new_host registry supervisor dep_graph) (λ name. refl)
