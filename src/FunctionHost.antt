-- ===== src/FunctionHost.antt =====
-- backends/bun/function-host.ts: the boot of the functions, their reload, and who waits for them.
-- What the discovery finds and how an import ends are inputs. The end of a spawn and its settling,
-- which are a few microtasks apart, are one step; spawns of one name may end here in any order, where
-- the code's chain lets them end in that of their start. Lanes take claims in any order too, so that
-- the sorts by recency and the bound on the lanes are left out.
pub mod Reload
pub mod Backed
pub mod Spawns
pub mod Taken
pub mod Reloads
pub mod Runs
pub mod Waiting
pub mod Answered
pub mod Handles
pub mod Overtaken
mod Tests
use tube.Common.{
  ℕ, zero, suc, ◌+◌, Bool, true, false, not, ◌&&◌, Option, none, some, is_some, List, [], ◌∷◌, ◌++◌,
  map, eqb, if◌then◌else◌, any, filter, ◌==◌, text_eq, nat_eq, leb,
}
use tube.Common.JsMap
use tube.Common.JsMap.{JsMap}
use tube.Common.Text.{Text, codes}
use tube.DepGraph.{DepGraph}
use tube.DepGraph
use tube.Manifest.{FunctionManifest}
use tube.Registry.{
  WorkerFunctionHandle, FunctionRegistry, candidate, register_candidate, set_worker_handle,
  clear_worker_handle,
}
use tube.Registry
use tube.Supervisor.{FunctionSupervisor}
use tube.Supervisor

pub data BootState : Type 0 where
  queued loading ready failed : BootState

-- What `whenReady` reports.
pub data Readiness : Type 0 where
  now_ready timed_out load_failed unknown_name : Readiness

abbrev pub is_booting : Option BootState → Bool
is_booting (some queued) = true
is_booting (some loading) = true
is_booting _ = false

pub record Candidate : Type 0 where
  pub name : Text
  pub entry_path : Text
  pub manifest : FunctionManifest

-- A spawn that waits to be claimed, or runs. `deferred` tells those of the boot from reloads.
pub record Claim : Type 0 where
  pub id : ℕ
  pub candidate : Candidate
  pub deferred : Bool

-- `waiters` are numbered, and `resolved` holds the promises of `whenReady` that have been resolved.
pub record FunctionHost : Type 0 where
  pub handles : JsMap Text WorkerFunctionHandle
  pub draining : List ℕ
  pub boot_states : JsMap Text BootState
  pub boot_errors : JsMap Text Text
  pub boot_waiters : JsMap Text (List ℕ)
  pub pending_claims : JsMap Text Claim
  pub running : List Claim
  pub last_dispatch : JsMap Text ℕ
  pub next_id : ℕ
  pub resolved : List (ℕ × Readiness)
  pub registry : FunctionRegistry
  pub supervisor : FunctionSupervisor
  pub dep_graph : DepGraph

abbrev pub waiters_or_none : Option (List ℕ) → List ℕ
waiters_or_none none = []
waiters_or_none (some ws) = ws

abbrev pub waiters_of : Text → FunctionHost → List ℕ
waiters_of name s = waiters_or_none (JsMap.get name s.boot_waiters)

abbrev pub answers : Readiness → List ℕ → List (ℕ × Readiness)
answers r ws = map (λ w. (w, r)) ws

-- The waiters of a name get an answer.
resolve_waiters : Text → Readiness → FunctionHost → FunctionHost
resolve_waiters name r s = record s {
  boot_waiters = JsMap.delete name s.boot_waiters;
  resolved = s.resolved ++ answers r (waiters_of name s);
}

set_boot_state : Text → BootState → FunctionHost → FunctionHost
set_boot_state name b s = record s { boot_states = JsMap.set name b s.boot_states }

-- `settleBootState`, with the error of a failure.
pub settle_boot_state : Text → Option Text → FunctionHost → FunctionHost
unfolding resolve_waiters set_boot_state
settle_boot_state name none s =
    resolve_waiters name now_ready
      (set_boot_state name ready (record s { boot_errors = JsMap.delete name s.boot_errors }))
settle_boot_state name (some error) s =
    resolve_waiters name load_failed
      (set_boot_state name failed (record s { boot_errors = JsMap.set name error s.boot_errors }))

pub forget_boot_state : Text → FunctionHost → FunctionHost
unfolding resolve_waiters
forget_boot_state name s = resolve_waiters name load_failed (record s {
  boot_states = JsMap.delete name s.boot_states;
  boot_errors = JsMap.delete name s.boot_errors;
  pending_claims = JsMap.delete name s.pending_claims;
  last_dispatch = JsMap.delete name s.last_dispatch;
})

-- An answer at once, or the number of the waiter.
pub data Wait : Type 0 where
  at_once : Readiness → Wait
  waiting : ℕ → Wait

add_waiter : Text → FunctionHost → Wait × FunctionHost
add_waiter name s = (
  waiting s.next_id,
  record s {
    boot_waiters = JsMap.set name (waiters_of name s ++ s.next_id ∷ []) s.boot_waiters;
    next_id = suc s.next_id;
  },
)

when_state : Text → Option BootState → FunctionHost → Wait × FunctionHost
unfolding add_waiter
when_state name none s = (at_once unknown_name, s)
when_state name (some ready) s = (at_once now_ready, s)
when_state name (some failed) s = (at_once load_failed, s)
when_state name (some queued) s = add_waiter name s
when_state name (some loading) s = add_waiter name s

pub when_ready : Text → FunctionHost → Wait × FunctionHost
unfolding when_state
when_ready name s = when_state name (JsMap.get name s.boot_states) s

unfoldable pub is_in : ℕ → List ℕ → Bool
is_in w ws = any (λ v. v == w) ws

-- The timer of a waiter; an answer has cleared it.
pub waiter_times_out : Text → ℕ → FunctionHost → FunctionHost
unfolding is_in
waiter_times_out name w s =
    if is_in w (waiters_of name s)
    then record s {
      boot_waiters = JsMap.set name (filter (λ v. not (v == w)) (waiters_of name s)) s.boot_waiters;
      resolved = s.resolved ++ (w, timed_out) ∷ [];
    }
    else s

-- `bootStates.set(name, "queued")` and `enqueueClaim`, which supersedes a claim of the name that
-- has not started.
unfoldable pub enqueue_claim : Bool → Candidate → FunctionHost → FunctionHost
enqueue_claim deferred c s = record s {
  boot_states = JsMap.set c.name queued s.boot_states;
  pending_claims =
      JsMap.set c.name (record { id = s.next_id; candidate = c; deferred = deferred })
        s.pending_claims;
  next_id = suc s.next_id;
}

-- A candidate of `startDeferred`.
unfoldable pub enqueue_deferred : Candidate → FunctionHost → FunctionHost
unfolding enqueue_claim
enqueue_deferred c s =
    let s' = enqueue_claim true c s in
    record s' {
      registry =
          register_candidate
            (record { name = c.name; module_url = c.entry_path; manifest = c.manifest })
            s'.registry;
    }

unfoldable pub start_deferred : List Candidate → FunctionHost → FunctionHost
unfolding enqueue_deferred
start_deferred [] s = s
start_deferred (c ∷ cs) s = start_deferred cs (enqueue_deferred c s)

pub start_claim : Text → Option Claim → FunctionHost → FunctionHost
start_claim name none s = s
start_claim name (some c) s = record s {
  pending_claims = JsMap.delete name s.pending_claims;
  boot_states = JsMap.set name loading s.boot_states;
  running = s.running ++ c ∷ [];
}

abbrev is_queued : Option BootState → Bool
is_queued (some queued) = true
is_queued _ = false

-- A request waits for the name: its claim starts now.
pub prioritize : Text → FunctionHost → FunctionHost
unfolding start_claim
prioritize name s =
    if is_queued (JsMap.get name s.boot_states)
    then start_claim name (JsMap.get name s.pending_claims) s
    else s

abbrev has_id : ℕ → Option Claim → Bool
has_id id none = false
has_id id (some c) = c.id == id

-- A lane comes to a claim: it starts it unless it has started or a newer one has superseded it.
pub lane_takes : Text → ℕ → FunctionHost → FunctionHost
unfolding start_claim
lane_takes name id s =
    if has_id id (JsMap.get name s.pending_claims)
    then start_claim name (JsMap.get name s.pending_claims) s
    else s

abbrev pub put_back : Claim → Option (Claim × List Claim) → Option (Claim × List Claim)
put_back c none = none
put_back c (some (d, ds)) = some (d, c ∷ ds)

-- The spawn of an index, and those beside it.
unfoldable pub take_running : ℕ → List Claim → Option (Claim × List Claim)
take_running i [] = none
take_running zero (c ∷ cs) = some (c, cs)
take_running (suc i) (c ∷ cs) = put_back c (take_running i cs)

-- The old instance serves what it has in flight for the grace window, and is then disposed.
pub retire : Bool → Option WorkerFunctionHandle → FunctionHost → FunctionHost
retire drains none s = s
retire drains (some old) s =
    if drains then record s { draining = s.draining ++ old.handle ∷ [] } else s

abbrev refreshed : Candidate → WorkerFunctionHandle → Bool → FunctionRegistry → FunctionRegistry
refreshed c h false r = r
refreshed c h true r =
    register_candidate (record { name = c.name; module_url = c.entry_path; manifest = h.manifest })
      r

-- `spawnAndRegister` from the end of a successful import on.
pub register_instance : Bool → Candidate → WorkerFunctionHandle → FunctionHost → FunctionHost
unfolding retire
register_instance drains c h s =
    let r = set_worker_handle c.name h s.registry in
    retire drains (JsMap.get c.name s.handles) (record s {
      handles = JsMap.set c.name h s.handles;
      registry = refreshed c h (is_some (candidate c.name r)) r;
      supervisor = Supervisor.set_manifest c.name h.manifest s.supervisor;
    })

-- How a spawn ends.
pub data Spawned : Type 0 where
  imported : WorkerFunctionHandle → Spawned
  import_failed : Text → Spawned

-- Only a reload resets the breaker.
pub reset_unless : Bool → Text → FunctionHost → FunctionHost
reset_unless true name s = s
reset_unless false name s = record s { supervisor = Supervisor.reset name s.supervisor }

end_of : Bool → Claim → Spawned → FunctionHost → FunctionHost
unfolding register_instance reset_unless settle_boot_state
end_of drains c (imported h) s =
    settle_boot_state c.candidate.name none
      (reset_unless c.deferred c.candidate.name (register_instance drains c.candidate h s))
end_of drains c (import_failed error) s =
    settle_boot_state c.candidate.name (some error) (reset_unless c.deferred c.candidate.name s)

pub end_taken : Bool → Spawned → Option (Claim × List Claim) → FunctionHost → FunctionHost
unfolding end_of
end_taken drains r none s = s
end_taken drains r (some (c, others)) s = end_of drains c r (record s { running = others })

pub spawn_ends : Bool → ℕ → Spawned → FunctionHost → FunctionHost
unfolding take_running end_taken
spawn_ends drains i r s = end_taken drains r (take_running i s.running) s

-- What the host, the registry, the supervisor and the graph hold of a function.
unregister : Text → FunctionHost → FunctionHost
unregister name s = record s {
  handles = JsMap.delete name s.handles;
  registry = (Registry.delete name (clear_worker_handle name s.registry).1).1;
  supervisor = Supervisor.forget name s.supervisor;
  dep_graph = DepGraph.forget name s.dep_graph;
}

-- A function whose directory is gone.
pub remove_function : Bool → Text → FunctionHost → FunctionHost
unfolding retire unregister forget_boot_state
remove_function drains name s =
    forget_boot_state name (unregister name (retire drains (JsMap.get name s.handles) s))
