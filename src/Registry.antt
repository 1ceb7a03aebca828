-- ===== src/Registry.antt =====
-- registry.ts: the functions that the gateway knows. A function object, a module graph and a module
-- URL are numbers and texts that identify them; disposing of a graph is left to Bun. `getOrLoad` is
-- cut at its wait for the import.
pub mod Names
pub mod Lazy
mod Tests
use tube.Common.{
  ℕ, suc, ◌+◌, Bool, true, false, not, ◌||◌, Option, none, some, is_some, List, [], ◌∷◌,
  if◌then◌else◌, length, text_eq,
}
use tube.Common.JsMap
use tube.Common.JsMap.{JsMap}
use tube.Common.Sets.{member, add, remove, add_all}
use tube.Common.Text.{Text}
use tube.Manifest.{
  FunctionManifest, RateLimitBy, ServeRateLimit, default_manifest, merge_serve_rate_limit, or_else,
}

pub record RegisteredFunction : Type 0 where
  pub handler : ℕ
  pub is_public : Bool
  pub timeout_ms : Option ℕ
  pub manifest : FunctionManifest

pub record FunctionCandidate : Type 0 where
  pub name : Text
  pub module_url : Text
  pub manifest : FunctionManifest

-- `handle` identifies the out-of-process function that `dispatch` calls.
pub record WorkerFunctionHandle : Type 0 where
  pub handle : ℕ
  pub manifest : FunctionManifest
  pub is_public : Bool
  pub timeout_ms : Option ℕ

pub record FunctionRegistry : Type 0 where
  pub handlers : JsMap Text RegisteredFunction
  pub pending_manifests : JsMap Text FunctionManifest
  pub candidates : JsMap Text FunctionCandidate
  pub external_manifests : JsMap Text FunctionManifest
  pub worker_handles : JsMap Text WorkerFunctionHandle
  pub loading : List Text
  pub graphs : JsMap Text ℕ

abbrev pub empty_registry : FunctionRegistry
empty_registry = record {
  handlers = [];
  pending_manifests = [];
  candidates = [];
  external_manifests = [];
  worker_handles = [];
  loading = [];
  graphs = [];
}

abbrev pub with_manifest :
    Text → FunctionManifest → Option RegisteredFunction → FunctionRegistry → FunctionRegistry
with_manifest name m none r = r
with_manifest name m (some existing) r = record r {
  handlers = JsMap.set name (record existing { manifest = m }) r.handlers;
}

unfoldable pub attach_manifest : Text → FunctionManifest → FunctionRegistry → FunctionRegistry
attach_manifest name m r =
    with_manifest name m (JsMap.get name r.handlers)
      (record r { pending_manifests = JsMap.set name m r.pending_manifests })

-- The options of a `serve()` call.
pub record Registration : Type 0 where
  pub handler : ℕ
  pub is_public : Bool
  pub timeout_ms : Option ℕ
  pub rate_limit : ServeRateLimit

abbrev manifest_or_default : Option FunctionManifest → FunctionManifest
manifest_or_default none = default_manifest
manifest_or_default (some m) = m

-- `register` with a function being imported.
unfoldable pub register : Text → Registration → FunctionRegistry → FunctionRegistry
register name opts r =
    let base = manifest_or_default (JsMap.get name r.pending_manifests) in
    let manifest = merge_serve_rate_limit base opts.rate_limit in
    record r {
      handlers =
          JsMap.set name
            (record {
              handler = opts.handler;
              is_public = opts.is_public;
              timeout_ms = or_else opts.timeout_ms manifest.timeout_ms;
              manifest = manifest;
            })
            r.handlers;
    }

-- `register` in the scope of `runWithCurrentFunction`, `none` where there is no scope: it throws.
pub register_in : Option Text → Registration → FunctionRegistry → Option FunctionRegistry
unfolding register
register_in none opts r = none
register_in (some name) opts r = some (register name opts r)

pub get : Text → FunctionRegistry → Option RegisteredFunction
get name r = JsMap.get name r.handlers

unfoldable pub has : Text → FunctionRegistry → Bool
has name r =
    JsMap.has name r.handlers
    || (JsMap.has name r.candidates
        || (JsMap.has name r.external_manifests || JsMap.has name r.worker_handles))

-- `knownNames` before its `sort`.
unfoldable pub known_names : FunctionRegistry → List Text
known_names r = add_all (JsMap.keys r.worker_handles) (
    add_all (JsMap.keys r.external_manifests)
      (add_all (JsMap.keys r.candidates) (add_all (JsMap.keys r.handlers) [])))

unfoldable pub set_external_manifest : Text → FunctionManifest → FunctionRegistry → FunctionRegistry
set_external_manifest name m r = record r {
  external_manifests = JsMap.set name m r.external_manifests;
}

pub clear_external_manifests : FunctionRegistry → FunctionRegistry
clear_external_manifests r = record r { external_manifests = [] }

unfoldable pub register_candidate : FunctionCandidate → FunctionRegistry → FunctionRegistry
register_candidate c r = record r {
  candidates = JsMap.set c.name c r.candidates;
  pending_manifests = JsMap.set c.name c.manifest r.pending_manifests;
}

pub candidate : Text → FunctionRegistry → Option FunctionCandidate
candidate name r = JsMap.get name r.candidates

abbrev handler_manifest : Option RegisteredFunction → Option FunctionManifest
handler_manifest none = none
handler_manifest (some f) = some f.manifest

abbrev candidate_manifest : Option FunctionCandidate → Option FunctionManifest
candidate_manifest none = none
candidate_manifest (some c) = some c.manifest

abbrev handle_manifest : Option WorkerFunctionHandle → Option FunctionManifest
handle_manifest none = none
handle_manifest (some h) = some h.manifest

unfoldable pub manifest_for : Text → FunctionRegistry → Option FunctionManifest
manifest_for name r = or_else (handler_manifest (JsMap.get name r.handlers)) (
    or_else (candidate_manifest (JsMap.get name r.candidates)) (
      or_else (handle_manifest (JsMap.get name r.worker_handles))
        (JsMap.get name r.external_manifests)))

unfoldable pub set_worker_handle : Text → WorkerFunctionHandle → FunctionRegistry → FunctionRegistry
set_worker_handle name h r = record r { worker_handles = JsMap.set name h r.worker_handles }

unfoldable pub worker_handle : Text → FunctionRegistry → Option WorkerFunctionHandle
worker_handle name r = JsMap.get name r.worker_handles

unfoldable pub clear_worker_handle : Text → FunctionRegistry → Bool × FunctionRegistry
clear_worker_handle name r = (
  JsMap.has name r.worker_handles,
  record r { worker_handles = JsMap.delete name r.worker_handles },
)

register_all : Text → List Registration → FunctionRegistry → FunctionRegistry
unfolding register
register_all name [] r = r
register_all name (o ∷ os) r = register_all name os (register name o r)

-- The end of `importFunction`: the calls of `serve()` that the module made, and the graph it runs
-- in, `none` where it threw. What it had registered before it threw stays registered.
unfoldable pub import_function :
    Text → List Registration → Option ℕ → FunctionRegistry → FunctionRegistry
unfolding register_all
import_function name calls none r = register_all name calls r
import_function name calls (some graph) r =
    let registered = register_all name calls r in
    record registered { graphs = JsMap.set name graph registered.graphs }

-- What a caller of `getOrLoad` gets before the wait: the handler, `undefined`, or the import to wait
-- for, which it starts if it is not under way.
pub data Loading : Type 0 where
  loaded : RegisteredFunction → Loading
  unknown : Loading
  waiting starting : Text → Loading

start_loading : Text → Option FunctionCandidate → FunctionRegistry → Loading × FunctionRegistry
unfolding attach_manifest member
start_loading name none r = (unknown, r)
start_loading name (some c) r = if member name r.loading then (waiting c.module_url, r) else (
  starting c.module_url,
  record (attach_manifest name c.manifest r) { loading = name ∷ r.loading },
)

unfoldable pub get_or_load : Text → FunctionRegistry → Loading × FunctionRegistry
unfolding start_loading
get_or_load name r = elim (JsMap.get name r.handlers) [
  | none ↦ start_loading name (JsMap.get name r.candidates) r
  | some fn ↦ (loaded fn, r)
]

-- The import has ended: what all its callers get, `none` where the module threw, and the registry
-- after their `finally`.
unfoldable pub settle_import :
    Text
    → List Registration
    → Option ℕ
    → FunctionRegistry
    → Option (Option RegisteredFunction) × FunctionRegistry
unfolding import_function remove
settle_import name calls none r =
    let imported = import_function name calls none r in
    (
      none,
      record imported {
        candidates = JsMap.delete name imported.candidates;
        loading = remove name imported.loading;
      },
    )
settle_import name calls (some graph) r =
    let imported = import_function name calls (some graph) r in
    (
      some (JsMap.get name imported.handlers),
      record imported { loading = remove name imported.loading },
    )

unfoldable pub delete : Text → FunctionRegistry → Bool × FunctionRegistry
unfolding remove
delete name r = (
  JsMap.has name r.handlers,
  record r {
    graphs = JsMap.delete name r.graphs;
    pending_manifests = JsMap.delete name r.pending_manifests;
    candidates = JsMap.delete name r.candidates;
    loading = remove name r.loading;
    worker_handles = JsMap.delete name r.worker_handles;
    handlers = JsMap.delete name r.handlers;
  },
)

pub clear : FunctionRegistry → FunctionRegistry
clear r = record empty_registry { external_manifests = r.external_manifests }

-- `list` before its `sort`.
pub list : FunctionRegistry → List Text
list r = JsMap.keys r.handlers

pub registry_size : FunctionRegistry → ℕ
registry_size r = length r.handlers

count_unloaded : JsMap Text RegisteredFunction → List Text → ℕ
count_unloaded handlers [] = 0
count_unloaded handlers (k ∷ ks) =
    let n = count_unloaded handlers ks in if not (JsMap.has k handlers) then suc n else n

pub pending_count : FunctionRegistry → ℕ
unfolding count_unloaded
pending_count r = count_unloaded r.handlers (JsMap.keys r.candidates)
