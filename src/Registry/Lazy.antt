-- ===== src/Registry/Lazy.antt =====
-- The life of a candidate from its registration to its handler.
use tube.Common.{◌≡◌, refl, ap, false, none, some, [], ◌∷◌, arith, ℕ, text_eq, beq_self}
use tube.Common.JsMap
use tube.Common.JsMap.{JsMap}
use tube.Common.Sets.{member}
use tube.Common.Text.{Text}
use tube.Manifest.{FunctionManifest, merge_serve_rate_limit, or_else}
use tube.Registry.{
  RegisteredFunction, FunctionCandidate, FunctionRegistry, Registration, attach_manifest, register,
  register_all, register_candidate, manifest_for, loaded, waiting, starting, get_or_load,
  start_loading, import_function, settle_import,
}

-- The registry while the module of a candidate is imported.
abbrev importing : FunctionCandidate → FunctionRegistry → FunctionRegistry
importing c r = record r {
  pending_manifests = JsMap.set c.name c.manifest (JsMap.set c.name c.manifest r.pending_manifests);
  candidates = JsMap.set c.name c r.candidates;
  loading = c.name ∷ r.loading;
}

get_same :
    {V : Type 0} (k : Text) (v : V) (m : JsMap Text V) → JsMap.get k (JsMap.set k v m) ≡ some v
get_same k v m = ground (arith, JsMap.get-set k k v m, beq_self k)

first_call :
    (c : FunctionCandidate) (r : FunctionRegistry)
    → JsMap.get c.name r.handlers ≡ none
    → member c.name r.loading ≡ false
    → get_or_load c.name (register_candidate c r) ≡ (starting c.module_url, importing c r)
unfolding get_or_load register_candidate start_loading attach_manifest
first_call c r absent idle =
    rw
      (
        absent,
        get_or_load,
        get_same c.name c r.candidates,
        start_loading,
        idle,
        attach_manifest,
        absent,
      )
      refl

other_call :
    (c : FunctionCandidate) (r : FunctionRegistry)
    → JsMap.get c.name r.handlers ≡ none
    → get_or_load c.name (importing c r) ≡ (waiting c.module_url, importing c r)
unfolding get_or_load start_loading member
other_call c r absent =
    rw (absent, get_or_load, get_same c.name c r.candidates, start_loading, beq_self c.name) refl

-- The function that a `serve()` call registers over a manifest.
abbrev pub served : FunctionManifest → Registration → RegisteredFunction
served m o =
    let manifest = merge_serve_rate_limit m o.rate_limit in
    record {
      handler = o.handler;
      is_public = o.is_public;
      timeout_ms = or_else o.timeout_ms manifest.timeout_ms;
      manifest = manifest;
    }

imported :
    (c : FunctionCandidate) (o : Registration) (graph : ℕ) (r : FunctionRegistry)
    → JsMap.get c.name (settle_import c.name (o ∷ []) (some graph) (importing c r)).1.handlers
      ≡ some (served c.manifest o)
unfolding settle_import import_function register_all register
imported c o graph r =
    rw
      (
        get_same c.name c.manifest (JsMap.set c.name c.manifest r.pending_manifests),
        get_same c.name (served c.manifest o) r.handlers,
      )
      refl

settled :
    (c : FunctionCandidate) (o : Registration) (graph : ℕ) (r : FunctionRegistry)
    → (settle_import c.name (o ∷ []) (some graph) (importing c r)).0
      ≡ some (some (served c.manifest o))
settled c o graph r = unfold settle_import in ap some (imported c o graph r)

later_call :
    (c : FunctionCandidate) (fn : RegisteredFunction) (r : FunctionRegistry)
    → JsMap.get c.name r.handlers ≡ some fn
    → ((get_or_load c.name r).0 ≡ loaded fn) × (manifest_for c.name r ≡ some fn.manifest)
unfolding get_or_load manifest_for
later_call c fn r found = (rw (found, get_or_load) refl, rw (found, manifest_for) refl)

-- A candidate without a handler is imported once. The first call of `getOrLoad` starts the import
-- and the calls until its end wait for it. If the module calls `serve()` once, these calls then get
-- its handler with the manifest of the candidate under the override of the call, later calls get it
-- without an import, and `manifestFor` gives that manifest.
pub get_or_load-settle_import :
    (c : FunctionCandidate) (o : Registration) (graph : ℕ) (r : FunctionRegistry)
    → JsMap.get c.name r.handlers ≡ none
    → member c.name r.loading ≡ false
    → (during : FunctionRegistry) × (get_or_load c.name (register_candidate c r)
        ≡ (starting c.module_url, during))
      × (get_or_load c.name during ≡ (waiting c.module_url, during))
      × (let (result, after) = settle_import c.name (o ∷ []) (some graph) during in
          (result ≡ some (some (served c.manifest o)))
          × ((get_or_load c.name after).0 ≡ loaded (served c.manifest o))
          × (manifest_for c.name after ≡ some (merge_serve_rate_limit c.manifest o.rate_limit)))
get_or_load-settle_import c o graph r absent idle =
    let found = imported c o graph r in
    let later =
      later_call c (served c.manifest o)
        (settle_import c.name (o ∷ []) (some graph) (importing c r)).1 found in
    (
      importing c r,
      first_call c r absent idle,
      other_call c r absent,
      (settled c o graph r, later.0, later.1),
    )
