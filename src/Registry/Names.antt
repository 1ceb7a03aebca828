-- ===== src/Registry/Names.antt =====
-- The views of the registry: names, presence and manifests.
use tube.Common.{◌≡◌, is_some, [], arith, text_eq}
use tube.Common.JsMap
use tube.Common.JsMap.{JsMap}
use tube.Common.Sets.{member, add_all, member-add_all, member-keys}
use tube.Common.Text.{Text}
use tube.Registry.{FunctionRegistry, has, known_names, manifest_for}

-- `knownNames` lists exactly the names for which `has` is true.
member-known_names : (name : Text) (r : FunctionRegistry) → member name (known_names r) ≡ has name r
unfolding known_names has member
member-known_names name r = ground (
  arith,
  member-keys name r.handlers,
  member-keys name r.candidates,
  member-keys name r.external_manifests,
  member-keys name r.worker_handles,
  member-add_all name (JsMap.keys r.handlers) [],
  member-add_all name (JsMap.keys r.candidates) (add_all (JsMap.keys r.handlers) []),
  member-add_all name (JsMap.keys r.external_manifests)
      (add_all (JsMap.keys r.candidates) (add_all (JsMap.keys r.handlers) [])),
  member-add_all name (JsMap.keys r.worker_handles) (
      add_all (JsMap.keys r.external_manifests)
        (add_all (JsMap.keys r.candidates) (add_all (JsMap.keys r.handlers) []))),
)

is_some-manifest_for :
    (name : Text) (r : FunctionRegistry) → is_some (manifest_for name r) ≡ has name r
unfolding manifest_for has JsMap.has
is_some-manifest_for name r = ground arith

-- The three views agree on every registry: `knownNames` lists a name exactly if `has` is true of it,
-- and exactly these names have a manifest.
pub known_names-manifest_for :
    (name : Text) (r : FunctionRegistry)
    → (member name (known_names r) ≡ has name r) × (is_some (manifest_for name r) ≡ has name r)
known_names-manifest_for name r = (member-known_names name r, is_some-manifest_for name r)
