-- ===== src/Registry/Tests.antt =====
-- A candidate of the name `chat` in a registry that knows it from nowhere else.
use tube.Common.{◌≡◌, refl, true, false, none, some, [], ◌∷◌, text_eq}
use tube.Common.JsMap
use tube.Common.Sets.{member}
use tube.Common.Text.{codes}
use tube.Manifest.{default_manifest, merge_serve_rate_limit}
use tube.Registry.{
  FunctionCandidate, FunctionRegistry, Registration, empty_registry, has, register_candidate,
  manifest_for, loaded, waiting, starting, get_or_load, settle_import, delete,
}
use tube.Registry.Lazy.{served, get_or_load-settle_import}

abbrev chat : FunctionCandidate
chat = record {
  name = codes "chat";
  module_url = codes "file:///chat.ts";
  manifest = default_manifest;
}

abbrev served_once : Registration
served_once = record {
  handler = 7;
  is_public = true;
  timeout_ms = none;
  rate_limit = record { rpm = some 5; rate_limit_by = none };
}

deleted :
    has (codes "chat") (delete (codes "chat") (register_candidate chat empty_registry)).1 ≡ false
unfolding has delete register_candidate JsMap.has JsMap.delete JsMap.set
deleted = refl

get_or_load-settle_import_example :
    (during : FunctionRegistry) × (get_or_load
        (codes "chat")
        (register_candidate chat empty_registry)
      ≡ (starting (codes "file:///chat.ts"), during))
    × (get_or_load (codes "chat") during ≡ (waiting (codes "file:///chat.ts"), during))
    × (let (result, after) = settle_import (codes "chat") (served_once ∷ []) (some 3) during in
        (result ≡ some (some (served default_manifest served_once)))
        × ((get_or_load (codes "chat") after).0 ≡ loaded (served default_manifest served_once))
        × (manifest_for (codes "chat") after
            ≡ some (merge_serve_rate_limit default_manifest served_once.rate_limit)))
unfolding JsMap.get member
get_or_load-settle_import_example =
    get_or_load-settle_import chat served_once 3 empty_registry refl refl
