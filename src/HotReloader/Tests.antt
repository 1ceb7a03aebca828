-- ===== src/HotReloader/Tests.antt =====
-- A shared file of one loaded function changes.
use tube.Common.{◌≡◌, refl, Bool, true, false, Option, none, some, List, [], ◌∷◌, text_eq}
use tube.Common.JsMap
use tube.Common.Sets.{member}
use tube.Common.Text.{Text, codes}
use tube.DepGraph.{replace, add_files, remove_files, index_add}
use tube.DepGraph.Affected.{Update, refreshed, update_all, empty_graph, update_all-IsConsistent}
use tube.Manifest.{default_manifest}
use tube.Registry.{WorkerFunctionHandle, empty_registry}
use tube.FunctionHost.{queued, Candidate, FunctionHost}
use tube.FunctionHost.Reload.{find_candidate}
use tube.FunctionHost.Runs.{new_host}
use tube.HotReloader.{HotReloader, flush_paths}
use tube.HotReloader.Served.{Serves, flush_paths-Serves}

abbrev chat : Candidate
chat = record {
  name = codes "chat";
  entry_path = codes "/f/chat/index.ts";
  manifest = default_manifest;
}

abbrev updates : List Update
updates =
    refreshed (codes "chat") (record {
      files = codes "/f/chat/index.ts" ∷ codes "/f/lib.ts" ∷ [];
      packages = [];
      remotes = [];
    })
    ∷ []

abbrev host : FunctionHost
host =
    record (new_host empty_registry (record { states = []; manifests = [] })
      (update_all updates empty_graph)) {
        handles =
            (
              codes "chat",
              record {
                handle = 1;
                manifest = default_manifest;
                is_public = true;
                timeout_ms = none;
              },
            )
            ∷ [];
      }

abbrev reloader : HotReloader
reloader = record { content_digests = (codes "/f/lib.ts", codes "old") ∷ []; host = host }

abbrev new_bytes : Text → Option Text
new_bytes path = some (codes "new")

abbrev no_entry : Text → Bool
no_entry name = false

abbrev only_chat : List Text → List Candidate
only_chat names = chat ∷ []

finds_chat :
    (ns : List Text)
    → member (codes "chat") ns ≡ true
    → find_candidate (codes "chat") (only_chat ns) ≡ some chat
unfolding find_candidate
finds_chat ns m = refl

abbrev new_chat : WorkerFunctionHandle
new_chat = record { handle = 2; manifest = default_manifest; is_public = true; timeout_ms = none }

flush_paths-Serves_example :
    (JsMap.get
        (codes "chat")
        (flush_paths new_bytes no_entry only_chat true
          (codes "/f")
          (codes "/f/lib.ts" ∷ [])
          reloader).host.boot_states
      ≡ some queued)
    × Serves true new_chat
        (codes "chat")
        chat
        (flush_paths new_bytes no_entry only_chat true
          (codes "/f")
          (codes "/f/lib.ts" ∷ [])
          reloader).host
unfolding member JsMap.has JsMap.get JsMap.set update_all replace add_files remove_files index_add
flush_paths-Serves_example =
    flush_paths-Serves new_bytes no_entry only_chat true (codes "/f") (codes "/f/lib.ts" ∷ [])
      (codes "chat") (codes "/f/lib.ts") chat new_chat reloader (update_all-IsConsistent updates)
      refl refl refl refl finds_chat
