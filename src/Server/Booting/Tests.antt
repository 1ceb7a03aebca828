-- ===== src/Server/Booting/Tests.antt =====
-- The first request for a function whose boot is deferred.
use tube.Common.{true, none, [], ◌∷◌, text_eq}
use tube.Common.JsMap
use tube.Common.Text.{codes}
use tube.DepGraph.Affected.{empty_graph}
use tube.Manifest.{default_manifest}
use tube.Registry.{WorkerFunctionHandle, empty_registry}
use tube.FunctionHost.{Candidate, FunctionHost}
use tube.FunctionHost.Runs.{deferred_starts, new_host, perform_all}

abbrev mail : Candidate
mail = record {
  name = codes "mail";
  entry_path = codes "mail/index.ts";
  manifest = default_manifest;
}

abbrev mail_instance : WorkerFunctionHandle
mail_instance = record {
  handle = 4;
  manifest = default_manifest;
  is_public = true;
  timeout_ms = none;
}

abbrev deferred : FunctionHost
deferred =
    perform_all true (deferred_starts (mail ∷ []) ∷ [])
      (new_host empty_registry (record { states = []; manifests = [] }) empty_graph)
