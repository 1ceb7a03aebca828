-- ===== src/FunctionHost/Tests.antt =====
-- The function host at concrete values.
use tube.Common.{ℕ, ◌≡◌, refl, true, false, none, some, List, [], ◌∷◌, text_eq}
use tube.Common.JsMap
use tube.Common.Text.{codes}
use tube.DepGraph.Affected.{empty_graph}
use tube.Manifest.{default_manifest}
use tube.Registry.{empty_registry, WorkerFunctionHandle}
use tube.FunctionHost.{
  ready, now_ready, Candidate, FunctionHost, is_in, take_running, imported, prioritize, spawn_ends,
  start_deferred, enqueue_deferred, enqueue_claim, when_ready, when_state, add_waiter, start_claim,
  prioritize,
}
use tube.FunctionHost.Reload.{
  these, reload, removed_names, remove_all, enqueue_targets, enqueue_found, find_candidate,
}
use tube.FunctionHost.Backed.{IsBacked}
use tube.FunctionHost.Runs.{
  Call, deferred_starts, waits, prioritizes, reloads, new_host, perform, perform_all,
  perform_all-IsBacked,
}
use tube.FunctionHost.Waiting.{has_answer, spawn_of, spawn_ends-has_answer}
use tube.FunctionHost.Overtaken.{spawn_ends-overtaken}

abbrev chat : Candidate
chat = record {
  name = codes "chat";
  entry_path = codes "chat/index.ts";
  manifest = default_manifest;
}

abbrev mail : Candidate
mail = record {
  name = codes "mail";
  entry_path = codes "mail/index.ts";
  manifest = default_manifest;
}

abbrev instance_of : ℕ → WorkerFunctionHandle
instance_of n = record {
  handle = n;
  manifest = default_manifest;
  is_public = true;
  timeout_ms = none;
}

abbrev after : List Call → FunctionHost
after calls =
    perform_all true calls
      (new_host empty_registry (record { states = []; manifests = [] }) empty_graph)

-- A request waits for `chat`; its spawn has started and a change of the file has queued another.
abbrev overtaken : FunctionHost
overtaken = after (
    deferred_starts (mail ∷ chat ∷ [])
    ∷ waits (codes "chat")
    ∷ prioritizes (codes "chat")
    ∷ reloads (these (codes "chat" ∷ [])) (chat ∷ [])
    ∷ [])

abbrev waiting_for_chat : FunctionHost
waiting_for_chat = after (deferred_starts (mail ∷ chat ∷ []) ∷ waits (codes "chat") ∷ [])

perform_all-IsBacked_example : IsBacked overtaken
perform_all-IsBacked_example =
    perform_all-IsBacked true
      (deferred_starts (mail ∷ chat ∷ [])
        ∷ waits (codes "chat")
        ∷ prioritizes (codes "chat")
        ∷ reloads (these (codes "chat" ∷ [])) (chat ∷ [])
        ∷ [])
      empty_registry (record { states = []; manifests = [] }) empty_graph

spawn_ends-has_answer_example :
    has_answer 2 now_ready (
      spawn_ends true
        (spawn_of (codes "chat") (prioritize (codes "chat") waiting_for_chat).running)
        (imported (instance_of 7))
        (prioritize (codes "chat") waiting_for_chat))
    ≡ true
unfolding perform_all perform start_deferred enqueue_deferred enqueue_claim when_ready when_state
    add_waiter is_in JsMap.get JsMap.set
spawn_ends-has_answer_example =
    spawn_ends-has_answer true (imported (instance_of 7)) (codes "chat") 2 waiting_for_chat
      (perform_all-IsBacked true (deferred_starts (mail ∷ chat ∷ []) ∷ waits (codes "chat") ∷ [])
        empty_registry (record { states = []; manifests = [] }) empty_graph)
      refl

spawn_ends-overtaken_example :
    (JsMap.get (codes "chat") (spawn_ends true 0 (imported (instance_of 7)) overtaken).boot_states
      ≡ some ready)
    × (JsMap.get
          (codes "chat")
          (spawn_ends true 0 (imported (instance_of 7)) overtaken).pending_claims
        ≡ some (record { id = 3; candidate = chat; deferred = false }))
    × (prioritize (codes "chat") (spawn_ends true 0 (imported (instance_of 7)) overtaken)
        ≡ spawn_ends true 0 (imported (instance_of 7)) overtaken)
unfolding perform_all perform start_deferred enqueue_deferred enqueue_claim when_ready when_state
    add_waiter prioritize start_claim reload removed_names remove_all enqueue_targets enqueue_found
    find_candidate take_running is_in JsMap.get JsMap.set JsMap.delete JsMap.has
spawn_ends-overtaken_example =
    spawn_ends-overtaken true 0 (instance_of 7) (codes "chat")
      (record { id = 3; candidate = chat; deferred = false }) overtaken refl refl
