-- ===== src/Server/Booting.antt =====
-- A request for a function that the host has not loaded yet: the dispatch over the function host.
mod Tests
use tube.Common.{ℕ, refl, ap, sym, ◌∙◌, false, ◌&&◌, Option, List, [], ◌∷◌, if◌then◌else◌, text_eq}
use tube.Common.JsMap
use tube.Common.Text.{Text}
use tube.Registry.{worker_handle}
use tube.FunctionHost.{
  BootState, queued, loading, ready, failed, Readiness, Wait, FunctionHost, is_in, waiters_of,
}
use tube.FunctionHost.Answered.{outcome}
use tube.FunctionHost.Backed.{is_backed}
use tube.Server.Dispatch.{HostView, Found}

-- What `dispatch` reads of a host before and after a wait.
abbrev pub host_view : Text → FunctionHost → Wait → FunctionHost → HostView
host_view name before wait after = record {
  state = JsMap.get name before.boot_states;
  boot_wait = outcome wait after;
  state_after = JsMap.get name after.boot_states;
  handle_after = worker_handle name after.registry;
  fresh_wait = outcome wait after;
  handle_fresh = worker_handle name after.registry;
}
