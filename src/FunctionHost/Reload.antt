-- ===== src/FunctionHost/Reload.antt =====
-- The reload, the end of the host, and what it tells of the boot.
use tube.Common.{
  ℕ, suc, Bool, false, not, ◌&&◌, Option, none, some, is_some, List, [], ◌∷◌, if◌then◌else◌, filter,
  ◌==◌, text_eq, nat_eq,
}
use tube.Common.JsMap
use tube.Common.JsMap.{JsMap}
use tube.Common.Text.{Text, codes}
use tube.FunctionHost.{
  BootState, queued, loading, ready, failed, Candidate, FunctionHost, enqueue_claim,
  remove_function,
}

-- What is reloaded: every function, or the names of a set.
pub data Names : Type 0 where
  all_functions : Names
  these : List Text → Names

unfoldable pub find_candidate : Text → List Candidate → Option Candidate
find_candidate name [] = none
find_candidate name (c ∷ cs) =
    let rest = find_candidate name cs in if c.name == name then some c else rest

abbrev names_of : List Candidate → List Text
names_of [] = []
names_of (c ∷ cs) = c.name ∷ names_of cs

abbrev known : Names → FunctionHost → List Text
known all_functions s = JsMap.keys s.handles
known (these names) s = names

abbrev pub targets : Names → List Candidate → List Text
targets all_functions candidates = names_of candidates
targets (these names) candidates = names

-- The known functions that have an instance and no directory any more.
unfoldable pub removed_names : Names → List Candidate → FunctionHost → List Text
unfolding find_candidate
removed_names names candidates s =
    filter (λ n. not (is_some (find_candidate n candidates)) && JsMap.has n s.handles)
      (known names s)

unfoldable pub remove_all : Bool → List Text → FunctionHost → FunctionHost
remove_all drains [] s = s
remove_all drains (n ∷ ns) s = remove_all drains ns (remove_function drains n s)

unfoldable pub enqueue_found : Option Candidate → FunctionHost → FunctionHost
enqueue_found none s = s
enqueue_found (some c) s = enqueue_claim false c s

unfoldable pub enqueue_targets : List Text → List Candidate → FunctionHost → FunctionHost
unfolding enqueue_found find_candidate
enqueue_targets [] candidates s = s
enqueue_targets (n ∷ ns) candidates s =
    enqueue_targets ns candidates (enqueue_found (find_candidate n candidates) s)

-- `reload` up to its lanes, with the candidates that the discovery has found.
unfoldable pub reload : Bool → Names → List Candidate → FunctionHost → FunctionHost
unfolding remove_all enqueue_targets removed_names
reload drains names candidates s =
    enqueue_targets (targets names candidates) candidates
      (remove_all drains (removed_names names candidates s) s)

-- A retired instance is idle, or its grace window is over.
unfoldable pub drained : ℕ → FunctionHost → FunctionHost
drained id s = record s { draining = filter (λ i. not (i == id)) s.draining }

unfoldable pub dispatched : Text → ℕ → FunctionHost → FunctionHost
dispatched name now s = record s { last_dispatch = JsMap.set name now s.last_dispatch }

unfoldable pub stop : FunctionHost → FunctionHost
stop s = record s { handles = []; draining = [] }

-- The names in each state, before they are sorted, and the errors of the failed ones.
pub record BootStatus : Type 0 where
  pub total : ℕ
  pub ready : List Text
  pub loading : List Text
  pub queued : List Text
  pub failed : List (Text × Text)

abbrev error_or_unknown : Option Text → Text
error_or_unknown none = codes "unknown error"
error_or_unknown (some e) = e

count_state : JsMap Text Text → Text → BootState → BootStatus → BootStatus
count_state errors name ready st = record st { ready = name ∷ st.ready }
count_state errors name loading st = record st { loading = name ∷ st.loading }
count_state errors name queued st = record st { queued = name ∷ st.queued }
count_state errors name failed st = record st {
  failed = (name, error_or_unknown (JsMap.get name errors)) ∷ st.failed;
}

count_states : JsMap Text Text → JsMap Text BootState → BootStatus
unfolding count_state
count_states errors [] = record { total = 0; ready = []; loading = []; queued = []; failed = [] }
count_states errors ((name, b) ∷ states) =
    let st = count_state errors name b (count_states errors states) in
    record st { total = suc st.total }

pub boot_status : FunctionHost → BootStatus
unfolding count_states
boot_status s = count_states s.boot_errors s.boot_states
