-- ===== src/FunctionHost/Taken.antt =====
-- A claim that a lane takes, up to the end of its spawn.
use tube.Common.{
  ◌≡◌, refl, ap, ◌∙◌, Bool, true, none, some, List, [], ◌∷◌, ◌++◌, length, nat_eq, text_eq, arith,
  text_beq_iff,
}
use tube.Common.JsMap
use tube.Common.Text.{Text}
use tube.Registry.{WorkerFunctionHandle, worker_handle}
use tube.FunctionHost.{
  ready, Claim, FunctionHost, put_back, take_running, start_claim, lane_takes, imported, spawn_ends,
}
use tube.FunctionHost.Handles.{worker_handle-end_taken}
use tube.FunctionHost.Overtaken.{Shows, end_taken-Shows}
use tube.FunctionHost.Waiting.{taken_is}

take_running-last :
    (cs : List Claim) (c : Claim) → take_running (length cs) (cs ++ c ∷ []) ≡ some (c, cs)
unfolding take_running
take_running-last [] c = refl
take_running-last (d ∷ cs) c = ap (put_back d) (take_running-last cs c)

-- The host in which a lane has started a claim.
abbrev started : Text → Claim → FunctionHost → FunctionHost
started name c s = start_claim name (some c) s

lane_takes-started :
    (name : Text) (c : Claim) (s : FunctionHost)
    → JsMap.get name s.pending_claims ≡ some c
    → lane_takes name c.id s ≡ started name c s
unfolding lane_takes
lane_takes-started name c s e = ground (arith, e)

started-taken_is :
    (name : Text) (c : Claim) (s : FunctionHost)
    → c.candidate.name ≡ name
    → taken_is name (take_running (length s.running) (started name c s).running) ≡ true
unfolding start_claim
started-taken_is name c s e =
    ap (taken_is name) (take_running-last s.running c) ∙ (text_beq_iff c.candidate.name name).1 e

started-pending :
    (name : Text) (c : Claim) (s : FunctionHost)
    → JsMap.get name (started name c s).pending_claims ≡ none
unfolding start_claim
started-pending name c s =
    ground (arith, JsMap.get-delete name name s.pending_claims, text_beq_iff name name)

-- A lane comes to a claim that is still the newest of its name, and its spawn imports an instance:
-- requests then find this instance, the name is ready, and no claim of it is left.
pub lane_takes-worker_handle :
    (drains : Bool) (h : WorkerFunctionHandle) (name : Text) (c : Claim) (s : FunctionHost)
    → JsMap.get name s.pending_claims ≡ some c
    → c.candidate.name ≡ name
    → let s' = spawn_ends drains (length s.running) (imported h) (lane_takes name c.id s) in
      (worker_handle name s'.registry ≡ some h) × Shows name (some ready) none s'
unfolding spawn_ends Shows
lane_takes-worker_handle drains h name c s pending named =
    rw (lane_takes-started name c s pending) (
      let kept = started name c s in
      let taken = take_running (length s.running) kept.running in
      let is = started-taken_is name c s named in
      let shown = end_taken-Shows drains h name taken kept is in
      (
        worker_handle-end_taken drains h name taken kept is,
        (shown.0, shown.1 ∙ started-pending name c s),
      ))
