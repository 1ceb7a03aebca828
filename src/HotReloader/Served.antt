-- ===== src/HotReloader/Served.antt =====
-- From the change of a file to the instance that requests find.
use tube.Common.{
  ◌≡◌, refl, ap, sym, ◌∙◌, Bool, true, Option, none, some, List, [], ◌∷◌, length, text_eq, arith,
  text_beq_iff,
}
use tube.Common.JsMap
use tube.Common.Sets.{member}
use tube.Common.Text.{Text}
use tube.DepGraph.Affected.{IsConsistent, graph_files}
use tube.Registry.{WorkerFunctionHandle, worker_handle}
use tube.FunctionHost.{
  ready, queued, Candidate, Claim, FunctionHost, lane_takes, imported, spawn_ends,
}
use tube.FunctionHost.Overtaken.{Shows}
use tube.FunctionHost.Taken.{lane_takes-worker_handle}
use tube.FunctionHost.Reload.{find_candidate}
use tube.HotReloader.{HotReloader, is_changed, flush_paths}
use tube.HotReloader.Flush.{Queues, candidate_of, is_for, find_candidate-is_for, flush_paths-Queues}

-- The claim of a candidate.
claim_of :
    (o : Option Claim) (c : Candidate)
    → candidate_of o ≡ some c
    → (k : Claim) × (o ≡ some k) × (k.candidate ≡ c)
claim_of none c e = cc
claim_of (some k) c e = (k, refl, cc)

found_name :
    (n : Text) (cs : List Candidate) (c : Candidate) → find_candidate n cs ≡ some c → c.name ≡ n
found_name n cs c e = (text_beq_iff c.name n).0 (ap (is_for n) (sym e) ∙ find_candidate-is_for n cs)

-- A host has a claim of a function with this candidate, and once a lane has come to it and its spawn
-- has imported this instance, requests find it, and the function is ready with no claim left.
abbrev pub Serves : Bool → WorkerFunctionHandle → Text → Candidate → FunctionHost → Type 0
Serves drains h n c s =
    (k : Claim) × (JsMap.get n s.pending_claims ≡ some k)
    × (k.candidate ≡ c)
    × (let s' = spawn_ends drains (length s.running) (imported h) (lane_takes n k.id s) in
        (worker_handle n s'.registry ≡ some h) × Shows n (some ready) none s')

Queues-Serves :
    (drains : Bool) (h : WorkerFunctionHandle) (n : Text) (c : Candidate) (r : HotReloader)
    → c.name ≡ n
    → Queues n c r
    → Serves drains h n c r.host
Queues-Serves drains h n c r named q =
    let (k, pending, same) = claim_of (JsMap.get n r.host.pending_claims) c q.1 in
    (
      k,
      pending,
      same,
      lane_takes-worker_handle drains h n k r.host pending (ap (λ d. d.name) same ∙ named),
    )

-- When a file that the graph of a loaded function holds has changed, a flush that was told of it makes
-- the function queued and claims the candidate that the discovery finds for it; and once a lane has
-- come to the claim and its spawn has imported the instance `h`, requests find `h`, and the function
-- is ready with no claim left. The graph is consistent, the bytes of the path are not those of
-- the last flush, and the discovery finds the function whatever else it is asked for.
pub flush_paths-Serves :
    (digest : Text → Option Text) (has_entry : Text → Bool) (discover : List Text → List Candidate)
    (drains : Bool) (dir : Text) (raw : List Text) (n p : Text) (c : Candidate)
    (h : WorkerFunctionHandle) (r : HotReloader)
    → IsConsistent r.host.dep_graph
    → JsMap.has n r.host.handles ≡ true
    → member p raw ≡ true
    → is_changed (digest p) (JsMap.get p r.content_digests) ≡ true
    → member p (graph_files r.host.dep_graph n) ≡ true
    → ((ns : List Text) → member n ns ≡ true → find_candidate n (discover ns) ≡ some c)
    → let s = (flush_paths digest has_entry discover drains dir raw r).host in
      (JsMap.get n s.boot_states ≡ some queued) × Serves drains h n c s
unfolding member
flush_paths-Serves digest has_entry discover drains dir raw n p c h r consistent live told changed
      inside found =
    let q =
      flush_paths-Queues digest has_entry discover drains dir raw n p c r consistent live told
        changed inside found in
    let named =
      found_name n (discover (n ∷ [])) c (found (n ∷ []) (ground (arith, text_beq_iff n n))) in
    (
      q.0,
      Queues-Serves drains h n c (flush_paths digest has_entry discover drains dir raw r) named q,
    )
