-- ===== src/HotReloader/Flush.antt =====
-- A flush of changed paths, from the digests to the claims of the function host.
use tube.Common.{
  ◌≡◌, refl, Bool, true, false, ◌&&◌, Option, none, some, is_some, List, [], ◌∷◌, if◌then◌else◌,
  ◌==◌, text_eq, arith, text_beq_iff,
}
use tube.Common.JsMap
use tube.Common.JsMap.{JsMap}
use tube.Common.Sets.{member, add_all, member-add_all}
use tube.Common.Text.{Text}
use tube.DepGraph.{DepGraph}
use tube.DepGraph.Affected.{IsConsistent, touches, graph_files}
use tube.FunctionHost.{queued, Candidate, Claim, FunctionHost, enqueue_claim}
use tube.FunctionHost.Reload.{
  these, find_candidate, enqueue_found, enqueue_targets, reload, remove_all, removed_names,
}
use tube.HotReloader.{
  HotReloader, is_changed, store_digest, filter_noop_paths, affected_names, reload_affected,
  reload_changed, flush_paths,
}
use tube.HotReloader.Affected.{member-affected_names}

get-store_digest :
    (q p : Text) (d : Option Text) (ds : JsMap Text Text)
    → JsMap.get p (store_digest q d ds) ≡ (if q == p then d else JsMap.get p ds)
get-store_digest q p none ds = JsMap.get-delete q p ds
get-store_digest q p (some d) ds = JsMap.get-set q p d ds

member-filter_noop_paths :
    (digest : Text → Option Text) (p : Text) (ps : List Text) (ds : JsMap Text Text)
    → member p (filter_noop_paths digest ps ds).0
      ≡ (member p ps && is_changed (digest p) (JsMap.get p ds))
unfolding filter_noop_paths member
member-filter_noop_paths digest p [] ds = refl
member-filter_noop_paths digest p (q ∷ ps) ds = ground (
  arith,
  member-filter_noop_paths digest p ps ds,
  member-filter_noop_paths digest p ps (store_digest q (digest q) ds),
  get-store_digest q p (digest q) ds,
  text_beq_iff q p,
)

touches-member :
    (g : DepGraph) (n p : Text) (ps : List Text)
    → member p ps ≡ true
    → member p (graph_files g n) ≡ true
    → touches g n ps ≡ true
unfolding member
touches-member g n p [] m h = ground (arith, m)
touches-member g n p (q ∷ ps) m h = ground (arith, m, h, touches-member g n p ps, text_beq_iff q p)

-- The candidate of a claim.
abbrev pub candidate_of : Option Claim → Option Candidate
candidate_of none = none
candidate_of (some c) = some c.candidate

abbrev pub is_for : Text → Option Candidate → Bool
is_for name none = true
is_for name (some c) = c.name == name

pub find_candidate-is_for : (n : Text) (cs : List Candidate) → is_for n (find_candidate n cs) ≡ true
unfolding find_candidate
find_candidate-is_for n [] = refl
find_candidate-is_for n (c ∷ cs) = ground (arith, find_candidate-is_for n cs)

-- What the enqueued candidate of a name leaves of another name's state and claim.
enqueue_found-state :
    (o : Option Candidate) (m n : Text) (s : FunctionHost)
    → is_for m o ≡ true
    → JsMap.get n (enqueue_found o s).boot_states
      ≡ (if m == n && is_some o then some queued else JsMap.get n s.boot_states)
unfolding enqueue_found enqueue_claim
enqueue_found-state none m n s h = ground arith
enqueue_found-state (some c) m n s h = ground (
  arith,
  h,
  JsMap.get-set c.name n queued s.boot_states,
  text_beq_iff c.name m,
  text_beq_iff c.name n,
)

enqueue_found-claim :
    (o : Option Candidate) (m n : Text) (s : FunctionHost)
    → is_for m o ≡ true
    → candidate_of (JsMap.get n (enqueue_found o s).pending_claims)
      ≡ (if m == n && is_some o then o else candidate_of (JsMap.get n s.pending_claims))
unfolding enqueue_found enqueue_claim
enqueue_found-claim none m n s h = ground arith
enqueue_found-claim (some c) m n s h = ground (
  arith,
  h,
  JsMap.get-set c.name n (record { id = s.next_id; candidate = c; deferred = false })
      s.pending_claims,
  text_beq_iff c.name m,
  text_beq_iff c.name n,
)

enqueue_targets-state :
    (ns : List Text) (cs : List Candidate) (n : Text) (s : FunctionHost)
    → JsMap.get n (enqueue_targets ns cs s).boot_states ≡ (
        if member n ns && is_some (find_candidate n cs)
        then some queued
        else JsMap.get n s.boot_states)
unfolding enqueue_targets member
enqueue_targets-state [] cs n s = refl
enqueue_targets-state (m ∷ ns) cs n s = ground (
  arith,
  enqueue_targets-state ns cs n (enqueue_found (find_candidate m cs) s),
  enqueue_found-state (find_candidate m cs) m n s (find_candidate-is_for m cs),
  text_beq_iff m n,
)

enqueue_targets-claim :
    (ns : List Text) (cs : List Candidate) (n : Text) (s : FunctionHost)
    → candidate_of (JsMap.get n (enqueue_targets ns cs s).pending_claims) ≡ (
        if member n ns && is_some (find_candidate n cs)
        then find_candidate n cs
        else candidate_of (JsMap.get n s.pending_claims))
unfolding enqueue_targets member
enqueue_targets-claim [] cs n s = refl
enqueue_targets-claim (m ∷ ns) cs n s = ground (
  arith,
  enqueue_targets-claim ns cs n (enqueue_found (find_candidate m cs) s),
  enqueue_found-claim (find_candidate m cs) m n s (find_candidate-is_for m cs),
  text_beq_iff m n,
)

reload-queues :
    (drains : Bool) (ns : List Text) (cs : List Candidate) (n : Text) (c : Candidate)
    (s : FunctionHost)
    → member n ns ≡ true
    → find_candidate n cs ≡ some c
    → (JsMap.get n (reload drains (these ns) cs s).boot_states ≡ some queued)
      × (candidate_of (JsMap.get n (reload drains (these ns) cs s).pending_claims) ≡ some c)
unfolding reload
reload-queues drains ns cs n c s m e =
    let kept = remove_all drains (removed_names (these ns) cs s) s in
    (
      ground (arith, enqueue_targets-state ns cs n kept, m, e),
      ground (arith, enqueue_targets-claim ns cs n kept, m, e),
    )

-- The host of a reloader has queued a function with this candidate.
abbrev pub Queues : Text → Candidate → HotReloader → Type 0
Queues n c r =
    (JsMap.get n r.host.boot_states ≡ some queued)
    × (candidate_of (JsMap.get n r.host.pending_claims) ≡ some c)

module _ (discover : List Text → List Candidate) (drains : Bool) (n : Text) (c : Candidate) where
  reload_affected-Queues :
      (ns : List Text) (r : HotReloader)
      → member n ns ≡ true
      → find_candidate n (discover ns) ≡ some c
      → Queues n c (reload_affected discover drains ns r)
  unfolding reload_affected member
  reload_affected-Queues [] r m e = (ground (arith, m), ground (arith, m))
  reload_affected-Queues (k ∷ ns) r m e =
      reload-queues drains (k ∷ ns) (discover (k ∷ ns)) n c r.host m e

  reload_changed-Queues :
      (digest : Text → Option Text) (has_entry : Text → Bool) (dir p : Text) (paths : List Text)
      (r : HotReloader)
      → IsConsistent r.host.dep_graph
      → JsMap.has n r.host.handles ≡ true
      → member p paths ≡ true
      → member p (graph_files r.host.dep_graph n) ≡ true
      → ((ns : List Text) → member n ns ≡ true → find_candidate n (discover ns) ≡ some c)
      → Queues n c (reload_changed digest has_entry discover drains dir paths r)
  unfolding reload_changed member
  reload_changed-Queues digest has_entry dir p [] r h live m g found =
      (ground (arith, m), ground (arith, m))
  reload_changed-Queues digest has_entry dir p (q ∷ qs) r h live m g found =
      let names = affected_names has_entry dir (q ∷ qs) r.host in
      let reloaded : member n names ≡ true = ground (
        arith,
        member-affected_names has_entry n dir (q ∷ qs) r.host h,
        touches-member r.host.dep_graph n p (q ∷ qs) m g,
        live,
      ) in
      reload_affected-Queues names r reloaded (found names reloaded)

-- When a file that the graph of a loaded function holds has changed, a flush that was told of it queues
-- the function with the candidate that the discovery finds for it: with a consistent graph, a path
-- whose bytes are not those of the last flush, and a discovery that finds the function whatever else
-- it is asked for.
pub flush_paths-Queues :
    (digest : Text → Option Text) (has_entry : Text → Bool) (discover : List Text → List Candidate)
    (drains : Bool) (dir : Text) (raw : List Text) (n p : Text) (c : Candidate) (r : HotReloader)
    → IsConsistent r.host.dep_graph
    → JsMap.has n r.host.handles ≡ true
    → member p raw ≡ true
    → is_changed (digest p) (JsMap.get p r.content_digests) ≡ true
    → member p (graph_files r.host.dep_graph n) ≡ true
    → ((ns : List Text) → member n ns ≡ true → find_candidate n (discover ns) ≡ some c)
    → Queues n c (flush_paths digest has_entry discover drains dir raw r)
unfolding flush_paths
flush_paths-Queues digest has_entry discover drains dir raw n p c r h live m changed g found =
    let ds = r.content_digests in
    reload_changed-Queues discover drains n c digest has_entry dir p
      (filter_noop_paths digest (add_all raw []) ds).0
      (record r { content_digests = (filter_noop_paths digest (add_all raw []) ds).1 }) h live
      (ground (
        arith,
        member-filter_noop_paths digest p (add_all raw []) ds,
        member-add_all p raw [],
        m,
        changed,
      ))
      g found
