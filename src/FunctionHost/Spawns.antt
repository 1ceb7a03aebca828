-- ===== src/FunctionHost/Spawns.antt =====
-- The ends of the spawns, and what stands behind the boot states after them.
use tube.Common.{
  ℕ, zero, suc, ◌≡◌, refl, ap, ◌∙◌, Bool, true, false, ◌||◌, Option, none, some, is_some, List, [],
  ◌∷◌, if◌then◌else◌, ◌==◌, text_eq, nat_eq, text_beq_iff, arith, beq_self,
}
use tube.Common.JsMap
use tube.Common.JsMap.{JsMap}
use tube.Common.Text.{Text}
use tube.Registry.{
  WorkerFunctionHandle, FunctionRegistry, worker_handle, set_worker_handle, register_candidate,
  candidate,
}
use tube.FunctionHost.{
  Candidate, Claim, FunctionHost, put_back, take_running, retire, refreshed, register_instance,
  Spawned, imported, import_failed, reset_unless, end_of, end_taken, spawn_ends,
}
use tube.FunctionHost.Backed.{
  runs, is_keyed, is_backed, IsBacked, BackedBeside, settle_ready-IsBacked, settle_failed-IsBacked,
}

pub retire-backed :
    (drains : Bool) (o : Option WorkerFunctionHandle) (s : FunctionHost) (j : Text)
    → is_backed j (retire drains o s) ≡ is_backed j s
unfolding retire
retire-backed drains none s j = refl
retire-backed true (some old) s j = refl
retire-backed false (some old) s j = refl

reset_unless-backed :
    (deferred : Bool) (name : Text) (s : FunctionHost) (j : Text)
    → is_backed j (reset_unless deferred name s) ≡ is_backed j s
unfolding reset_unless
reset_unless-backed true name s j = refl
reset_unless-backed false name s j = refl

worker_handle-refreshed :
    (c : Candidate) (h : WorkerFunctionHandle) (b : Bool) (r : FunctionRegistry) (j : Text)
    → worker_handle j (refreshed c h b r) ≡ worker_handle j r
unfolding register_candidate worker_handle
worker_handle-refreshed c h false r j = refl
worker_handle-refreshed c h true r j = refl

retire-registry :
    (drains : Bool) (o : Option WorkerFunctionHandle) (s : FunctionHost)
    → (retire drains o s).registry ≡ s.registry
unfolding retire
retire-registry drains none s = refl
retire-registry true (some old) s = refl
retire-registry false (some old) s = refl

pub reset_unless-registry :
    (deferred : Bool) (name : Text) (s : FunctionHost)
    → (reset_unless deferred name s).registry ≡ s.registry
unfolding reset_unless
reset_unless-registry true name s = refl
reset_unless-registry false name s = refl

pub reset_unless-pending :
    (deferred : Bool) (name : Text) (s : FunctionHost)
    → (reset_unless deferred name s).pending_claims ≡ s.pending_claims
unfolding reset_unless
reset_unless-pending true name s = refl
reset_unless-pending false name s = refl

retire-pending :
    (drains : Bool) (o : Option WorkerFunctionHandle) (s : FunctionHost)
    → (retire drains o s).pending_claims ≡ s.pending_claims
unfolding retire
retire-pending drains none s = refl
retire-pending true (some old) s = refl
retire-pending false (some old) s = refl

pub register_instance-pending :
    (drains : Bool) (c : Candidate) (h : WorkerFunctionHandle) (s : FunctionHost)
    → (register_instance drains c h s).pending_claims ≡ s.pending_claims
unfolding register_instance
register_instance-pending drains c h s = retire-pending drains (JsMap.get c.name s.handles) _

-- The instance is what requests for its name find, and those of other names stay.
pub worker_handle-register_instance :
    (drains : Bool) (c : Candidate) (h : WorkerFunctionHandle) (s : FunctionHost) (j : Text)
    → worker_handle j (register_instance drains c h s).registry
      ≡ (if c.name == j then some h else worker_handle j s.registry)
unfolding register_instance set_worker_handle worker_handle
worker_handle-register_instance drains c h s j =
    ap (worker_handle j) (retire-registry drains (JsMap.get c.name s.handles) _)
    ∙ worker_handle-refreshed c h _ _ j
    ∙ JsMap.get-set c.name j h s.registry.worker_handles

register_instance-BackedBeside :
    (drains : Bool) (c : Candidate) (h : WorkerFunctionHandle) (s : FunctionHost)
    → BackedBeside c.name s
    → BackedBeside c.name (register_instance drains c h s)
unfolding register_instance set_worker_handle worker_handle
register_instance-BackedBeside drains c h s b j ne =
    retire-backed drains (JsMap.get c.name s.handles) _ j
    ∙ ground (
      arith,
      worker_handle-refreshed c h
          (is_some (candidate c.name (set_worker_handle c.name h s.registry)))
          (set_worker_handle c.name h s.registry) j,
      JsMap.get-set c.name j h s.registry.worker_handles,
      b j ne,
      ne,
      text_beq_iff c.name j,
    )

end_of-IsBacked :
    (drains : Bool) (c : Claim) (r : Spawned) (s : FunctionHost)
    → is_keyed c.candidate.name (JsMap.get c.candidate.name s.pending_claims) ≡ true
    → BackedBeside c.candidate.name s
    → IsBacked (end_of drains c r s)
unfolding end_of
end_of-IsBacked drains c (imported h) s keyed b =
    settle_ready-IsBacked c.candidate.name
      (reset_unless c.deferred c.candidate.name (register_instance drains c.candidate h s))
      (ap (λ r. is_some (worker_handle c.candidate.name r))
          (reset_unless-registry c.deferred c.candidate.name
            (register_instance drains c.candidate h s))
        ∙ ground (
          arith,
          worker_handle-register_instance drains c.candidate h s c.candidate.name,
          beq_self c.candidate.name,
        ))
      (ap (λ p. is_keyed c.candidate.name (JsMap.get c.candidate.name p))
          (reset_unless-pending c.deferred c.candidate.name
              (register_instance drains c.candidate h s)
            ∙ register_instance-pending drains c.candidate h s)
        ∙ keyed)
      (λ j ne.
        reset_unless-backed c.deferred c.candidate.name (register_instance drains c.candidate h s) j
        ∙ register_instance-BackedBeside drains c.candidate h s b j ne)
end_of-IsBacked drains c (import_failed error) s keyed b =
    settle_failed-IsBacked c.candidate.name error (reset_unless c.deferred c.candidate.name s)
      (ap (λ p. is_keyed c.candidate.name (JsMap.get c.candidate.name p))
          (reset_unless-pending c.deferred c.candidate.name s)
        ∙ keyed)
      (λ j ne. reset_unless-backed c.deferred c.candidate.name s j ∙ b j ne)

abbrev taken_or : Claim → Option (Claim × List Claim) → Claim × List Claim
taken_or d none = (d, [])
taken_or d (some t) = t

runs-put_back :
    (d : Claim) (cs : List Claim) (rest : Option (Claim × List Claim)) (c : Claim)
    (others : List Claim) (j : Text)
    → ((ds : List Claim) → rest ≡ some (c, ds) → runs j cs ≡ (runs j ds || c.candidate.name == j))
    → put_back d rest ≡ some (c, others)
    → runs j (d ∷ cs) ≡ (runs j others || c.candidate.name == j)
runs-put_back d cs none c others j ih e = ground (arith, e)
runs-put_back d cs (some (c', ds)) c others j ih e =
    let same : c' ≡ c = ap (λ o. (taken_or d o).0) e in
    let left : d ∷ ds ≡ others = ap (λ o. (taken_or d o).1) e in
    ap (λ b. d.candidate.name == j || b) (ih ds (ap (λ x. some (x, ds)) same))
    ∙ ground (arith)
    ∙ ap (λ xs. runs j xs || c.candidate.name == j) left

-- The spawns beside the one that is taken.
runs-take_running :
    (i : ℕ) (cs : List Claim) (c : Claim) (others : List Claim) (j : Text)
    → take_running i cs ≡ some (c, others)
    → runs j cs ≡ (runs j others || c.candidate.name == j)
unfolding take_running
runs-take_running i [] c others j e = ground (arith, e)
runs-take_running zero (d ∷ cs) c others j e =
    let same : d ≡ c = ap (λ o. (taken_or d o).0) e in
    let left : cs ≡ others = ap (λ o. (taken_or d o).1) e in
    ground (arith)
    ∙ ap (λ xs. runs j xs || d.candidate.name == j) left
    ∙ ap (λ x. runs j others || x.candidate.name == j) same
runs-take_running (suc i) (d ∷ cs) c others j e =
    runs-put_back d cs (take_running i cs) c others j (λ ds. runs-take_running i cs c ds j) e

end_taken-IsBacked :
    (drains : Bool) (r : Spawned) (s : FunctionHost) (i : ℕ) (t : Option (Claim × List Claim))
    → take_running i s.running ≡ t
    → IsBacked s
    → IsBacked (end_taken drains r t s)
unfolding end_taken
end_taken-IsBacked drains r s i none e h = h
end_taken-IsBacked drains r s i (some (c, others)) e h =
    end_of-IsBacked drains c r (record s { running = others }) (ground (arith, h c.candidate.name))
      (λ j ne. ground (arith, h j, runs-take_running i s.running c others j e, ne))

pub spawn_ends-IsBacked :
    (drains : Bool) (i : ℕ) (r : Spawned) (s : FunctionHost)
    → IsBacked s
    → IsBacked (spawn_ends drains i r s)
unfolding spawn_ends
spawn_ends-IsBacked drains i r s = end_taken-IsBacked drains r s i (take_running i s.running) refl
