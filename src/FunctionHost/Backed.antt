-- ===== src/FunctionHost/Backed.antt =====
-- What stands behind the boot state of each name, over any run of the host.
use tube.Common.{
  ℕ, ◌≡◌, refl, Bool, true, false, not, ◌&&◌, ◌||◌, Option, none, some, is_some, List, [], ◌∷◌,
  ◌++◌, if◌then◌else◌, any, filter, ◌==◌, text_eq, nat_eq, text_beq_iff, arith,
}
use tube.Common.JsMap
use tube.Common.JsMap.{JsMap}
use tube.Common.Text.{Text}
use tube.Registry.{WorkerFunctionHandle, worker_handle}
use tube.FunctionHost.{
  BootState, queued, loading, ready, failed, Candidate, Claim, FunctionHost, waiters_or_none,
  waiters_of, resolve_waiters, set_boot_state, settle_boot_state, forget_boot_state, add_waiter,
  when_state, when_ready, is_in, waiter_times_out, enqueue_claim, start_claim, prioritize,
  lane_takes,
}

abbrev is_nil : List ℕ → Bool
is_nil [] = true
is_nil (w ∷ ws) = false

abbrev pub runs : Text → List Claim → Bool
runs name cs = any (λ c. c.candidate.name == name) cs

-- Of a name's waiters, claim, spawns and handle, what its boot state needs: a queued name has a
-- claim, a loading one a spawn, a ready one a handle, and only the first two have waiters.
abbrev pub backs :
    Option BootState → List ℕ → Option Claim → Bool → Option WorkerFunctionHandle → Bool
backs none ws c r h = is_nil ws
backs (some queued) ws c r h = is_some c
backs (some loading) ws c r h = r
backs (some ready) ws c r h = is_nil ws && is_some h
backs (some failed) ws c r h = is_nil ws

-- The claim of a name is for that name.
abbrev pub is_keyed : Text → Option Claim → Bool
is_keyed name none = true
is_keyed name (some c) = c.candidate.name == name

abbrev pub is_backed : Text → FunctionHost → Bool
is_backed name s =
    is_keyed name (JsMap.get name s.pending_claims)
    && backs (JsMap.get name s.boot_states) (waiters_of name s) (JsMap.get name s.pending_claims)
        (runs name s.running) (worker_handle name s.registry)

abbrev pub IsBacked : FunctionHost → Type 0
IsBacked s = (name : Text) → is_backed name s ≡ true

-- `boot_waiters` of another name, and of the name itself.
waiters-delete :
    (name j : Text) (m : JsMap Text (List ℕ))
    → waiters_or_none (JsMap.get j (JsMap.delete name m))
      ≡ (if name == j then [] else waiters_or_none (JsMap.get j m))
waiters-delete name j m = ground (arith, JsMap.get-delete name j m)

-- Every name but one.
abbrev pub BackedBeside : Text → FunctionHost → Type 0
BackedBeside name s = (j : Text) → (name == j) ≡ false → is_backed j s ≡ true

pub beside : (name : Text) (s : FunctionHost) → IsBacked s → BackedBeside name s
beside name s h j ne = h j

pub settle_ready-IsBacked :
    (name : Text) (s : FunctionHost)
    → is_some (worker_handle name s.registry) ≡ true
    → is_keyed name (JsMap.get name s.pending_claims) ≡ true
    → BackedBeside name s
    → IsBacked (settle_boot_state name none s)
unfolding settle_boot_state resolve_waiters set_boot_state
settle_ready-IsBacked name s live keyed h j = ground (
  arith,
  waiters-delete name j s.boot_waiters,
  JsMap.get-set name j ready s.boot_states,
  h j,
  text_beq_iff name j,
  live,
  keyed,
)

pub settle_failed-IsBacked :
    (name error : Text) (s : FunctionHost)
    → is_keyed name (JsMap.get name s.pending_claims) ≡ true
    → BackedBeside name s
    → IsBacked (settle_boot_state name (some error) s)
unfolding settle_boot_state resolve_waiters set_boot_state
settle_failed-IsBacked name error s keyed h j = ground (
  arith,
  waiters-delete name j s.boot_waiters,
  JsMap.get-set name j failed s.boot_states,
  h j,
  text_beq_iff name j,
  keyed,
)

pub forget-IsBacked :
    (name : Text) (s : FunctionHost) → BackedBeside name s → IsBacked (forget_boot_state name s)
unfolding forget_boot_state resolve_waiters
forget-IsBacked name s h j = ground (
  arith,
  waiters-delete name j s.boot_waiters,
  JsMap.get-delete name j s.boot_states,
  JsMap.get-delete name j s.pending_claims,
  h j,
  text_beq_iff name j,
)

pub when_ready-IsBacked :
    (name : Text) (s : FunctionHost) → IsBacked s → IsBacked (when_ready name s).1
unfolding when_ready when_state add_waiter
when_ready-IsBacked name s h j = ground (
  arith,
  JsMap.get-set name j (waiters_of name s ++ s.next_id ∷ []) s.boot_waiters,
  h j,
  h name,
  text_beq_iff name j,
)

pub waiter_times_out-IsBacked :
    (name : Text) (w : ℕ) (s : FunctionHost) → IsBacked s → IsBacked (waiter_times_out name w s)
unfolding waiter_times_out is_in
waiter_times_out-IsBacked name w s h j = ground (
  arith,
  JsMap.get-set name j (filter (λ v. not (v == w)) (waiters_of name s)) s.boot_waiters,
  h j,
  text_beq_iff name j,
)

pub enqueue_claim-IsBacked :
    (deferred : Bool) (c : Candidate) (s : FunctionHost)
    → IsBacked s
    → IsBacked (enqueue_claim deferred c s)
unfolding enqueue_claim
enqueue_claim-IsBacked deferred c s h j = ground (
  arith,
  JsMap.get-set c.name j queued s.boot_states,
  JsMap.get-set c.name j (record { id = s.next_id; candidate = c; deferred = deferred })
      s.pending_claims,
  h j,
  text_beq_iff c.name j,
)

pub runs-append :
    (name : Text) (cs : List Claim) (c : Claim)
    → runs name (cs ++ c ∷ []) ≡ (runs name cs || c.candidate.name == name)
runs-append name [] c = ground arith
runs-append name (d ∷ cs) c = ground (arith, runs-append name cs c)

start_claim-backed :
    (name : Text) (s : FunctionHost) (o : Option Claim)
    → JsMap.get name s.pending_claims ≡ o
    → IsBacked s
    → (j : Text) → is_backed j (start_claim name o s) ≡ true
unfolding start_claim
start_claim-backed name s none e h j = h j
start_claim-backed name s (some c) e h j = ground (
  arith,
  JsMap.get-set name j loading s.boot_states,
  JsMap.get-delete name j s.pending_claims,
  runs-append j s.running c,
  h j,
  h name,
  e,
  text_beq_iff name j,
  text_beq_iff c.candidate.name j,
  text_beq_iff c.candidate.name name,
)

start_claim-IsBacked :
    (name : Text) (s : FunctionHost)
    → IsBacked s
    → IsBacked (start_claim name (JsMap.get name s.pending_claims) s)
start_claim-IsBacked name s = start_claim-backed name s (JsMap.get name s.pending_claims) refl

pub prioritize-IsBacked :
    (name : Text) (s : FunctionHost) → IsBacked s → IsBacked (prioritize name s)
unfolding prioritize
prioritize-IsBacked name s h j = ground (arith, h j, start_claim-IsBacked name s h j)

pub lane_takes-IsBacked :
    (name : Text) (id : ℕ) (s : FunctionHost) → IsBacked s → IsBacked (lane_takes name id s)
unfolding lane_takes
lane_takes-IsBacked name id s h j = ground (arith, h j, start_claim-IsBacked name s h j)
