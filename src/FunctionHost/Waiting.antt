-- ===== src/FunctionHost/Waiting.antt =====
-- Requests that wait for a function, and the spawns that answer them.
use tube.Common.{
  ℕ, zero, suc, ◌≡◌, refl, ap, ◌∙◌, Bool, true, false, ◌&&◌, ◌||◌, Option, none, some, is_some,
  List, [], ◌∷◌, ◌++◌, any, ◌==◌, text_eq, nat_eq, arith, text_beq_iff, if◌then◌else◌,
}
use tube.Common.JsMap
use tube.Common.JsMap.{JsMap}
use tube.Common.Text.{Text}
use tube.Registry.{WorkerFunctionHandle}
use tube.FunctionHost.{
  Readiness, now_ready, timed_out, load_failed, unknown_name, Claim, FunctionHost, waiters_of,
  waiters_or_none, answers, resolve_waiters, set_boot_state, settle_boot_state, is_in, put_back,
  take_running, retire, register_instance, Spawned, imported, import_failed, reset_unless, end_of,
  end_taken, spawn_ends, start_claim, prioritize,
}
use tube.FunctionHost.Backed.{runs, is_keyed, is_backed, IsBacked, runs-append}

abbrev pub readiness_of : Spawned → Readiness
readiness_of (imported h) = now_ready
readiness_of (import_failed error) = load_failed

abbrev same_readiness : Readiness → Readiness → Bool
same_readiness now_ready now_ready = true
same_readiness timed_out timed_out = true
same_readiness load_failed load_failed = true
same_readiness unknown_name unknown_name = true
same_readiness _ _ = false

-- The promise of a waiter has been resolved with an answer.
abbrev pub has_answer : ℕ → Readiness → FunctionHost → Bool
has_answer w r s = any (λ p. p.0 == w && same_readiness p.1 r) s.resolved

same_readiness_self : (r : Readiness) → same_readiness r r ≡ true
same_readiness_self now_ready = refl
same_readiness_self timed_out = refl
same_readiness_self load_failed = refl
same_readiness_self unknown_name = refl

any-answers :
    (w : ℕ) (r : Readiness) (ws : List ℕ) (before : List (ℕ × Readiness))
    → is_in w ws ≡ true
    → any (λ p. p.0 == w && same_readiness p.1 r) (before ++ answers r ws) ≡ true
unfolding is_in
any-answers w r [] [] e = ground (arith, e)
any-answers w r (v ∷ ws) [] e = ground (arith, e, any-answers w r ws [], same_readiness_self r)
any-answers w r ws (p ∷ before) e = ground (arith, any-answers w r ws before e)

pub retire-waiters :
    (drains : Bool) (o : Option WorkerFunctionHandle) (s : FunctionHost)
    → (retire drains o s).boot_waiters ≡ s.boot_waiters
unfolding retire
retire-waiters drains none s = refl
retire-waiters true (some old) s = refl
retire-waiters false (some old) s = refl

pub reset_unless-waiters :
    (deferred : Bool) (name : Text) (s : FunctionHost)
    → (reset_unless deferred name s).boot_waiters ≡ s.boot_waiters
unfolding reset_unless
reset_unless-waiters true name s = refl
reset_unless-waiters false name s = refl

settle-has_answer :
    (name : Text) (s : FunctionHost) (w : ℕ)
    → is_in w (waiters_of name s) ≡ true
    → has_answer w now_ready (settle_boot_state name none s) ≡ true
unfolding settle_boot_state resolve_waiters set_boot_state
settle-has_answer name s w e = any-answers w now_ready (waiters_of name s) s.resolved e

settle_failed-has_answer :
    (name error : Text) (s : FunctionHost) (w : ℕ)
    → is_in w (waiters_of name s) ≡ true
    → has_answer w load_failed (settle_boot_state name (some error) s) ≡ true
unfolding settle_boot_state resolve_waiters set_boot_state
settle_failed-has_answer name error s w e =
    any-answers w load_failed (waiters_of name s) s.resolved e

end_of-has_answer :
    (drains : Bool) (c : Claim) (r : Spawned) (s : FunctionHost) (w : ℕ)
    → is_in w (waiters_of c.candidate.name s) ≡ true
    → has_answer w (readiness_of r) (end_of drains c r s) ≡ true
unfolding end_of register_instance
end_of-has_answer drains c (imported h) s w e =
    settle-has_answer c.candidate.name
      (reset_unless c.deferred c.candidate.name (register_instance drains c.candidate h s)) w
      (ap (λ m. is_in w (waiters_or_none (JsMap.get c.candidate.name m)))
          (reset_unless-waiters c.deferred c.candidate.name
              (register_instance drains c.candidate h s)
            ∙ retire-waiters drains (JsMap.get c.candidate.name s.handles) _)
        ∙ e)
end_of-has_answer drains c (import_failed error) s w e =
    settle_failed-has_answer c.candidate.name error (reset_unless c.deferred c.candidate.name s) w (
      ap (λ m. is_in w (waiters_or_none (JsMap.get c.candidate.name m)))
        (reset_unless-waiters c.deferred c.candidate.name s)
      ∙ e)

start_claim-waiters :
    (name : Text) (o : Option Claim) (s : FunctionHost)
    → (start_claim name o s).boot_waiters ≡ s.boot_waiters
unfolding start_claim
start_claim-waiters name none s = refl
start_claim-waiters name (some c) s = refl

prioritize-waiters :
    (name : Text) (s : FunctionHost) → (prioritize name s).boot_waiters ≡ s.boot_waiters
unfolding prioritize
prioritize-waiters name s =
    ground (arith, start_claim-waiters name (JsMap.get name s.pending_claims) s)

pub start_claim-runs :
    (name : Text) (o : Option Claim) (s : FunctionHost)
    → is_some o ≡ true
    → is_keyed name o ≡ true
    → runs name (start_claim name o s).running ≡ true
unfolding start_claim
start_claim-runs name none s live keyed = ground (arith, live)
start_claim-runs name (some c) s live keyed = ground (arith, runs-append name s.running c, keyed)

-- A name with a waiter has a spawn once it is prioritized.
prioritize-runs :
    (name : Text) (s : FunctionHost) (w : ℕ)
    → is_in w (waiters_of name s) ≡ true
    → is_backed name s ≡ true
    → runs name (prioritize name s).running ≡ true
unfolding prioritize is_in
prioritize-runs name s w e h =
    ground (arith, start_claim-runs name (JsMap.get name s.pending_claims) s, e, h)

-- The index of the first spawn of a name.
unfoldable pub spawn_of : Text → List Claim → ℕ
spawn_of name [] = zero
spawn_of name (c ∷ cs) =
    let rest = spawn_of name cs in if c.candidate.name == name then zero else suc rest

abbrev pub taken_is : Text → Option (Claim × List Claim) → Bool
taken_is name none = false
taken_is name (some (c, others)) = c.candidate.name == name

taken_is-put_back :
    (name : Text) (c : Claim) (t : Option (Claim × List Claim))
    → taken_is name (put_back c t) ≡ taken_is name t
taken_is-put_back name c none = refl
taken_is-put_back name c (some (d, ds)) = refl

first-spawn :
    (name : Text) (c : Claim) (cs : List Claim) (b : Bool)
    → (c.candidate.name == name) ≡ b
    → (b || runs name cs) ≡ true
    → (runs name cs ≡ true → taken_is name (take_running (spawn_of name cs) cs) ≡ true)
    → taken_is name (take_running (if b then zero else suc (spawn_of name cs)) (c ∷ cs)) ≡ true
unfolding take_running
first-spawn name c cs true is e rest = is
first-spawn name c cs false is e rest =
    taken_is-put_back name c (take_running (spawn_of name cs) cs) ∙ rest e

pub take_running-spawn_of :
    (name : Text) (cs : List Claim)
    → runs name cs ≡ true
    → taken_is name (take_running (spawn_of name cs) cs) ≡ true
unfolding take_running spawn_of
take_running-spawn_of name [] e = ground (arith, e)
take_running-spawn_of name (c ∷ cs) e =
    first-spawn name c cs (c.candidate.name == name) refl e (take_running-spawn_of name cs)

end_taken-has_answer :
    (drains : Bool) (r : Spawned) (name : Text) (t : Option (Claim × List Claim)) (s : FunctionHost)
    (w : ℕ)
    → taken_is name t ≡ true
    → is_in w (waiters_of name s) ≡ true
    → has_answer w (readiness_of r) (end_taken drains r t s) ≡ true
unfolding end_taken
end_taken-has_answer drains r name none s w is e = ground (arith, is)
end_taken-has_answer drains r name (some (c, others)) s w is e =
    end_of-has_answer drains c r (record s { running = others }) w
      (ap (λ n. is_in w (waiters_of n s)) ((text_beq_iff c.candidate.name name).0 is) ∙ e)

-- In a host whose names are backed, a request that waits for a function is never left behind: once
-- the server has prioritized the name, a spawn of it runs, and when that spawn ends the request has
-- its answer, `ready` if the import has succeeded and `failed` if it threw.
pub spawn_ends-has_answer :
    (drains : Bool) (r : Spawned) (name : Text) (w : ℕ) (s : FunctionHost)
    → IsBacked s
    → is_in w (waiters_of name s) ≡ true
    → has_answer w
        (readiness_of r)
        (spawn_ends drains (spawn_of name (prioritize name s).running) r (prioritize name s))
      ≡ true
unfolding spawn_ends
spawn_ends-has_answer drains r name w s h e =
    end_taken-has_answer drains r name _ (prioritize name s) w
      (take_running-spawn_of name (prioritize name s).running (prioritize-runs name s w e (h name)))
      (ap (λ m. is_in w (waiters_or_none (JsMap.get name m))) (prioritize-waiters name s) ∙ e)
