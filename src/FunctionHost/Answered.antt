-- ===== src/FunctionHost/Answered.antt =====
-- What a request that waits for a function gets: the outcome of `whenReady`.
use tube.Common.{
  ℕ, ◌≡◌, refl, ap, ◌∙◌, Bool, true, Option, none, some, is_some, List, [], ◌∷◌, ◌++◌, ◌==◌,
  eqb_iff, text_eq, nat_eq, arith, text_beq_iff, if◌then◌else◌,
}
use tube.Common.JsMap
use tube.Common.Text.{Text}
use tube.Registry.{WorkerFunctionHandle}
use tube.FunctionHost.{
  loading, Readiness, now_ready, timed_out, Wait, at_once, waiting, Claim, FunctionHost, waiters_of,
  waiters_or_none, answers, resolve_waiters, set_boot_state, settle_boot_state, is_in, is_booting,
  when_ready, when_state, add_waiter, prioritize, start_claim, imported, register_instance,
  reset_unless, end_of, end_taken, spawn_ends,
}
use tube.FunctionHost.Backed.{IsBacked, runs}
use tube.FunctionHost.Handles.{waited, booting-runs, when_ready-running}
use tube.FunctionHost.Waiting.{
  retire-waiters, reset_unless-waiters, taken_is, spawn_of, take_running-spawn_of,
}

-- The answer of a waiter, whose number is its own.
pub answer_of : ℕ → List (ℕ × Readiness) → Option Readiness
answer_of w [] = none
answer_of w (p ∷ ps) = elim (answer_of w ps) [
  | none ↦ if p.0 == w then some p.1 else none
  | some r ↦ some r
]

abbrev or_timed_out : Option Readiness → Readiness
or_timed_out none = timed_out
or_timed_out (some r) = r

-- The outcome of a wait in the host at its end; without an answer the timer of the waiter ends it.
pub outcome : Wait → FunctionHost → Readiness
unfolding answer_of
outcome (at_once r) s = r
outcome (waiting w) s = or_timed_out (answer_of w s.resolved)

answer_of-answers :
    (w : ℕ) (r : Readiness) (ws : List ℕ)
    → answer_of w (answers r ws) ≡ (if is_in w ws then some r else none)
unfolding answer_of is_in
answer_of-answers w r [] = refl
answer_of-answers w r (v ∷ ws) = ground (arith, answer_of-answers w r ws)

answer_of-append :
    (w : ℕ) (r : Readiness) (before after : List (ℕ × Readiness))
    → answer_of w after ≡ some r
    → answer_of w (before ++ after) ≡ some r
unfolding answer_of
answer_of-append w r [] after e = e
answer_of-append w r (p ∷ before) after e = ground (arith, answer_of-append w r before after e)

settle-answer_of :
    (name : Text) (s : FunctionHost) (w : ℕ)
    → is_in w (waiters_of name s) ≡ true
    → answer_of w (settle_boot_state name none s).resolved ≡ some now_ready
unfolding settle_boot_state resolve_waiters set_boot_state
settle-answer_of name s w e =
    answer_of-append w now_ready s.resolved (answers now_ready (waiters_of name s)) (
      answer_of-answers w now_ready (waiters_of name s)
      ∙ ap (λ b. if b then some now_ready else none) e)

end_of-answer_of :
    (drains : Bool) (c : Claim) (h : WorkerFunctionHandle) (s : FunctionHost) (w : ℕ)
    → is_in w (waiters_of c.candidate.name s) ≡ true
    → answer_of w (end_of drains c (imported h) s).resolved ≡ some now_ready
unfolding end_of register_instance
end_of-answer_of drains c h s w e =
    settle-answer_of c.candidate.name
      (reset_unless c.deferred c.candidate.name (register_instance drains c.candidate h s)) w
      (ap (λ m. is_in w (waiters_or_none (JsMap.get c.candidate.name m)))
          (reset_unless-waiters c.deferred c.candidate.name
              (register_instance drains c.candidate h s)
            ∙ retire-waiters drains (JsMap.get c.candidate.name s.handles) _)
        ∙ e)

end_taken-answer_of :
    (drains : Bool) (h : WorkerFunctionHandle) (name : Text) (t : Option (Claim × List Claim))
    (s : FunctionHost) (w : ℕ)
    → taken_is name t ≡ true
    → is_in w (waiters_of name s) ≡ true
    → answer_of w (end_taken drains (imported h) t s).resolved ≡ some now_ready
unfolding end_taken
end_taken-answer_of drains h name none s w is e = ground (arith, is)
end_taken-answer_of drains h name (some (c, others)) s w is e =
    end_of-answer_of drains c h (record s { running = others }) w
      (ap (λ n. is_in w (waiters_of n s)) ((text_beq_iff c.candidate.name name).0 is) ∙ e)

start_claim-loading :
    (name : Text) (o : Option Claim) (s : FunctionHost)
    → is_some o ≡ true
    → JsMap.get name (start_claim name o s).boot_states ≡ some loading
unfolding start_claim
start_claim-loading name none s e = ground (arith, e)
start_claim-loading name (some c) s e =
    ground (arith, JsMap.get-set name name loading s.boot_states, text_beq_iff name name)

-- A name that boots in a backed host is loading once it is prioritized.
prioritize-loading :
    (name : Text) (s : FunctionHost)
    → IsBacked s
    → is_booting (JsMap.get name s.boot_states) ≡ true
    → JsMap.get name (prioritize name s).boot_states ≡ some loading
unfolding prioritize
prioritize-loading name s h e =
    ground (arith, h name, e, start_claim-loading name (JsMap.get name s.pending_claims) s)

is_in-last : (w : ℕ) (ws : List ℕ) → is_in w (ws ++ w ∷ []) ≡ true
unfolding is_in
is_in-last w [] = ground (arith, eqb_iff w w)
is_in-last w (v ∷ ws) = ground (arith, is_in-last w ws)

-- A request for a loading name waits, and has a number among the waiters.
when_ready-waiting :
    (name : Text) (s : FunctionHost)
    → JsMap.get name s.boot_states ≡ some loading
    → ((when_ready name s).0 ≡ waiting s.next_id)
      × (is_in s.next_id (waiters_of name (when_ready name s).1) ≡ true)
unfolding when_ready when_state add_waiter
when_ready-waiting name s e =
    let added : JsMap.get name (JsMap.set name (waiters_of name s ++ s.next_id ∷ []) s.boot_waiters)
        ≡ some (waiters_of name s ++ s.next_id ∷ []) =
      ground (
        arith,
        JsMap.get-set name name (waiters_of name s ++ s.next_id ∷ []) s.boot_waiters,
        text_beq_iff name name,
      ) in
    rw (e, when_state)
      (
        refl,
        ap (λ o. is_in s.next_id (waiters_or_none o)) added
            ∙ is_in-last s.next_id (waiters_of name s),
      )

-- The wait of a request for a name that boots ends with `ready` when its spawn has imported it.
pub outcome-spawn_ends :
    (drains : Bool) (h : WorkerFunctionHandle) (name : Text) (s : FunctionHost)
    → IsBacked s
    → is_booting (JsMap.get name s.boot_states) ≡ true
    → outcome
        (when_ready name (prioritize name s)).0
        (spawn_ends drains (spawn_of name (waited name s).running) (imported h) (waited name s))
      ≡ now_ready
unfolding outcome spawn_ends waited
outcome-spawn_ends drains h name s b e =
    let kept = prioritize name s in
    let wait = when_ready-waiting name kept (prioritize-loading name s b e) in
    let answered =
      end_taken-answer_of drains h name _ (waited name s) kept.next_id
        (take_running-spawn_of name (waited name s).running
          (ap (runs name) (when_ready-running name kept) ∙ booting-runs name s e (b name)))
        wait.1 in
    ap
      (λ o.
        outcome o
          (spawn_ends drains (spawn_of name (waited name s).running) (imported h) (waited name s)))
      wait.0
    ∙ ap or_timed_out answered
