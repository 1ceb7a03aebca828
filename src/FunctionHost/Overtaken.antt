-- ===== src/FunctionHost/Overtaken.antt =====
-- A reload while an older spawn of the same function still runs.
use tube.Common.{
  ◌≡◌, refl, ap, sym, ◌∙◌, ℕ, Bool, true, Option, none, some, List, text_eq, arith, text_beq_iff,
}
use tube.Common.JsMap
use tube.Common.JsMap.{JsMap}
use tube.Common.Text.{Text}
use tube.Registry.{WorkerFunctionHandle}
use tube.FunctionHost.{
  BootState, ready, Claim, FunctionHost, resolve_waiters, set_boot_state, settle_boot_state,
  take_running, register_instance, imported, reset_unless, end_of, end_taken, spawn_ends,
  prioritize,
}
use tube.FunctionHost.Spawns.{reset_unless-pending, register_instance-pending}
use tube.FunctionHost.Waiting.{taken_is}

-- The boot state and the claim of a name.
unfoldable pub Shows : Text → Option BootState → Option Claim → FunctionHost → Type 0
Shows name b c s = (JsMap.get name s.boot_states ≡ b) × (JsMap.get name s.pending_claims ≡ c)

settle-Shows :
    (name : Text) (s : FunctionHost)
    → Shows name (some ready) (JsMap.get name s.pending_claims) (settle_boot_state name none s)
unfolding Shows settle_boot_state resolve_waiters set_boot_state
settle-Shows name s =
    (ground (arith, JsMap.get-set name name ready s.boot_states, text_beq_iff name name), refl)

end_of-pending :
    (drains : Bool) (c : Claim) (h : WorkerFunctionHandle) (s : FunctionHost)
    → (reset_unless c.deferred c.candidate.name
        (register_instance drains c.candidate h s)).pending_claims
      ≡ s.pending_claims
end_of-pending drains c h s =
    reset_unless-pending c.deferred c.candidate.name (register_instance drains c.candidate h s)
    ∙ register_instance-pending drains c.candidate h s

pub end_taken-Shows :
    (drains : Bool) (h : WorkerFunctionHandle) (name : Text) (t : Option (Claim × List Claim))
    (s : FunctionHost)
    → taken_is name t ≡ true
    → Shows name (some ready) (JsMap.get name s.pending_claims) (end_taken drains (imported h) t s)
unfolding end_taken end_of Shows
end_taken-Shows drains h name none s is = ground (arith, is)
end_taken-Shows drains h name (some (c, others)) s is =
    let same : c.candidate.name ≡ name = (text_beq_iff c.candidate.name name).0 is in
    let s' = record s { running = others } in
    let shown =
      settle-Shows c.candidate.name
        (reset_unless c.deferred c.candidate.name (register_instance drains c.candidate h s')) in
    (
      ap (λ n. JsMap.get n (end_of drains c (imported h) s').boot_states) (sym same) ∙ shown.0,
      ap (λ n. JsMap.get n (end_of drains c (imported h) s').pending_claims) (sym same)
          ∙ shown.1
          ∙ ap (λ p. JsMap.get c.candidate.name p) (end_of-pending drains c h s')
          ∙ ap (λ n. JsMap.get n s.pending_claims) same,
    )

prioritize-ready :
    (name : Text) (s : FunctionHost)
    → JsMap.get name s.boot_states ≡ some ready
    → prioritize name s ≡ s
unfolding prioritize
prioritize-ready name s e = ground (arith, e)

-- When a spawn of a name ends well while a newer claim of the name is pending, whose code is not
-- loaded yet, the name is `ready` all the same, the claim stays pending, and a request that
-- prioritizes the name does not start it.
pub spawn_ends-overtaken :
    (drains : Bool) (i : ℕ) (h : WorkerFunctionHandle) (name : Text) (newer : Claim)
    (s : FunctionHost)
    → JsMap.get name s.pending_claims ≡ some newer
    → taken_is name (take_running i s.running) ≡ true
    → let s' = spawn_ends drains i (imported h) s in
      (JsMap.get name s'.boot_states ≡ some ready)
      × (JsMap.get name s'.pending_claims ≡ some newer)
      × (prioritize name s' ≡ s')
unfolding spawn_ends Shows
spawn_ends-overtaken drains i h name newer s pending is =
    let shown = end_taken-Shows drains h name (take_running i s.running) s is in
    (shown.0, shown.1 ∙ pending, prioritize-ready name _ shown.0)
