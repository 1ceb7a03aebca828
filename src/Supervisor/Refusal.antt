-- ===== src/Supervisor/Refusal.antt =====
-- A trip seen from the dispatcher: `record`, then `admit`.
use tube.Common.{ℕ, ◌+◌, ◌<◌, ◌≡◌, ◌≢◌, refl, ap, sym, ◌∙◌, Bool, true, some, leb, text_eq}
use tube.Common.JsMap
use tube.Common.Text.{Text}
use tube.Manifest.{FunctionManifest}
use tube.Supervisor.{FunctionSupervisor, get_state, store, record_state, record_outcome, admit}
use tube.Supervisor.Breaker.{trip-admit, state-store, manifests-store, admit_of_manifest}
use tube.Supervisor.Isolation.{Same, store-Same}

record_outcome-store :
    (name : Text) (error : Bool) (now : ℕ) (s : FunctionSupervisor) (m : FunctionManifest)
    → JsMap.get name s.manifests ≡ some m
    → ((record_outcome name error now s).0 ≡ (record_state (some m) error now (get_state name s)).0)
      × ((record_outcome name error now s).1
          ≡ store name (record_state (some m) error now (get_state name s)).1 s)
unfolding record_outcome
record_outcome-store name error now s m h = rw (h, record_outcome) (refl, refl)

-- After a `record` that trips the breaker, `admit` refuses until the cool-down is over.
pub record_outcome-admit :
    (name : Text) (error : Bool) (now later : ℕ) (s : FunctionSupervisor) (m : FunctionManifest)
    → JsMap.get name s.manifests ≡ some m
    → 0 < now
    → (record_outcome name error now s).0.breaker_just_tripped ≡ true
    → (admit name later (record_outcome name error now s).1).0.allowed
      ≡ leb (now + m.recycle.cooldown_ms) later
record_outcome-admit name error now later s m h pos trip =
    let (outcome, after) = record_outcome-store name error now s m h in
    let st = (record_state (some m) error now (get_state name s)).1 in
    let later_admit = (admit_of_manifest name later (store name st s) m (rw manifests-store h)).0 in
    rw (after, later_admit, state-store)
      (trip-admit m error now later (get_state name s) pos
        (ap (λ o. o.breaker_just_tripped) (sym outcome) ∙ trip)).0

pub record_outcome-Same :
    (name j : Text) (error : Bool) (now : ℕ) (s : FunctionSupervisor)
    → name ≢ j
    → Same j (record_outcome name error now s).1 s
record_outcome-Same name j error now s h = unfold record_outcome in store-Same name j _ s h
