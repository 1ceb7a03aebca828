-- ===== src/Supervisor/Isolation.antt =====
-- The functions do not disturb one another: a call about one name leaves every other name's state
-- and manifest alone.
use tube.Common.{
  ℕ, ◌≡◌, ◌≢◌, refl, ◌∙◌, Bool, Option-cases, inl, inr, List, [], ◌∷◌, text_eq, beq_ne, All,
}
use tube.Common.JsMap
use tube.Common.Text.{Text}
use tube.Manifest.{FunctionManifest}
use tube.Supervisor.{
  FunctionSupervisor, SupervisorState, set_manifest, forget, reset, admit, record_outcome, stats,
  store,
}

-- A call of a method that writes, with its arguments.
pub data Call : Type 0 where
  set_manifest_of : Text → FunctionManifest → Call
  forget_of : Text → Call
  reset_of : Text → Call
  admit_of : Text → ℕ → Call
  record_of : Text → Bool → ℕ → Call
  stats_of : Text → Call

abbrev pub about : Call → Text
about (set_manifest_of name m) = name
about (forget_of name) = name
about (reset_of name) = name
about (admit_of name now) = name
about (record_of name error now) = name
about (stats_of name) = name

pub perform : Call → FunctionSupervisor → FunctionSupervisor
perform (set_manifest_of name m) s = set_manifest name m s
perform (forget_of name) s = forget name s
perform (reset_of name) s = reset name s
perform (admit_of name now) s = (admit name now s).1
perform (record_of name error now) s = (record_outcome name error now s).1
perform (stats_of name) s = (stats name s).1

pub perform_all : List Call → FunctionSupervisor → FunctionSupervisor
perform_all [] s = s
perform_all (c ∷ cs) s = perform_all cs (perform c s)

-- What the supervisor holds of a name.
abbrev pub Same : Text → FunctionSupervisor → FunctionSupervisor → Type 0
Same j s t =
    (JsMap.get j s.states ≡ JsMap.get j t.states)
    × (JsMap.get j s.manifests ≡ JsMap.get j t.manifests)

pub store-Same :
    (name j : Text) (st : SupervisorState) (s : FunctionSupervisor)
    → name ≢ j
    → Same j (store name st s) s
unfolding store
store-Same name j st s h = (rw (JsMap.get-set, beq_ne name j h) refl, refl)

pub admit-Same :
    (name j : Text) (now : ℕ) (s : FunctionSupervisor) → name ≢ j → Same j (admit name now s).1 s
unfolding admit
admit-Same name j now s h = elim (Option-cases (JsMap.get name s.manifests)) [
  | inl free ↦ rw (free, admit) (refl, refl)
  | inr (m, found) ↦
      rw (found, admit) (unfold store in (rw (JsMap.get-set, beq_ne name j h) refl, refl))
]

pub perform-Same :
    (c : Call) (j : Text) (s : FunctionSupervisor) → about c ≢ j → Same j (perform c s) s
unfolding perform set_manifest forget reset record_outcome stats
perform-Same (set_manifest_of name m) j s h = (refl, rw (JsMap.get-set, beq_ne name j h) refl)
perform-Same (forget_of name) j s h =
    (rw (JsMap.get-delete, beq_ne name j h) refl, rw (JsMap.get-delete, beq_ne name j h) refl)
perform-Same (reset_of name) j s h = (rw (JsMap.get-delete, beq_ne name j h) refl, refl)
perform-Same (admit_of name now) j s h = admit-Same name j now s h
perform-Same (record_of name error now) j s h = store-Same name j _ s h
perform-Same (stats_of name) j s h = store-Same name j _ s h

-- After any calls about other names, a name has the state and the manifest that it had.
pub perform_all-Same :
    (cs : List Call) (j : Text) (s : FunctionSupervisor)
    → All (λ c. about c ≢ j) cs
    → Same j (perform_all cs s) s
unfolding perform_all
perform_all-Same [] j s h = (refl, refl)
perform_all-Same (c ∷ cs) j s h =
    let (states, manifests) = perform_all-Same cs j (perform c s) h.1 in
    let (state, manifest) = perform-Same c j s h.0 in (states ∙ state, manifests ∙ manifest)
