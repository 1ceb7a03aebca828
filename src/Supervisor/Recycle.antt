-- ===== src/Supervisor/Recycle.antt =====
-- The recycle recommendation of `record`: made once, at the invocation that `maxRequests` names.
use tube.Common.{
  ℕ, suc, ◌+◌, ◌≡◌, Bool, not, ◌&&◌, some, List, [], ◌∷◌, arith, ltb, leb, eqb, length,
  if◌then◌else◌,
}
use tube.Manifest.{FunctionManifest}
use tube.Supervisor.{SupervisorState, Outcome, should_recycle, record_state, fresh}

-- Whether `n` invocations are enough for the recommendation.
abbrev pub due : FunctionManifest → ℕ → Bool
due m n = ltb 0 m.recycle.max_requests && leb m.recycle.max_requests n

-- The outcomes of one `record` after another.
pub outcomes : FunctionManifest → List (Bool × ℕ) → SupervisorState → List Outcome
outcomes m [] st = []
outcomes m ((error, now) ∷ events) st =
    (record_state (some m) error now st).0
    ∷ outcomes m events (record_state (some m) error now st).1

abbrev pub recommendations : List Outcome → ℕ
recommendations [] = 0
recommendations (o ∷ l) =
    if o.recycle_just_recommended then suc (recommendations l) else recommendations l

pub record_state-recycle :
    (m : FunctionManifest) (error : Bool) (now : ℕ) (st : SupervisorState)
    → st.recycle_recommended ≡ due m st.invocations
    → ((record_state (some m) error now st).0.recycle_just_recommended
        ≡ (ltb 0 m.recycle.max_requests && eqb m.recycle.max_requests (st.invocations + 1)))
      × ((record_state (some m) error now st).1.recycle_recommended
          ≡ due m (record_state (some m) error now st).1.invocations)
      × ((record_state (some m) error now st).1.invocations ≡ st.invocations + 1)
unfolding record_state should_recycle
record_state-recycle m error now st e = ground arith

recommendations-outcomes_from :
    (m : FunctionManifest) (events : List (Bool × ℕ)) (st : SupervisorState)
    → st.recycle_recommended ≡ due m st.invocations
    → recommendations (outcomes m events st)
      ≡ (if due m (st.invocations + length events) && not (due m st.invocations) then 1 else 0)
unfolding outcomes
recommendations-outcomes_from m [] st e = ground arith
recommendations-outcomes_from m ((error, now) ∷ events) st e = ground (
  arith,
  record_state-recycle m error now st e,
  recommendations-outcomes_from m events (record_state (some m) error now st).1
      (record_state-recycle m error now st e).1,
)

-- From a fresh state, any run of `record` recommends a recycle exactly once if it has at least
-- `maxRequests` outcomes and `maxRequests` is positive, and never otherwise.
pub recommendations-outcomes :
    (m : FunctionManifest) (events : List (Bool × ℕ))
    → recommendations (outcomes m events fresh) ≡ (if due m (length events) then 1 else 0)
recommendations-outcomes m events =
    ground (arith, recommendations-outcomes_from m events fresh (ground arith))
