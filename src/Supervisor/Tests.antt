-- ===== src/Supervisor/Tests.antt =====
-- The breaker at concrete inputs: a manifest that trips at two errors out of four.
use tube.Common.{
  ℕ, ◌+◌, ◌*◌, ◌<◌, ◌≤◌, ◌≡◌, ◌↔◌, ◌≢◌, refl, Bool, true, false, some, List, [], ◌∷◌, ◌++◌, arith,
  length, if◌then◌else◌, text_eq, text_beq_iff,
}
use tube.Common.JsMap
use tube.Common.JsMap.{JsMap}
use tube.Common.Text.{codes}
use tube.Manifest.{FunctionManifest, default_manifest}
use tube.Supervisor.{
  SupervisorState, FunctionSupervisor, fresh, record_state, admit_state, error_bit, admit,
}
use tube.Supervisor.Breaker.{RateReached, record_state-trips_iff, admit-retry}

abbrev strict : FunctionManifest
strict = record default_manifest {
  recycle = record {
    max_requests = 2;
    error_rate = record { num = 1; den = 1 };
    error_window = 4;
    cooldown_ms = 1500;
  };
}

abbrev three : SupervisorState
three = record fresh { invocations = 3; errors = 1; window = 0 ∷ 1 ∷ 0 ∷ [] }

abbrev tripped : SupervisorState
tripped = record fresh {
  invocations = 4;
  errors = 2;
  window = 0 ∷ 1 ∷ 0 ∷ 1 ∷ [];
  recycle_recommended = true;
  breaker_opened_at = 9000;
}

abbrev events : List (Bool × ℕ)
events = (false, 1) ∷ (true, 2) ∷ (false, 3) ∷ (true, 9000) ∷ (true, 9001) ∷ []

abbrev gateway : FunctionSupervisor
gateway = record {
  states = (codes "chat", tripped) ∷ (codes "echo", three) ∷ [];
  manifests = (codes "chat", strict) ∷ [];
}

trips : (record_state (some strict) true 9000 three).0.breaker_just_tripped ≡ true
unfolding record_state
trips = refl

record_state-trips_iff_example :
    (((record_state (some strict) true 9000 three).0.breaker_just_tripped ≡ true) ↔ (
      (three.breaker_opened_at ≡ 0)
      × (4 ≤ length {A = ℕ} (0 ∷ 1 ∷ 0 ∷ []) + 1)
      × (0 < 1)
      × RateReached strict ((0 ∷ 1 ∷ 0 ∷ []) ++ error_bit true ∷ [])))
    × ((record_state (some strict) true 9000 three).1.breaker_opened_at
        ≡ (if (record_state (some strict) true 9000 three).0.breaker_just_tripped then 9000 else 0))
record_state-trips_iff_example =
    record_state-trips_iff strict true 9000 three (0 ∷ 1 ∷ 0 ∷ []) (omega arith) refl

refused : (admit (codes "chat") 9500 gateway).0.allowed ≡ false
unfolding admit JsMap.get
refused = refl

admit-retry_example :
    (r : ℕ) × ((admit (codes "chat") 9500 gateway).0.retry_after ≡ some r)
    × ((admit (codes "chat") 9500 gateway).0.status ≡ some 503)
    × (0 < r)
    × ((admit (codes "chat") (9500 + r * 1000) (admit (codes "chat") 9500 gateway).1).0.allowed
        ≡ true)
admit-retry_example = admit-retry (codes "chat") 9500 gateway refused

let_through : (admit_state strict 10_500 tripped).0.allowed ≡ true
unfolding admit_state
let_through = refl

chat_not_echo : codes "chat" ≢ codes "echo"
chat_not_echo e = ground (arith, (text_beq_iff (codes "chat") (codes "echo")).1 e)
