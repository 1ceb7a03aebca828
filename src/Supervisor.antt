-- ===== src/Supervisor.antt =====
-- supervisor.ts: the circuit breaker of the registered functions. `FunctionSupervisor` is a record
-- of its two maps, and a method returns its result beside the new record. Times are epoch
-- milliseconds; the error rate is the exact ratio of manifest.ts. A read of the clock before the
-- breaker opened (a clock that was set back) is covered: `now - openedAt < cooldown` is written as
-- `now < openedAt + cooldown`.
pub mod Window
pub mod Breaker
pub mod Recycle
pub mod Isolation
pub mod Refusal
mod Tests
use tube.Common.{
  ℕ, suc, ◌+◌, ◌-◌, ◌*◌, ◌/◌, Bool, true, false, not, ◌&&◌, Option, none, some, List, [], ◌∷◌, ◌++◌,
  ltb, leb, eqb, if◌then◌else◌, length, drop, text_eq,
}
use tube.Common.JsMap
use tube.Common.JsMap.{JsMap}
use tube.Common.Text.{Text, codes}
use tube.Manifest.{FunctionManifest, Ratio}

pub record SupervisorState : Type 0 where
  pub invocations : ℕ
  pub errors : ℕ
  pub window : List ℕ
  pub recycle_recommended : Bool
  pub breaker_opened_at : ℕ

pub record AdmitDecision : Type 0 where
  pub allowed : Bool
  pub status : Option ℕ
  pub reason : Option Text
  pub retry_after : Option ℕ

pub record Outcome : Type 0 where
  pub breaker_just_tripped : Bool
  pub recycle_just_recommended : Bool

-- `errorRate` is `window_errors / window_size`, and 0 where the window is empty: its two numbers are kept.
pub record SupervisorStats : Type 0 where
  pub invocations : ℕ
  pub errors : ℕ
  pub window_errors : ℕ
  pub window_size : ℕ
  pub breaker_open : Bool
  pub breaker_opened_at : ℕ
  pub recycle_recommended : Bool

pub record FunctionSupervisor : Type 0 where
  pub states : JsMap Text SupervisorState
  pub manifests : JsMap Text FunctionManifest

abbrev pub fresh : SupervisorState
fresh = record {
  invocations = 0;
  errors = 0;
  window = [];
  recycle_recommended = false;
  breaker_opened_at = 0;
}

abbrev pub accept : AdmitDecision
accept = record { allowed = true; status = none; reason = none; retry_after = none }

pub set_manifest : Text → FunctionManifest → FunctionSupervisor → FunctionSupervisor
set_manifest name m s = record s { manifests = JsMap.set name m s.manifests }

pub forget : Text → FunctionSupervisor → FunctionSupervisor
forget name s = record {
  states = JsMap.delete name s.states;
  manifests = JsMap.delete name s.manifests;
}

pub reset : Text → FunctionSupervisor → FunctionSupervisor
reset name s = record s { states = JsMap.delete name s.states }

-- The state of a name, created where there is none. The code mutates the object that the map
-- holds; here the caller stores what it changed by `store`.
state_or_fresh : Option SupervisorState → SupervisorState
state_or_fresh none = fresh
state_or_fresh (some st) = st

pub get_state : Text → FunctionSupervisor → SupervisorState
unfolding state_or_fresh
get_state name s = state_or_fresh (JsMap.get name s.states)

pub store : Text → SupervisorState → FunctionSupervisor → FunctionSupervisor
store name st s = record s { states = JsMap.set name st s.states }

-- `Math.ceil(ms / 1000)`
pub seconds_up : ℕ → ℕ
seconds_up ms = (ms + 999) / 1000

-- The breaker part of `admit`, on the state of the function.
pub admit_state : FunctionManifest → ℕ → SupervisorState → AdmitDecision × SupervisorState
unfolding seconds_up
admit_state m now st =
    if ltb 0 st.breaker_opened_at
    then (if ltb now (st.breaker_opened_at + m.recycle.cooldown_ms)
        then (
          record {
            allowed = false;
            status = some 503;
            reason = some (codes "circuit_breaker_open");
            retry_after = some (seconds_up (st.breaker_opened_at + m.recycle.cooldown_ms - now));
          },
          st,
        )
        else (accept, record st { breaker_opened_at = 0; window = [] }))
    else (accept, st)

pub admit : Text → ℕ → FunctionSupervisor → AdmitDecision × FunctionSupervisor
unfolding get_state store admit_state
admit name now s = elim (JsMap.get name s.manifests) [
  | none ↦ (accept, s)
  | some m ↦
      let (decision, st) = admit_state m now (get_state name s) in (decision, store name st s)
]

-- `window.reduce((a, b) => a + b, 0)`
pub sum : List ℕ → ℕ
sum [] = 0
sum (x ∷ xs) = x + sum xs

pub error_bit : Bool → ℕ
error_bit error = if error then 1 else 0

-- The `push` and the `splice` of `record`.
pub slide : ℕ → List ℕ → ℕ → List ℕ
slide win window bit =
    let pushed = window ++ bit ∷ [] in
    if ltb win (length pushed) then drop (length pushed - win) pushed else pushed

-- `errs / window.length >= errorRate`, false where the window is empty (0 / 0 is NaN).
pub rate_reached : Ratio → List ℕ → Bool
unfolding sum
rate_reached rate window =
    ltb 0 (length window) && leb (rate.num * length window) (sum window * suc rate.den)

pub should_trip : FunctionManifest → SupervisorState → List ℕ → Bool
unfolding rate_reached
should_trip m st window =
    eqb st.breaker_opened_at 0
    && leb m.recycle.error_window (length window)
    && ltb 0 m.recycle.error_rate.num
    && rate_reached m.recycle.error_rate window

pub should_recycle : FunctionManifest → SupervisorState → Bool
should_recycle m st =
    not st.recycle_recommended
    && ltb 0 m.recycle.max_requests
    && leb m.recycle.max_requests st.invocations

-- `s.invocations++; if (error) s.errors++`
pub count : Bool → SupervisorState → SupervisorState
count error st = record st {
  invocations = st.invocations + 1;
  errors = if error then st.errors + 1 else st.errors;
}

-- The part of `record` under `if (manifest)`, on the state that the counters were raised in.
pub judge : FunctionManifest → Bool → ℕ → SupervisorState → Outcome × SupervisorState
unfolding slide should_trip should_recycle error_bit
judge m error now st =
    let window = slide m.recycle.error_window st.window (error_bit error) in
    let trip = should_trip m st window in
    let recycle = should_recycle m st in
    (
      record { breaker_just_tripped = trip; recycle_just_recommended = recycle },
      record st {
        window = window;
        breaker_opened_at = if trip then now else st.breaker_opened_at;
        recycle_recommended = if recycle then true else st.recycle_recommended;
      },
    )

unfoldable pub record_state :
    Option FunctionManifest → Bool → ℕ → SupervisorState → Outcome × SupervisorState
unfolding count judge
record_state none error now st =
    (record { breaker_just_tripped = false; recycle_just_recommended = false }, count error st)
record_state (some m) error now st = judge m error now (count error st)

unfoldable pub record_outcome : Text → Bool → ℕ → FunctionSupervisor → Outcome × FunctionSupervisor
unfolding get_state store record_state
record_outcome name error now s =
    let (outcome, st) = record_state (JsMap.get name s.manifests) error now (get_state name s) in
    (outcome, store name st s)

state_stats : SupervisorState → SupervisorStats
unfolding sum
state_stats st = record {
  invocations = st.invocations;
  errors = st.errors;
  window_errors = sum st.window;
  window_size = length st.window;
  breaker_open = ltb 0 st.breaker_opened_at;
  breaker_opened_at = st.breaker_opened_at;
  recycle_recommended = st.recycle_recommended;
}

-- `stats` goes through `getState`, so it creates the state of an unknown name.
pub stats : Text → FunctionSupervisor → SupervisorStats × FunctionSupervisor
unfolding get_state store state_stats
stats name s = (state_stats (get_state name s), store name (get_state name s) s)

all_states_stats : JsMap Text SupervisorState → JsMap Text SupervisorStats
unfolding state_stats
all_states_stats [] = []
all_states_stats ((name, st) ∷ l) = (name, state_stats st) ∷ all_states_stats l

pub all_stats : FunctionSupervisor → JsMap Text SupervisorStats
unfolding all_states_stats
all_stats s = all_states_stats s.states
