-- ===== src/Supervisor/Breaker.antt =====
-- The circuit breaker: when `record` trips it, and what `admit` answers while it is open.
use tube.Common.{
  ℕ, suc, ◌+◌, ◌-◌, ◌*◌, ◌≤◌, ◌<◌, ◌≡◌, ◌↔◌, refl, ap, ◌∙◌, sym, Bool, true, false, none, some,
  Bool-cases, Option-cases, beq_self, inl, inr, tests, leb→le, lt_of_leb, eqb, ◌&&◌, min, List, [],
  ◌∷◌, ◌++◌, arith, ltb, leb, length, last, length-last, length-append, if◌then◌else◌, text_eq,
}
use tube.Common.JsMap
use tube.Common.JsMap.{JsMap}
use tube.Common.Text.{Text}
use tube.Manifest.{FunctionManifest}
use tube.Supervisor.{
  FunctionSupervisor, admit, get_state, store, SupervisorState, error_bit, sum, should_trip, count,
  record_state, admit_state, seconds_up,
}
use tube.Supervisor.Window.{record_all, slide-last}

-- A refused call keeps the state, answers 503, and its `retryAfter` is a positive number of seconds
-- after which the same state lets the call through.
pub admit_state-retry :
    (m : FunctionManifest) (now : ℕ) (st : SupervisorState)
    → (admit_state m now st).0.allowed ≡ false
    → (r : ℕ) × ((admit_state m now st).0.retry_after ≡ some r)
      × ((admit_state m now st).0.status ≡ some 503)
      × ((admit_state m now st).1 ≡ st)
      × (0 < r)
      × ((admit_state m (now + r * 1000) st).0.allowed ≡ true)
unfolding admit_state
admit_state-retry m now st h = (
  seconds_up (st.breaker_opened_at + m.recycle.cooldown_ms - now),
  ground arith,
  ground arith,
  ground arith,
  ground arith,
  ground arith,
)

-- The error rate of the last `errorWindow` outcomes, in whole numbers.
abbrev pub RateReached : FunctionManifest → List ℕ → Type 0
RateReached m h =
    m.recycle.error_rate.num * m.recycle.error_window
    ≤ sum (last m.recycle.error_window h) * suc m.recycle.error_rate.den

-- The test of `record` on the numbers that it reads, for a window of `k` outcomes out of `len`.
trip_numbers :
    (opened win len num errs den k : ℕ)
    → k ≡ min win len
    → 0 < win
    → ((eqb opened 0 && leb win k && ltb 0 num && (ltb 0 k && leb (num * k) (errs * suc den)))
        ≡ true)
      ↔ ((opened ≡ 0) × (win ≤ len) × (0 < num) × (num * win ≤ errs * suc den))
trip_numbers opened win len num errs den k e pos = elim (Bool-cases (leb win len)) [
  | inl enough ↦ let same : k ≡ win = omega (tests, leb→le _ _ enough) in rw same (ground arith)
  | inr short ↦
      let few : k < win = omega (arith, lt_of_leb _ _ short) in
      ground (arith, lt_of_leb win len short)
]

should_trip_iff :
    (m : FunctionManifest) (st : SupervisorState) (h : List ℕ)
    → 0 < m.recycle.error_window
    → (should_trip m st (last m.recycle.error_window h) ≡ true) ↔ (
        (st.breaker_opened_at ≡ 0)
        × (m.recycle.error_window ≤ length h)
        × (0 < m.recycle.error_rate.num)
        × RateReached m h)
unfolding should_trip
should_trip_iff m st h w =
    trip_numbers st.breaker_opened_at m.recycle.error_window (length h) m.recycle.error_rate.num
      (sum (last m.recycle.error_window h)) m.recycle.error_rate.den
      (length (last m.recycle.error_window h)) (length-last m.recycle.error_window h) w

-- A `record` trips the breaker exactly when it was closed, `errorWindow` outcomes are there, the
-- configured rate is positive, and the errors among the last `errorWindow` outcomes reach it. The
-- breaker is then open from that time on, and otherwise keeps its opening time.
pub record_state-trips_iff :
    (m : FunctionManifest) (error : Bool) (now : ℕ) (st : SupervisorState) (h : List ℕ)
    → 0 < m.recycle.error_window
    → st.window ≡ last m.recycle.error_window h
    → (((record_state (some m) error now st).0.breaker_just_tripped ≡ true) ↔ (
        (st.breaker_opened_at ≡ 0)
        × (m.recycle.error_window ≤ length h + 1)
        × (0 < m.recycle.error_rate.num)
        × RateReached m (h ++ error_bit error ∷ [])))
      × ((record_state (some m) error now st).1.breaker_opened_at ≡ (
          if (record_state (some m) error now st).0.breaker_just_tripped
          then now
          else st.breaker_opened_at))
unfolding record_state
record_state-trips_iff m error now st h w e =
    rw (e, slide-last, ← length-append h (error_bit error ∷ []))
      (should_trip_iff m (count error st) (h ++ error_bit error ∷ []) w, refl)

-- After a trip, `admit` lets a call through exactly from `cooldownMs` after the trip on, and then
-- closes the breaker with an empty window.
pub trip-admit :
    (m : FunctionManifest) (error : Bool) (now later : ℕ) (st : SupervisorState)
    → 0 < now
    → (record_state (some m) error now st).0.breaker_just_tripped ≡ true
    → ((admit_state m later (record_state (some m) error now st).1).0.allowed
        ≡ leb (now + m.recycle.cooldown_ms) later)
      × (leb (now + m.recycle.cooldown_ms) later ≡ true
          → ((admit_state m later (record_state (some m) error now st).1).1.breaker_opened_at ≡ 0)
            × ((admit_state m later (record_state (some m) error now st).1).1.window ≡ []))
unfolding record_state admit_state
trip-admit m error now later st pos trip = (ground arith, λ over. (ground arith, ground arith))

pub state-store :
    (name : Text) (st : SupervisorState) (s : FunctionSupervisor)
    → get_state name (store name st s) ≡ st
unfolding get_state store
state-store name st s = rw (JsMap.get-set, beq_self name) refl

pub manifests-store :
    (name : Text) (st : SupervisorState) (s : FunctionSupervisor)
    → (store name st s).manifests ≡ s.manifests
unfolding store
manifests-store name st s = refl

pub admit_of_manifest :
    (name : Text) (now : ℕ) (s : FunctionSupervisor) (m : FunctionManifest)
    → JsMap.get name s.manifests ≡ some m
    → ((admit name now s).0 ≡ (admit_state m now (get_state name s)).0)
      × ((admit name now s).1 ≡ store name (admit_state m now (get_state name s)).1 s)
unfolding admit
admit_of_manifest name now s m h = rw (h, admit) (refl, refl)

admit_free :
    (name : Text) (now : ℕ) (s : FunctionSupervisor)
    → JsMap.get name s.manifests ≡ none
    → (admit name now s).0.allowed ≡ true
unfolding admit
admit_free name now s h = rw (h, admit) refl

-- When a call is refused, the answer is 503 with a positive `retryAfter`, and calling again that
-- many seconds later, with nothing in between, is let through.
pub admit-retry :
    (name : Text) (now : ℕ) (s : FunctionSupervisor)
    → (admit name now s).0.allowed ≡ false
    → (r : ℕ) × ((admit name now s).0.retry_after ≡ some r)
      × ((admit name now s).0.status ≡ some 503)
      × (0 < r)
      × ((admit name (now + r * 1000) (admit name now s).1).0.allowed ≡ true)
admit-retry name now s h = elim (Option-cases (JsMap.get name s.manifests)) [
  | inl free ↦ absurd (ground (arith, admit_free name now s free))
  | inr (m, found) ↦
      let (decision, after) = admit_of_manifest name now s m found in
      let (r, wait, status, same, pos, retry) =
        admit_state-retry m now (get_state name s) (ap (λ d. d.allowed) (sym decision) ∙ h) in
      let again =
        (admit_of_manifest name (now + r * 1000)
          (store name (admit_state m now (get_state name s)).1 s) m (rw manifests-store found)).0 in
      (
        r,
        ap (λ d. d.retry_after) decision ∙ wait,
        ap (λ d. d.status) decision ∙ status,
        pos,
        rw (after, again, state-store, same) retry,
      )
]

record_state_short :
    (m : FunctionManifest) (error : Bool) (now : ℕ) (st : SupervisorState)
    → st.breaker_opened_at ≡ 0
    → length st.window + 1 < m.recycle.error_window
    → ((record_state (some m) error now st).1.breaker_opened_at ≡ 0)
      × (length (record_state (some m) error now st).1.window ≡ length st.window + 1)
unfolding record_state
record_state_short m error now st closed short =
    ground (arith, length-append st.window (error_bit error ∷ []))

record_all_short :
    (m : FunctionManifest) (events : List (Bool × ℕ)) (st : SupervisorState)
    → st.breaker_opened_at ≡ 0
    → length st.window + length events < m.recycle.error_window
    → (record_all m events st).breaker_opened_at ≡ 0
unfolding record_all
record_all_short m [] st closed short = closed
record_all_short m ((error, now) ∷ events) st closed short =
    let (closed', longer) = record_state_short m error now st closed (omega arith) in
    record_all_short m events (record_state (some m) error now st).1 closed' (omega arith)

half_opened :
    (m : FunctionManifest) (now : ℕ) (st : SupervisorState)
    → 0 < st.breaker_opened_at
    → (admit_state m now st).0.allowed ≡ true
    → ((admit_state m now st).1.breaker_opened_at ≡ 0) × ((admit_state m now st).1.window ≡ [])
unfolding admit_state
half_opened m now st opened ok = (ground arith, ground arith)

-- Once the cool-down is over, `admit` half-opens the breaker: fewer than `errorWindow` outcomes,
-- whatever they are, cannot trip it again.
pub half_open-record_all :
    (m : FunctionManifest) (now : ℕ) (st : SupervisorState) (events : List (Bool × ℕ))
    → 0 < st.breaker_opened_at
    → (admit_state m now st).0.allowed ≡ true
    → length events < m.recycle.error_window
    → (record_all m events (admit_state m now st).1).breaker_opened_at ≡ 0
half_open-record_all m now st events opened ok short =
    let (closed, empty) = half_opened m now st opened ok in
    record_all_short m events (admit_state m now st).1 closed (rw empty (omega arith))
