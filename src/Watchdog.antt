-- ===== src/Watchdog.antt =====
-- backends/workerd/watchdog.ts: the memory watchdog of the workerd process. `sample` is cut at the
-- read of the resident set (`await getRss`) and at the recycle (`await reload`): `begin`, `resume`
-- and `settle`. What the timers and the log do is not part of the state.
pub mod Sample
pub mod Streak
pub mod Cooldown
pub mod Recovery
mod Tests
use tube.Common.{
  ℕ, zero, suc, ◌+◌, ◌*◌, ◌/◌, Bool, true, false, ◌||◌, Option, none, some, List, [], ◌∷◌, ltb, leb,
  if◌then◌else◌,
}

pub record WatchdogConfig : Type 0 where
  pub budget_bytes : ℕ
  pub hysteresis_samples : ℕ
  pub cooldown_ms : ℕ

pub record WatchdogStats : Type 0 where
  pub samples : ℕ
  pub over_budget_streak : ℕ
  pub recycles : ℕ
  pub last_rss_bytes : Option ℕ
  pub last_sample_at : Option ℕ

pub record Watchdog : Type 0 where
  pub stats : WatchdogStats
  pub is_started : Bool
  pub is_stopped : Bool
  pub in_flight : Bool
  pub cooldown_until : ℕ

abbrev pub created : Watchdog
created = record {
  stats = record {
    samples = 0;
    over_budget_streak = 0;
    recycles = 0;
    last_rss_bytes = none;
    last_sample_at = none;
  };
  is_started = false;
  is_stopped = false;
  in_flight = false;
  cooldown_until = 0;
}

-- What a sample waits for: nothing, the resident set of a process (with the time of the sample), or
-- the recycle.
pub data Wait : Type 0 where
  returned : Wait
  reading : ℕ → ℕ → Wait
  reloading : Wait

abbrev landed : Watchdog → Watchdog
landed w = record w { in_flight = false }

-- The part of `sample` up to `await getRss(pid)`.
unfoldable pub begin : ℕ → Option ℕ → Watchdog → Wait × Watchdog
begin t pid w =
    if w.is_stopped || w.in_flight
    then (returned, w)
    else if ltb t w.cooldown_until
    then (
      returned,
      record w { stats = record w.stats { last_sample_at = some t; over_budget_streak = 0 } },
    )
    else elim pid [
      | none ↦ (
        returned,
        record w {
          stats = record w.stats {
            last_sample_at = some t;
            last_rss_bytes = none;
            over_budget_streak = 0;
          };
        },
      )
      | some p ↦ (
        reading p t,
        record w { stats = record w.stats { last_sample_at = some t }; in_flight = true },
      )
    ]

-- A sample over the budget: the streak grows, and at the threshold the process is recycled.
unfoldable pub over_budget : WatchdogConfig → ℕ → Watchdog → Wait × Watchdog
over_budget cfg t w =
    if ltb (suc w.stats.over_budget_streak) cfg.hysteresis_samples
    then (
      returned,
      record w {
        stats = record w.stats { over_budget_streak = suc w.stats.over_budget_streak };
        in_flight = false;
      },
    )
    else (
      reloading,
      record w {
        stats = record w.stats { over_budget_streak = 0; recycles = suc w.stats.recycles };
        cooldown_until = t + cfg.cooldown_ms;
      },
    )

-- The part of `sample` after `await getRss(pid)`.
unfoldable pub resume : WatchdogConfig → ℕ → Option ℕ → Watchdog → Wait × Watchdog
unfolding over_budget
resume cfg t rss w =
    let read = record w {
      stats = record w.stats { samples = suc w.stats.samples; last_rss_bytes = rss };
    } in
    elim rss [
      | none ↦ (returned, record read { in_flight = false })
      | some bytes ↦
          if leb bytes cfg.budget_bytes
          then (
            returned,
            record read { stats = record read.stats { over_budget_streak = 0 }; in_flight = false },
          )
          else over_budget cfg t read
    ]

-- The recycle has ended, or failed: the `finally`.
unfoldable pub settle : Watchdog → Watchdog
settle w = landed w

-- A sample whose waits end without a call of another operation between: whether it recycled.
finish_reload : Wait × Watchdog → Bool × Watchdog
unfolding settle
finish_reload (reloading, w) = (true, settle w)
finish_reload (returned, w) = (false, w)
finish_reload (reading p t, w) = (false, w)

finish_read : WatchdogConfig → Option ℕ → Wait × Watchdog → Bool × Watchdog
unfolding finish_reload resume
finish_read cfg rss (reading p t, w) = finish_reload (resume cfg t rss w)
finish_read cfg rss (returned, w) = (false, w)
finish_read cfg rss (reloading, w) = (false, w)

unfoldable pub sample : WatchdogConfig → ℕ → Option ℕ → Option ℕ → Watchdog → Bool × Watchdog
unfolding finish_read begin
sample cfg t pid rss w = finish_read cfg rss (begin t pid w)

-- `start`; the timer calls `sample` from then on.
pub start : Watchdog → Watchdog
start w = if w.is_started || w.is_stopped then w else record w { is_started = true }

-- `stop`
pub stop : Watchdog → Watchdog
stop w = if w.is_stopped then w else record w { is_stopped = true; is_started = false }

-- `sum * 1.5 + base`, rounded up, for the whole numbers that manifests hold.
budget_of : ℕ → ℕ → ℕ
budget_of base total = ((total * 3 + base * 2 + 1) / 2) * 1024 * 1024

-- The sum of the positive `memoryMB`, `none` where there is none.
unfoldable pub total_memory : List (Option ℕ) → Option ℕ
total_memory [] = none
total_memory (none ∷ ms) = total_memory ms
total_memory (some zero ∷ ms) = total_memory ms
total_memory (some (suc n) ∷ ms) = elim (total_memory ms) [
  | none ↦ some (suc n)
  | some total ↦ some (suc n + total)
]

-- `recommendedBudgetBytes` with the default safety factor of 1.5.
pub recommended_budget_bytes : ℕ → List (Option ℕ) → Option ℕ
unfolding budget_of total_memory
recommended_budget_bytes base memories = elim (total_memory memories) [
  | none ↦ none
  | some total ↦ some (budget_of base total)
]
