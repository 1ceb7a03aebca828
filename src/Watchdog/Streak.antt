-- ===== src/Watchdog/Streak.antt =====
-- Runs of samples: how often they recycle.
use tube.Common.{
  ℕ, ◌+◌, ◌*◌, ◌≤◌, ap, Bool, false, Option, none, some, List, [], ◌∷◌, ltb, if◌then◌else◌, arith,
}
use tube.Watchdog.{WatchdogConfig, Watchdog, created, sample}
use tube.Watchdog.Sample.{
  Sampled, blocked, cooling, absent, unread, under, longer, recycled, sample-Sampled,
}

-- What one sample sees: the time, the process and its resident set.
pub record Seen : Type 0 where
  pub at : ℕ
  pub pid : Option ℕ
  pub rss : Option ℕ

unfoldable pub sample_all : WatchdogConfig → List Seen → Watchdog → Watchdog
unfolding sample
sample_all cfg [] w = w
sample_all cfg (e ∷ es) w = sample_all cfg es (sample cfg e.at e.pid e.rss w).1

abbrev over : WatchdogConfig → Option ℕ → Bool
over cfg none = false
over cfg (some bytes) = ltb cfg.budget_bytes bytes

-- How many samples see a resident set over the budget.
abbrev pub overs : WatchdogConfig → List Seen → ℕ
overs cfg [] = 0
overs cfg (e ∷ es) = (if over cfg e.rss then 1 else 0) + overs cfg es

-- Recycles and the streak, in over-budget samples.
abbrev spent : WatchdogConfig → Watchdog → ℕ
spent cfg w = w.stats.recycles * cfg.hysteresis_samples + w.stats.over_budget_streak

Sampled-spent :
    {cfg : WatchdogConfig} {w : Watchdog} {t : ℕ} {pid rss : Option ℕ} {o : Bool × Watchdog}
    → Sampled cfg w t pid rss o
    → spent cfg o.1 ≤ spent cfg w + (if over cfg rss then 1 else 0)
Sampled-spent (blocked b) = omega arith
Sampled-spent (cooling early) = omega arith
Sampled-spent absent = omega arith
Sampled-spent unread = omega arith
Sampled-spent (under small) = omega arith
Sampled-spent {cfg} (longer {bytes = bytes} large short) = ground arith
Sampled-spent {cfg} (recycled large late full more reset next free) =
    ground (arith, ap (λ n. n * cfg.hysteresis_samples) more)

sample_all-spent :
    (cfg : WatchdogConfig) (es : List Seen) (w : Watchdog)
    → spent cfg (sample_all cfg es w) ≤ spent cfg w + overs cfg es
unfolding sample_all
sample_all-spent cfg [] w = omega arith
sample_all-spent cfg (e ∷ es) w = omega (
  arith,
  sample_all-spent cfg es (sample cfg e.at e.pid e.rss w).1,
  Sampled-spent (sample-Sampled cfg w e.at e.pid e.rss),
)

-- Every recycle has its own `hysteresisSamples` samples over the budget: over any run of samples
-- from the start the recycles are at most so many.
pub recycles-overs :
    (cfg : WatchdogConfig) (es : List Seen)
    → (sample_all cfg es created).stats.recycles * cfg.hysteresis_samples ≤ overs cfg es
recycles-overs cfg es = omega (arith, sample_all-spent cfg es created)

pub Sampled-le :
    {cfg : WatchdogConfig} {w : Watchdog} {t : ℕ} {pid rss : Option ℕ} {o : Bool × Watchdog}
    → Sampled cfg w t pid rss o
    → w.stats.recycles ≤ o.1.stats.recycles
Sampled-le (blocked b) = omega arith
Sampled-le (cooling _) = omega arith
Sampled-le absent = omega arith
Sampled-le unread = omega arith
Sampled-le (under small) = omega arith
Sampled-le (longer large short) = omega arith
Sampled-le (recycled large late full more reset next free) = omega arith

pub sample_all-le :
    (cfg : WatchdogConfig) (es : List Seen) (w : Watchdog)
    → w.stats.recycles ≤ (sample_all cfg es w).stats.recycles
unfolding sample_all
sample_all-le cfg [] w = omega arith
sample_all-le cfg (e ∷ es) w = omega (
  arith,
  sample_all-le cfg es (sample cfg e.at e.pid e.rss w).1,
  Sampled-le (sample-Sampled cfg w e.at e.pid e.rss),
)
