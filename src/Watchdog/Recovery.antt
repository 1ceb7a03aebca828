-- ===== src/Watchdog/Recovery.antt =====
-- A process that stays over its budget is recycled.
use tube.Common.{
  ℕ, suc, ◌+◌, ◌<◌, ◌≤◌, ◌≡◌, ◌⊎◌, refl, Bool, false, inl, inr, some, List, [], ◌∷◌, length, All,
  arith,
}
use tube.Watchdog.{WatchdogConfig, Watchdog, sample}
use tube.Watchdog.Sample.{
  is_blocked, Sampled, blocked, cooling, under, longer, recycled, sample-Sampled,
}
use tube.Watchdog.Streak.{Seen, sample_all, Sampled-le, sample_all-le}

-- A sample that finds the process over the budget, outside the cool-down.
abbrev pub IsOver : WatchdogConfig → Watchdog → Seen → Type 0
IsOver cfg w e =
    (w.cooldown_until ≤ e.at)
    × ((p : ℕ) × (e.pid ≡ some p))
    × ((bytes : ℕ) × (e.rss ≡ some bytes) × (cfg.budget_bytes < bytes))

-- After a sample over the budget the process has been recycled, or the streak is one longer and the
-- watchdog is as ready as it was.
Sampled-over :
    {cfg : WatchdogConfig} {w : Watchdog} {t p bytes : ℕ} {o : Bool × Watchdog}
    → is_blocked w ≡ false
    → w.cooldown_until ≤ t
    → cfg.budget_bytes < bytes
    → Sampled cfg w t (some p) (some bytes) o
    → (w.stats.recycles < o.1.stats.recycles)
      ⊎ ((o.1.stats.over_budget_streak ≡ suc w.stats.over_budget_streak)
          × (suc w.stats.over_budget_streak < cfg.hysteresis_samples)
          × (o.1.cooldown_until ≡ w.cooldown_until)
          × (is_blocked o.1 ≡ false))
Sampled-over free late large (blocked b) = cc
Sampled-over free late large (cooling early) = absurd (omega arith)
Sampled-over free late large (under small) = absurd (omega arith)
Sampled-over free late large (longer _ short) = inr (refl, short, refl, ground arith)
Sampled-over free late large (recycled _ _ full more reset next open_again) = inl (omega arith)

sample_over :
    (cfg : WatchdogConfig) (w : Watchdog) (e : Seen)
    → is_blocked w ≡ false
    → IsOver cfg w e
    → (w.stats.recycles < (sample cfg e.at e.pid e.rss w).1.stats.recycles)
      ⊎ (((sample cfg e.at e.pid e.rss w).1.stats.over_budget_streak
            ≡ suc w.stats.over_budget_streak)
          × (suc w.stats.over_budget_streak < cfg.hysteresis_samples)
          × ((sample cfg e.at e.pid e.rss w).1.cooldown_until ≡ w.cooldown_until)
          × (is_blocked (sample cfg e.at e.pid e.rss w).1 ≡ false))
sample_over cfg w e free (late, (p, running), (bytes, read, large)) =
    rw (running, read)
      (Sampled-over free late large (sample-Sampled cfg w e.at (some p) (some bytes)))

IsOver-next :
    (cfg : WatchdogConfig) (w w' : Watchdog) (es : List Seen)
    → w'.cooldown_until ≡ w.cooldown_until
    → All (IsOver cfg w) es
    → All (IsOver cfg w') es
IsOver-next cfg w w' [] same h = tt
IsOver-next cfg w w' (e ∷ es) same h =
    ((omega (arith, h.0.0, same), h.0.1, h.0.2), IsOver-next cfg w w' es same h.1)

-- A ready watchdog recycles the process: in any run of samples outside the cool-down that all find it
-- over the budget, once the streak and the samples together reach `hysteresisSamples`.
pub sample_all-recycles :
    (cfg : WatchdogConfig) (e : Seen) (es : List Seen) (w : Watchdog)
    → is_blocked w ≡ false
    → All (IsOver cfg w) (e ∷ es)
    → cfg.hysteresis_samples ≤ w.stats.over_budget_streak + length (e ∷ es)
    → w.stats.recycles < (sample_all cfg (e ∷ es) w).stats.recycles
unfolding sample_all
sample_all-recycles cfg e [] w free h enough = elim (sample_over cfg w e free h.0) [
  | inl more ↦ more
  | inr (grown, short, same, ready) ↦ absurd (omega (arith, short, enough))
]
sample_all-recycles cfg e (e' ∷ es) w free h enough =
    let next = (sample cfg e.at e.pid e.rss w).1 in
    elim (sample_over cfg w e free h.0) [
      | inl more ↦ omega (arith, more, sample_all-le cfg (e' ∷ es) next)
      | inr (grown, short, same, ready) ↦ omega (
        arith,
        Sampled-le (sample-Sampled cfg w e.at e.pid e.rss),
        sample_all-recycles cfg e' es next ready (IsOver-next cfg w next (e' ∷ es) same h.1)
            (omega (arith, grown, enough)),
      )
    ]
