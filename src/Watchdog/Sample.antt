-- ===== src/Watchdog/Sample.antt =====
-- The ways a sample can go, with the watchdog that each leaves.
use tube.Common.{
  ℕ, suc, ◌+◌, ◌<◌, ◌≤◌, ◌≡◌, refl, Bool, true, false, ◌||◌, Bool-cases, Option-cases, inl, inr,
  Option, none, some, ltb, leb, arith,
}
use tube.Watchdog.{
  WatchdogConfig, Watchdog, begin, over_budget, resume, settle, finish_reload, finish_read, sample,
}

-- The watchdog after a sample that recycles nothing, at the streak that it leaves.
abbrev pub seen_by : Option ℕ → Option ℕ → ℕ → ℕ → Watchdog → Watchdog
seen_by at rss samples streak w = record w {
  stats = record w.stats {
    samples = samples;
    over_budget_streak = streak;
    last_rss_bytes = rss;
    last_sample_at = at;
  };
}

abbrev pub settled_by : Option ℕ → Option ℕ → ℕ → ℕ → Watchdog → Watchdog
settled_by at rss samples streak w = record (seen_by at rss samples streak w) { in_flight = false }

abbrev pub is_blocked : Watchdog → Bool
is_blocked w = w.is_stopped || w.in_flight

-- The ways a sample can go.
pub data Sampled (cfg : WatchdogConfig) (w : Watchdog)
    : ℕ → Option ℕ → Option ℕ → Bool × Watchdog → Type 0 where
  blocked : {t : ℕ} {pid rss : Option ℕ} → is_blocked w ≡ true → Sampled cfg w t pid rss (false, w)
  cooling :
      {t : ℕ} {pid rss : Option ℕ}
      → t < w.cooldown_until
      → Sampled cfg w t pid rss (false, seen_by (some t) w.stats.last_rss_bytes w.stats.samples 0 w)
  absent :
      {t : ℕ} {rss : Option ℕ}
      → Sampled cfg w t none rss (false, seen_by (some t) none w.stats.samples 0 w)
  unread :
      {t p : ℕ}
      → Sampled cfg w t
          (some p)
          none
          (false, settled_by (some t) none (suc w.stats.samples) w.stats.over_budget_streak w)
  under :
      {t p bytes : ℕ}
      → bytes ≤ cfg.budget_bytes
      → Sampled cfg w t
          (some p)
          (some bytes)
          (false, settled_by (some t) (some bytes) (suc w.stats.samples) 0 w)
  longer :
      {t p bytes : ℕ}
      → cfg.budget_bytes < bytes
      → suc w.stats.over_budget_streak < cfg.hysteresis_samples
      → Sampled cfg w t (some p) (some bytes) (
        false,
        settled_by (some t) (some bytes) (suc w.stats.samples) (suc w.stats.over_budget_streak) w,
      )
  recycled :
      {t p bytes : ℕ} {w' : Watchdog}
      → cfg.budget_bytes < bytes
      → w.cooldown_until ≤ t
      → cfg.hysteresis_samples ≤ suc w.stats.over_budget_streak
      → w'.stats.recycles ≡ suc w.stats.recycles
      → w'.stats.over_budget_streak ≡ 0
      → w'.cooldown_until ≡ t + cfg.cooldown_ms
      → is_blocked w' ≡ false
      → Sampled cfg w t (some p) (some bytes) (true, w')

resumed :
    (cfg : WatchdogConfig) (w : Watchdog) (t p : ℕ) (rss : Option ℕ)
    → is_blocked w ≡ false
    → w.cooldown_until ≤ t
    → Sampled cfg w t (some p) rss (
        finish_reload (
          resume cfg t rss
            (record w { stats = record w.stats { last_sample_at = some t }; in_flight = true })))
unfolding finish_reload resume over_budget settle
resumed cfg w t p none free late = unread
resumed cfg w t p (some bytes) free late = elim (Bool-cases (leb bytes cfg.budget_bytes)) [
  | inl small ↦ rw (small, finish_reload) (under (ground arith))
  | inr large ↦
      rw (large, finish_reload)
        (elim (Bool-cases (ltb (suc w.stats.over_budget_streak) cfg.hysteresis_samples)) [
          | inl short ↦ rw (short, finish_reload) (longer (ground arith) (ground arith))
          | inr full ↦
              rw (full, finish_reload)
                (recycled (ground arith) late (ground arith) refl refl refl (ground arith))
        ])
]

pub sample-Sampled :
    (cfg : WatchdogConfig) (w : Watchdog) (t : ℕ) (pid rss : Option ℕ)
    → Sampled cfg w t pid rss (sample cfg t pid rss w)
unfolding sample begin finish_read
sample-Sampled cfg w t pid rss = elim (Bool-cases (is_blocked w)) [
  | inl b ↦ rw (b, sample) (blocked b)
  | inr free ↦ elim (Bool-cases (ltb t w.cooldown_until)) [
    | inl early ↦ rw (free, early, sample) (cooling (ground arith))
    | inr late ↦ elim (Option-cases pid) [
      | inl gone ↦ rw (free, late, gone, sample) absent
      | inr (p, running) ↦
          rw (free, late, running, sample) (resumed cfg w t p rss free (ground arith))
    ]
  ]
]
