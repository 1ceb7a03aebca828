-- ===== src/Watchdog/Tests.antt =====
-- The watchdog at concrete values.
use tube.Common.{◌≡◌, refl, none, some, [], ◌∷◌}
use tube.Watchdog.{WatchdogConfig, recommended_budget_bytes, total_memory}
use tube.Watchdog.Streak.{Seen}

abbrev limits : WatchdogConfig
limits = record { budget_bytes = 100; hysteresis_samples = 2; cooldown_ms = 50 }

abbrev high : Seen
high = record { at = 10; pid = some 7; rss = some 300 }

abbrev later : Seen
later = record { at = 20; pid = some 7; rss = some 200 }

abbrev quiet : Seen
quiet = record { at = 69; pid = some 8; rss = some 400 }

budget : recommended_budget_bytes 64 (some 100 ∷ none ∷ some 0 ∷ []) ≡ some 224395264
unfolding recommended_budget_bytes total_memory
budget = refl
