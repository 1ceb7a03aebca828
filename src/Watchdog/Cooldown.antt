-- ===== src/Watchdog/Cooldown.antt =====
-- No recycle during the cool-down of another.
use tube.Common.{ℕ, suc, ◌+◌, ◌<◌, ◌≡◌, refl, ◌∙◌, Bool, true, Option, List, [], ◌∷◌, All, arith}
use tube.Watchdog.{WatchdogConfig, Watchdog, sample}
use tube.Watchdog.Sample.{
  Sampled, blocked, cooling, absent, unread, under, longer, recycled, sample-Sampled,
}
use tube.Watchdog.Streak.{Seen, sample_all}

Sampled-cooling :
    {cfg : WatchdogConfig} {w : Watchdog} {t : ℕ} {pid rss : Option ℕ} {o : Bool × Watchdog}
    → t < w.cooldown_until
    → Sampled cfg w t pid rss o
    → (o.1.stats.recycles ≡ w.stats.recycles) × (o.1.cooldown_until ≡ w.cooldown_until)
Sampled-cooling early (blocked b) = (refl, refl)
Sampled-cooling early (cooling _) = (refl, refl)
Sampled-cooling early absent = (refl, refl)
Sampled-cooling early unread = (refl, refl)
Sampled-cooling early (under small) = (refl, refl)
Sampled-cooling early (longer large short) = (refl, refl)
Sampled-cooling early (recycled large late full more reset next free) = absurd (omega arith)

sample_all_cooling :
    (cfg : WatchdogConfig) (es : List Seen) (w : Watchdog) (until : ℕ)
    → w.cooldown_until ≡ until
    → All (λ d. d.at < until) es
    → (sample_all cfg es w).stats.recycles ≡ w.stats.recycles
unfolding sample_all
sample_all_cooling cfg [] w until u h = refl
sample_all_cooling cfg (e ∷ es) w until u h =
    let (same, next) =
      Sampled-cooling (omega (arith, h.0, u)) (sample-Sampled cfg w e.at e.pid e.rss) in
    sample_all_cooling cfg es (sample cfg e.at e.pid e.rss w).1 until (next ∙ u) h.1 ∙ same

Sampled-recycled :
    {cfg : WatchdogConfig} {w : Watchdog} {t : ℕ} {pid rss : Option ℕ} {o : Bool × Watchdog}
    → Sampled cfg w t pid rss o
    → o.0 ≡ true
    → (o.1.stats.recycles ≡ suc w.stats.recycles) × (o.1.cooldown_until ≡ t + cfg.cooldown_ms)
Sampled-recycled (blocked b) r = cc
Sampled-recycled (cooling _) r = cc
Sampled-recycled absent r = cc
Sampled-recycled unread r = cc
Sampled-recycled (under small) r = cc
Sampled-recycled (longer large short) r = cc
Sampled-recycled (recycled large late full more reset next free) r = (more, next)

-- After a sample that recycles, no sample recycles again before the cool-down is over, whatever the
-- samples see.
pub sample-cooldown :
    (cfg : WatchdogConfig) (w : Watchdog) (e : Seen) (es : List Seen)
    → (sample cfg e.at e.pid e.rss w).0 ≡ true
    → All (λ d. d.at < e.at + cfg.cooldown_ms) es
    → (sample_all cfg es (sample cfg e.at e.pid e.rss w).1).stats.recycles ≡ suc w.stats.recycles
sample-cooldown cfg w e es r h =
    let (more, next) = Sampled-recycled (sample-Sampled cfg w e.at e.pid e.rss) r in
    sample_all_cooling cfg es _ (e.at + cfg.cooldown_ms) next h ∙ more
