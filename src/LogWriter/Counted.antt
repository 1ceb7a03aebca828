-- ===== src/LogWriter/Counted.antt =====
-- The rows that the writer takes, by what became of them.
mod Tests
use mathlib.Core.Path.{subst}
use tube.Common.{
  ℕ, zero, suc, ◌+◌, ◌-◌, ◌≤◌, ◌<◌, ◌≡◌, refl, ap, sym, ◌∙◌, Bool, true, false, not, ◌&&◌, ◌||◌,
  Bool-cases, inl, inr, List, [], ◌∷◌, ◌++◌, leb, eqb, eqb_iff, leb→le, if◌then◌else◌, length,
  length-append, length-drop, drop, arith,
}
use tube.LogWriter.{
  Queued, Database, LogWriterOptions, LogWriterStats, LogWriter, transact, count_batch, flush_now,
  write_one, count_one, write_through, push_bounded, arm_timer, flush_or_wait, take_item, enqueue,
  timer_fires, stop, created,
}

-- A call of the writer, or its timer.
pub data Call : Type 0 where
  record_row : Queued → Call
  flushing : Call
  firing : Call
  stopping : Call

-- The rows that a call brings, unless the writer is stopped, and whether it is stopped then.
abbrev taken : Bool → Call → ℕ
taken false (record_row item) = 1
taken true (record_row item) = 0
taken stopped flushing = 0
taken stopped firing = 0
taken stopped stopping = 0

abbrev stopped_by : Call → Bool → Bool
stopped_by (record_row item) stopped = stopped
stopped_by flushing stopped = stopped
stopped_by firing stopped = stopped
stopped_by stopping stopped = true

-- The rows recorded until the writer is stopped.
pub accepted : Bool → List Call → ℕ
accepted stopped [] = 0
accepted stopped (c ∷ cs) = taken stopped c + accepted (stopped_by c stopped) cs

module _ (database : Database) (opts : LogWriterOptions) where
  open database use {State}

  unfoldable pub perform : Call → LogWriter State → LogWriter State
  perform (record_row item) w = enqueue database opts item w
  perform flushing w = flush_now database opts w
  perform firing w = timer_fires database opts w
  perform stopping w = stop database opts w

  unfoldable pub perform_all : List Call → LogWriter State → LogWriter State
  perform_all [] w = w
  perform_all (c ∷ cs) w = perform_all cs (perform c w)

  -- A writer that has taken `n` rows.
  pub record IsCounted (n : ℕ) (w : LogWriter State) : Type 0 where
    pub all_counted : w.stats.written + w.stats.dropped + w.stats.write_errors + length w.queue ≡ n
    pub queued : w.stats.queued ≡ length w.queue
    pub bounded : length w.queue ≤ opts.max_queue
    pub stopped_empty : (w.stopped && not (eqb (length w.queue) 0)) ≡ false

  count_batch-total :
      (n : ℕ) (committed : Bool) (st : LogWriterStats)
      → let st' = count_batch database opts n committed st in
        (st'.written + st'.dropped + st'.write_errors
          ≡ st.written + st.dropped + st.write_errors + n)
        × (st'.queued ≡ 0)
  unfolding count_batch
  count_batch-total n true st = (omega arith, refl)
  count_batch-total n false st = (omega arith, refl)

  same_count : (m n : ℕ) (w : LogWriter State) → m ≡ n → IsCounted m w → IsCounted n w
  same_count m n w e h = subst (λ k. IsCounted k w) e h

  if-IsCounted :
      (n : ℕ) (b : Bool) (x y : LogWriter State)
      → (b ≡ true → IsCounted n x)
      → (b ≡ false → IsCounted n y)
      → IsCounted n (if b then x else y)
  if-IsCounted n true x y hx hy = hx refl
  if-IsCounted n false x y hx hy = hy refl

  -- A flush needs no empty queue before it: it leaves one.
  flush_now-IsCounted :
      (n : ℕ) (w : LogWriter State)
      → w.stats.written + w.stats.dropped + w.stats.write_errors + length w.queue ≡ n
      → w.stats.queued ≡ length w.queue
      → length w.queue ≤ opts.max_queue
      → IsCounted n (flush_now database opts w)
  unfolding flush_now
  flush_now-IsCounted n w total same bound =
      let (sum, none_queued) =
        count_batch-total (length w.queue) (transact database opts w.queue w.db).1 w.stats in
      if-IsCounted n (eqb (length w.queue) 0) _ _
        (λ empty. record {
          all_counted = total;
          queued = same;
          bounded = bound;
          stopped_empty = ground (arith, empty);
        })
        (λ full. record {
          all_counted = omega (arith, sum, total);
          queued = none_queued;
          bounded = omega arith;
          stopped_empty = ground arith;
        })

  flush-IsCounted :
      (n : ℕ) (w : LogWriter State) → IsCounted n w → IsCounted n (flush_now database opts w)
  flush-IsCounted n w h = flush_now-IsCounted n w h.all_counted h.queued h.bounded

  count_one-total :
      (written : Bool) (st : LogWriterStats)
      → let st' = count_one database opts written st in
        (st'.written + st'.dropped + st'.write_errors
          ≡ suc (st.written + st.dropped + st.write_errors))
        × (st'.queued ≡ st.queued)
  unfolding count_one
  count_one-total true st = (omega arith, refl)
  count_one-total false st = (omega arith, refl)

  write_through-IsCounted :
      (n : ℕ) (item : Queued) (w : LogWriter State)
      → w.stopped ≡ false
      → IsCounted n w
      → IsCounted (suc n) (write_through database opts item w)
  unfolding write_through
  write_through-IsCounted n item w open_ h =
      let (sum, same) = count_one-total (write_one database opts item w.db).1 w.stats in
      record {
        all_counted = omega (arith, sum, h.all_counted);
        queued = same ∙ h.queued;
        bounded = h.bounded;
        stopped_empty = h.stopped_empty;
      }

  push_bounded-IsCounted :
      (n : ℕ) (item : Queued) (w : LogWriter State)
      → w.stopped ≡ false
      → IsCounted n w
      → IsCounted (suc n) (push_bounded database opts item w)
  unfolding push_bounded
  push_bounded-IsCounted n item w open_ h =
      let queue = w.queue ++ item ∷ [] in
      let overflow = length queue - opts.max_queue in
      let long = length-append w.queue (item ∷ []) in
      let kept = length-drop overflow queue in
      record {
        all_counted = omega (arith, long, kept, h.all_counted);
        queued = refl;
        bounded = omega (arith, long, kept, h.bounded);
        stopped_empty = ground (arith, open_);
      }

  flush_or_wait-IsCounted :
      (n : ℕ) (w : LogWriter State) → IsCounted n w → IsCounted n (flush_or_wait database opts w)
  unfolding flush_or_wait arm_timer
  flush_or_wait-IsCounted n w h =
      if-IsCounted n (leb opts.flush_threshold (length w.queue)) _ _
        (λ reached. flush-IsCounted n w h)
        (λ waiting. record {
          all_counted = h.all_counted;
          queued = h.queued;
          bounded = h.bounded;
          stopped_empty = h.stopped_empty;
        })

  take_item-IsCounted :
      (n : ℕ) (item : Queued) (w : LogWriter State)
      → w.stopped ≡ false
      → IsCounted n w
      → IsCounted (suc n) (take_item database opts item w)
  unfolding take_item
  take_item-IsCounted n item w open_ h =
      if-IsCounted (suc n) (eqb opts.flush_interval_ms 0) _ _
        (λ direct. write_through-IsCounted n item w open_ h)
        (λ buffered.
          flush_or_wait-IsCounted (suc n) (push_bounded database opts item w)
            (push_bounded-IsCounted n item w open_ h))

  stop-IsCounted :
      (n : ℕ) (w : LogWriter State) → IsCounted n w → IsCounted n (stop database opts w)
  unfolding stop
  stop-IsCounted n w h =
      if-IsCounted n w.stopped _ _ (λ closed. h)
        (λ running.
          flush_now-IsCounted n (record w { stopped = true }) h.all_counted h.queued h.bounded)

  enqueue-IsCounted :
      (n : ℕ) (item : Queued) (w : LogWriter State)
      → IsCounted n w
      → IsCounted (taken w.stopped (record_row item) + n) (enqueue database opts item w)
  unfolding enqueue
  enqueue-IsCounted n item w h = open_or_closed w.stopped refl
    where
      open_or_closed :
          (b : Bool)
          → w.stopped ≡ b
          → IsCounted
              (taken b (record_row item) + n)
              (if b then w else take_item database opts item w)
      open_or_closed true e = same_count n (0 + n) w (omega arith) h
      open_or_closed false e =
          same_count (suc n) (1 + n) (take_item database opts item w) (omega arith)
            (take_item-IsCounted n item w e h)

  perform-IsCounted :
      (n : ℕ) (c : Call) (w : LogWriter State)
      → IsCounted n w
      → IsCounted (taken w.stopped c + n) (perform c w)
  unfolding perform timer_fires
  perform-IsCounted n (record_row item) w h = enqueue-IsCounted n item w h
  perform-IsCounted n flushing w h =
      same_count n (0 + n) (perform flushing w) (omega arith) (flush-IsCounted n w h)
  perform-IsCounted n firing w h =
      same_count n (0 + n) (perform firing w) (omega arith)
        (flush_now-IsCounted n (record w { flush_timer = false }) h.all_counted h.queued h.bounded)
  perform-IsCounted n stopping w h =
      same_count n (0 + n) (perform stopping w) (omega arith) (stop-IsCounted n w h)

  perform-stopped_by :
      (c : Call) (w : LogWriter State) → (perform c w).stopped ≡ stopped_by c w.stopped
  unfolding perform timer_fires flush_now stop enqueue take_item write_through flush_or_wait
      arm_timer push_bounded
  perform-stopped_by (record_row item) w = ground arith
  perform-stopped_by flushing w = ground arith
  perform-stopped_by firing w = ground arith
  perform-stopped_by stopping w = ground arith

  run-IsCounted :
      (cs : List Call) (n : ℕ) (w : LogWriter State)
      → IsCounted n w
      → IsCounted (n + accepted w.stopped cs) (perform_all cs w)
  unfolding perform_all accepted
  run-IsCounted [] n w h = same_count n (n + 0) w (omega arith) h
  run-IsCounted (c ∷ cs) n w h =
      let stopped = ap (λ b. accepted b cs) (perform-stopped_by c w) in
      same_count (taken w.stopped c + n + accepted (perform c w).stopped cs) _
        (perform_all cs (perform c w)) (omega (arith, stopped))
        (run-IsCounted cs (taken w.stopped c + n) (perform c w) (perform-IsCounted n c w h))

  -- After any calls of a new writer, whatever the database does, the rows recorded before it was
  -- stopped are exactly those written, dropped, lost to an error or waiting; `queued` says how many
  -- wait, no more than `maxQueue` do, and none after a stop.
  pub perform_all-IsCounted :
      (cs : List Call) (s : State)
      → IsCounted (accepted false cs) (perform_all cs (created database opts s))
  unfolding created
  perform_all-IsCounted cs s =
      same_count (0 + accepted false cs) (accepted false cs)
        (perform_all cs (created database opts s)) (omega arith)
        (run-IsCounted cs 0 (created database opts s) (record {
          all_counted = refl;
          queued = refl;
          bounded = omega arith;
          stopped_empty = refl;
        }))
