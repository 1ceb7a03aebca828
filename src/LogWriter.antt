-- ===== src/LogWriter.antt =====
-- logs/writer.ts: `createLogWriter`, its queue, its flush and its counters. The database is a
-- parameter, and the run of the timer is a step; the pruning of old rows is SQL.
pub mod Counted
pub mod Stored
use tube.Common.{
  ℕ, zero, suc, ◌+◌, ◌-◌, Bool, true, false, not, ◌&&◌, ◌||◌, Option, none, some, List, [], ◌∷◌,
  ◌++◌, leb, ltb, eqb, if◌then◌else◌, length, take, drop,
}
use tube.Common.Text.{Text, codes}

-- Times are whole milliseconds.
pub record InvocationRow : Type 0 where
  pub id : Text
  pub ts_ms : ℕ
  pub function_name : Text
  pub method : Text
  pub path : Text
  pub status : ℕ
  pub duration_ms : ℕ
  pub user_id : Option Text
  pub backend : Text
  pub error_kind : Option Text
  pub error_message : Option Text
  pub error_stack : Option Text

pub record LogRow : Type 0 where
  pub invocation_id : Option Text
  pub ts_ms : ℕ
  pub level : Text
  pub function_name : Option Text
  pub source : Text
  pub message : Text

pub data Queued : Type 0 where
  invocation : InvocationRow → Queued
  log : LogRow → Queued

-- What the database does: each statement gives its next state and whether it succeeded, and a
-- rollback that fails is ignored.
pub record Database : Type 1 where
  pub State : Type 0
  pub begin : State → State × Bool
  pub insert : Queued → State → State × Bool
  pub commit : State → State × Bool
  pub rollback : State → State

pub record LogWriterOptions : Type 0 where
  pub flush_interval_ms : ℕ
  pub flush_threshold : ℕ
  pub max_queue : ℕ
  pub max_message_length : ℕ

pub record LogWriterStats : Type 0 where
  pub queued : ℕ
  pub written : ℕ
  pub dropped : ℕ
  pub write_errors : ℕ

-- `flush_timer`: whether the timer is armed.
pub record LogWriter (State : Type 0) : Type 0 where
  pub db : State
  pub queue : List Queued
  pub flush_timer : Bool
  pub stopped : Bool
  pub stats : LogWriterStats

pub clamp : ℕ → Text → Text
clamp max msg = if ltb max (length msg) then take max msg ++ 0x2026 ∷ [] else msg

abbrev clamp_some : ℕ → Option Text → Option Text
clamp_some max none = none
clamp_some max (some s) = some (clamp max s)

-- The values that `writeOne` stores of an item.
pub row_of : ℕ → Queued → Queued
unfolding clamp
row_of max (invocation r) = invocation (record r {
  error_message = clamp_some max r.error_message;
  error_stack = clamp_some max r.error_stack;
})
row_of max (log r) = log (record r { message = clamp max r.message })

module _ (database : Database) (opts : LogWriterOptions) where
  open database use {State, begin, insert, commit, rollback}

  pub created : State → LogWriter State
  created s = record {
    db = s;
    queue = [];
    flush_timer = false;
    stopped = false;
    stats = record { queued = 0; written = 0; dropped = 0; write_errors = 0 };
  }

  pub write_one : Queued → State → State × Bool
  unfolding row_of
  write_one item s = insert (row_of opts.max_message_length item) s

  -- The rows of a batch until one fails.
  write_batch : List Queued → State → State × Bool
  unfolding write_one
  write_batch [] s = (s, true)
  write_batch (item ∷ batch) s =
      let (s', written) = write_one item s in
      let rest = write_batch batch s' in if written then rest else (s', false)

  commit_if : State × Bool → State × Bool
  commit_if (s, false) = (s, false)
  commit_if (s, true) = commit s

  rollback_unless : State × Bool → State × Bool
  rollback_unless (s, true) = (s, true)
  rollback_unless (s, false) = (rollback s, false)

  -- One transaction, and whether it was committed.
  pub transact : List Queued → State → State × Bool
  unfolding write_batch commit_if rollback_unless
  transact batch s =
      let (s', begun) = begin s in
      if begun then rollback_unless (commit_if (write_batch batch s')) else (s', false)

  count_batch : ℕ → Bool → LogWriterStats → LogWriterStats
  count_batch n true st = record st { queued = 0; written = st.written + n }
  count_batch n false st = record st { queued = 0; write_errors = st.write_errors + n }

  pub flush_now : LogWriter State → LogWriter State
  unfolding transact count_batch
  flush_now w =
      if eqb (length w.queue) 0
      then record w { flush_timer = false }
      else let (s, committed) = transact w.queue w.db in
        record w {
          db = s;
          queue = [];
          flush_timer = false;
          stats = count_batch (length w.queue) committed w.stats;
        }

  count_one : Bool → LogWriterStats → LogWriterStats
  count_one true st = record st { written = st.written + 1 }
  count_one false st = record st { write_errors = st.write_errors + 1 }

  -- Without an interval every row is written at once.
  write_through : Queued → LogWriter State → LogWriter State
  unfolding write_one count_one
  write_through item w =
      let (s, written) = write_one item w.db in
      record w { db = s; stats = count_one written w.stats }

  -- The queue with the item, without its oldest ones where it is too long.
  push_bounded : Queued → LogWriter State → LogWriter State
  push_bounded item w =
      let queue = w.queue ++ item ∷ [] in
      let overflow = length queue - opts.max_queue in
      let kept = drop overflow queue in
      record w {
        queue = kept;
        stats = record w.stats { queued = length kept; dropped = w.stats.dropped + overflow };
      }

  arm_timer : LogWriter State → LogWriter State
  arm_timer w = record w { flush_timer = true }

  flush_or_wait : LogWriter State → LogWriter State
  unfolding flush_now arm_timer
  flush_or_wait w = if leb opts.flush_threshold (length w.queue) then flush_now w else arm_timer w

  take_item : Queued → LogWriter State → LogWriter State
  unfolding write_through push_bounded flush_or_wait
  take_item item w =
      if eqb opts.flush_interval_ms 0
      then write_through item w
      else flush_or_wait (push_bounded item w)

  pub enqueue : Queued → LogWriter State → LogWriter State
  unfolding take_item
  enqueue item w = if w.stopped then w else take_item item w

  -- The timer has run out.
  pub timer_fires : LogWriter State → LogWriter State
  unfolding flush_now
  timer_fires w = flush_now (record w { flush_timer = false })

  pub stop : LogWriter State → LogWriter State
  unfolding flush_now
  stop w = if w.stopped then w else flush_now (record w { stopped = true })
