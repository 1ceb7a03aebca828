-- ===== src/Gateway/BodyWatchdog.antt =====
-- gateway/body-watchdog.ts: `watchdogBody`, the wrapped body of a request and its stall timer. The
-- source, the timer, the abort signal and the consumer act by steps; a chunk is a number.
pub mod Stall
mod Tests
use tube.Common.{ℕ, Bool, true, false, not, ◌&&◌, ◌||◌, List, [], ◌∷◌, ◌++◌, if◌then◌else◌, ltb}

-- The wrapped stream: still open, closed, failed by the stall or by the source, or cancelled.
pub data Phase : Type 0 where
  readable closed stall_error source_error cancelled : Phase

-- `reading`: a `pull` waits for a read of the source. `listening`: the abort of the signal, or the
-- microtask for one that has been aborted before, has not come yet. `source_cancelled`: the pending
-- read ends as done.
pub record BodyWatchdog : Type 0 where
  pub phase : Phase
  pub reading : Bool
  pub timer : Bool
  pub did_stall : Bool
  pub stall_reason : Bool
  pub listening : Bool
  pub source_cancelled : Bool
  pub done : Bool
  pub chunks : List ℕ

pub data WatchedBody : Type 0 where
  unchanged : WatchedBody
  wrapped : BodyWatchdog → WatchedBody

abbrev pub new_watchdog : BodyWatchdog
new_watchdog = record {
  phase = readable;
  reading = false;
  timer = false;
  did_stall = false;
  stall_reason = false;
  listening = true;
  source_cancelled = false;
  done = false;
  chunks = [];
}

pub watchdog_body : ℕ → WatchedBody
watchdog_body idle_ms = if ltb 0 idle_ms then wrapped new_watchdog else unchanged

abbrev pub is_open : Phase → Bool
is_open readable = true
is_open _ = false

-- The stream takes a chunk, a close or an error only while it is open.
abbrev settled : Phase → Phase → Phase
settled readable p = p
settled p _ = p

abbrev on_external_abort : BodyWatchdog → BodyWatchdog
on_external_abort w = record w { listening = false; source_cancelled = true }

pub data Step : Type 0 where
  pulls read_ends timer_fires aborts cancels read_fails : Step
  reads : ℕ → Step

-- `pull`, up to its read.
pull : BodyWatchdog → BodyWatchdog
pull w = if is_open w.phase && not w.reading then record w { reading = true; timer = true } else w

-- The read has a chunk; a cancelled source has none.
read_chunk : ℕ → BodyWatchdog → BodyWatchdog
read_chunk c w =
    if w.reading && not w.source_cancelled
    then record w {
      reading = false;
      timer = false;
      chunks = if is_open w.phase then w.chunks ++ c ∷ [] else w.chunks;
    }
    else w

-- The read is done.
read_done : BodyWatchdog → BodyWatchdog
read_done w =
    if w.reading
    then record w {
      reading = false;
      timer = false;
      phase = settled w.phase (if w.stall_reason then stall_error else closed);
      done = true;
    }
    else w

-- The read has thrown.
read_error : BodyWatchdog → BodyWatchdog
read_error w =
    if w.reading
    then record w {
      reading = false;
      timer = false;
      phase = settled w.phase (if w.stall_reason then stall_error else source_error);
      done = true;
    }
    else w

-- The timer of `arm`, whose abort reaches the listener if nothing has aborted before.
timer_fired : BodyWatchdog → BodyWatchdog
timer_fired w =
    if w.timer
    then on_external_abort (record w { timer = false; did_stall = true; stall_reason = true })
    else w

external_abort : BodyWatchdog → BodyWatchdog
external_abort w = if w.listening then on_external_abort w else w

-- `cancel` of the wrapped stream; its wait for the source is left out.
cancel_body : BodyWatchdog → BodyWatchdog
cancel_body w =
    if is_open w.phase
    then record w { phase = cancelled; timer = false; source_cancelled = true; done = true }
    else w

unfoldable pub perform : Step → BodyWatchdog → BodyWatchdog
unfolding pull read_chunk read_done read_error timer_fired external_abort cancel_body
perform pulls w = pull w
perform (reads c) w = read_chunk c w
perform read_ends w = read_done w
perform read_fails w = read_error w
perform timer_fires w = timer_fired w
perform aborts w = external_abort w
perform cancels w = cancel_body w

unfoldable pub perform_all : List Step → BodyWatchdog → BodyWatchdog
unfolding perform
perform_all [] w = w
perform_all (s ∷ ss) w = perform_all ss (perform s w)
