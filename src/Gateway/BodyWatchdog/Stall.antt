-- ===== src/Gateway/BodyWatchdog/Stall.antt =====
-- Stalled bodies, over any run of the stream.
use tube.Common.{◌≡◌, refl, Bool, true, not, ◌&&◌, ◌||◌, List, [], ◌∷◌, if◌then◌else◌, arith}
use tube.Gateway.BodyWatchdog.{
  Phase, closed, stall_error, BodyWatchdog, new_watchdog, is_open, Step, pulls, read_ends,
  timer_fires, aborts, cancels, read_fails, reads, pull, read_chunk, read_done, read_error,
  timer_fired, external_abort, cancel_body, perform, perform_all,
}

abbrev is_clean : Phase → Bool → Bool
is_clean closed stalled = not stalled
is_clean p stalled = true

-- The timer runs exactly during a read of an open stream that has not stalled; a stall has a reason,
-- has cancelled the source, and is followed by no other read; a closed stream has not stalled; `done` has resolved exactly if the
-- stream is no longer open.
abbrev pub is_sound : BodyWatchdog → Bool
is_sound w =
    (if w.timer
      then w.reading && is_open w.phase && not w.did_stall
      else not (w.reading && is_open w.phase && not w.did_stall))
    && (if w.did_stall
        then w.stall_reason && w.source_cancelled && (w.reading || not (is_open w.phase))
        else not w.stall_reason)
    && is_clean w.phase w.did_stall
    && (if w.done then not (is_open w.phase) else is_open w.phase)

perform_sound : (s : Step) (w : BodyWatchdog) → is_sound w ≡ true → is_sound (perform s w) ≡ true
unfolding perform pull read_chunk read_done read_error timer_fired external_abort cancel_body
perform_sound pulls w h = ground (arith, h)
perform_sound read_ends w h = ground (arith, h)
perform_sound timer_fires w h = ground (arith, h)
perform_sound aborts w h = ground (arith, h)
perform_sound cancels w h = ground (arith, h)
perform_sound read_fails w h = ground (arith, h)
perform_sound (reads c) w h = ground (arith, h)

perform_all_sound :
    (steps : List Step) (w : BodyWatchdog)
    → is_sound w ≡ true
    → is_sound (perform_all steps w) ≡ true
unfolding perform_all
perform_all_sound [] w h = h
perform_all_sound (s ∷ ss) w h = perform_all_sound ss (perform s w) (perform_sound s w h)

-- After any steps of the source, the timer, the signal and the consumer on a body that has just been
-- wrapped, the timer runs exactly while an open stream that has not stalled is read, a stalled stream
-- has not been closed as if it were complete, and `done` has resolved exactly if the stream has
-- ended.
pub perform_all-is_sound : (steps : List Step) → is_sound (perform_all steps new_watchdog) ≡ true
perform_all-is_sound steps = perform_all_sound steps new_watchdog refl

stalled_read :
    (w : BodyWatchdog)
    → is_sound w ≡ true
    → w.timer ≡ true
    → ((perform read_ends (perform timer_fires w)).phase ≡ stall_error)
      × ((perform read_ends (perform timer_fires w)).done ≡ true)
unfolding perform read_done timer_fired
stalled_read w h t = (ground (arith, h, t), ground (arith, h, t))

-- Whenever the timer runs, its end cancels the read, and the end of that read fails the stream with
-- the stall and resolves `done`, whatever has happened before: a source that stalls holds a request
-- no longer than the timer.
pub perform_all-stall_error :
    (steps : List Step)
    → (perform_all steps new_watchdog).timer ≡ true
    → ((perform read_ends (perform timer_fires (perform_all steps new_watchdog))).phase
        ≡ stall_error)
      × ((perform read_ends (perform timer_fires (perform_all steps new_watchdog))).done ≡ true)
perform_all-stall_error steps t =
    stalled_read (perform_all steps new_watchdog) (perform_all-is_sound steps) t

aborted_read :
    (w : BodyWatchdog)
    → is_sound w ≡ true
    → w.timer ≡ true
    → ((perform read_ends (perform aborts w)).phase ≡ closed)
      × ((perform read_ends (perform aborts w)).chunks ≡ w.chunks)
unfolding perform read_done external_abort
aborted_read w h t = (ground (arith, h, t), ground (arith, h, t))

-- While the stream is read and has not stalled, an abort from outside makes the end of the read close
-- it as if the body were complete.
pub perform_all-closed :
    (steps : List Step)
    → (perform_all steps new_watchdog).timer ≡ true
    → ((perform read_ends (perform aborts (perform_all steps new_watchdog))).phase ≡ closed)
      × ((perform read_ends (perform aborts (perform_all steps new_watchdog))).chunks
          ≡ (perform_all steps new_watchdog).chunks)
perform_all-closed steps t =
    aborted_read (perform_all steps new_watchdog) (perform_all-is_sound steps) t
