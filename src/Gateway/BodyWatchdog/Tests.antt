-- ===== src/Gateway/BodyWatchdog/Tests.antt =====
-- A body of two chunks.
use tube.Common.{◌≡◌, refl, true, List, [], ◌∷◌}
use tube.Gateway.BodyWatchdog.{
  new_watchdog, Step, pulls, reads, read_ends, timer_fires, aborts, closed, stall_error, pull,
  read_chunk, read_done, external_abort, perform, perform_all,
}
use tube.Gateway.BodyWatchdog.Stall.{is_sound, perform_all-is_sound, perform_all-stall_error}

abbrev second_read : List Step
second_read = pulls ∷ reads 7 ∷ pulls ∷ []

perform_all-is_sound_example :
    is_sound (perform_all (pulls ∷ reads 7 ∷ pulls ∷ timer_fires ∷ []) new_watchdog) ≡ true
perform_all-is_sound_example = perform_all-is_sound (pulls ∷ reads 7 ∷ pulls ∷ timer_fires ∷ [])

perform_all-stall_error_example :
    ((perform read_ends (perform timer_fires (perform_all second_read new_watchdog))).phase
      ≡ stall_error)
    × ((perform read_ends (perform timer_fires (perform_all second_read new_watchdog))).done ≡ true)
unfolding perform_all perform pull read_chunk
perform_all-stall_error_example = perform_all-stall_error second_read refl

-- The function timed out while its body was read: the body ends after one chunk.
truncated :
    ((perform read_ends (perform aborts (perform_all second_read new_watchdog))).phase ≡ closed)
    × ((perform read_ends (perform aborts (perform_all second_read new_watchdog))).chunks ≡ 7 ∷ [])
unfolding perform_all perform pull read_chunk read_done external_abort
truncated = (refl, refl)
