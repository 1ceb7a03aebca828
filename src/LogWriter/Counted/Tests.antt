-- ===== src/LogWriter/Counted/Tests.antt =====
-- A database of the messages written, in which a message `bad` fails its transaction.
use tube.Common.{
  ◌≡◌, refl, Bool, true, false, if◌then◌else◌, List, [], ◌∷◌, ◌++◌, none, ◌==◌, text_eq,
}
use tube.Common.Text.{Text, codes}
use tube.LogWriter.{
  Queued, invocation, log, Database, LogWriterOptions, created, enqueue, flush_now, timer_fires,
  stop,
}
use tube.LogWriter.Counted.{Call, record_row, firing, stopping, perform, perform_all}

abbrev is_bad : Queued → Bool
is_bad (invocation r) = false
is_bad (log r) = r.message == codes "bad"

abbrev toy : Database
toy = record {
  State = List Queued × List Queued;
  begin = λ s. ((s.0, s.0), true);
  insert = λ item s. if is_bad item then (s, false) else ((s.0 ++ item ∷ [], s.1), true);
  commit = λ s. (s, true);
  rollback = λ s. (s.1, s.1);
}

abbrev rows : List Queued × List Queued → List Queued
rows s = s.0

abbrev saved : List Queued × List Queued → List Queued
saved s = s.1

inserted : Bool → Queued → List Queued × List Queued → (List Queued × List Queued) × Bool
inserted b q s = if b then (s, false) else ((s.0 ++ q ∷ [], s.1), true)

abbrev options : LogWriterOptions
options = record {
  flush_interval_ms = 100;
  flush_threshold = 3;
  max_queue = 2;
  max_message_length = 4;
}

abbrev line : Text → Call
line message = record_row (
    log (record {
      invocation_id = none;
      ts_ms = 1;
      level = codes "info";
      function_name = none;
      source = codes "function";
      message = message;
    }))

abbrev calls : List Call
calls =
    line (codes "one")
    ∷ line (codes "two")
    ∷ line (codes "three")
    ∷ firing
    ∷ line (codes "bad")
    ∷ line (codes "four")
    ∷ stopping
    ∷ line (codes "five")
    ∷ []

-- The first line overflows, the next two are written, and the batch with `bad` is lost.
lost :
    (perform_all toy options calls (created toy options ([], []))).stats
    ≡ record { queued = 0; written = 2; dropped = 1; write_errors = 2 }
unfolding perform_all perform enqueue flush_now created timer_fires stop
lost = refl
