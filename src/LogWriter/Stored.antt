-- ===== src/LogWriter/Stored.antt =====
-- The rows that the database has, against those that the writer says it has written.
use tube.Common.{ℕ, ◌+◌, ◌≡◌, true, List, [], ◌∷◌, ◌++◌, if◌then◌else◌, length}
use tube.LogWriter.{Queued, Database, LogWriterOptions, LogWriter}

-- What a database of transactions does, by the rows that it has and, in a transaction, those that it had
-- at the beginning: an insert that succeeds adds its row, one that fails adds nothing, a commit that
-- succeeds keeps the rows, and a rollback brings back those of the beginning.
pub record Stores (database : Database) (rows saved : database.State → List Queued) : Type 0 where
  pub begin_same : (s : database.State) → rows (database.begin s).0 ≡ rows s
  pub begin_saves :
      (s : database.State) → (database.begin s).1 ≡ true → saved (database.begin s).0 ≡ rows s
  pub insert_adds :
      (q : Queued) (s : database.State)
      → rows (database.insert q s).0
        ≡ (if (database.insert q s).1 then rows s ++ q ∷ [] else rows s)
  pub insert_saved : (q : Queued) (s : database.State) → saved (database.insert q s).0 ≡ saved s
  pub commit_keeps :
      (s : database.State) → (database.commit s).1 ≡ true → rows (database.commit s).0 ≡ rows s
  pub commit_saved : (s : database.State) → saved (database.commit s).0 ≡ saved s
  pub rollback_restores : (s : database.State) → rows (database.rollback s) ≡ saved s

module _ (database : Database) (opts : LogWriterOptions) (rows saved : database.State → List Queued)
    (db : Stores database rows saved) where
  open database use {State}

  size : State → ℕ
  size s = length (rows s)

  -- The database has as many rows more than `n` as the writer has written.
  IsStored : ℕ → LogWriter State → Type 0
  unfolding size
  IsStored n w = size w.db ≡ n + w.stats.written
