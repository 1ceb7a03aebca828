-- ===== src/LogBuffer.antt =====
-- log-buffer.ts: `StreamBuffer`. The stream is a parameter: `write_sync`, of the bytes that it has
-- taken so far and of those that it is given, says how many of these it takes, `none` where it
-- throws. A line is its UTF-8 bytes, and `bytesPending`, which nothing reads, is left out.
pub mod Lines
mod Tests
use tube.Common.{
  ℕ, zero, suc, ◌+◌, ◌-◌, Bool, true, false, ◌||◌, Option, none, some, List, [], ◌∷◌, ◌++◌, ltb,
  leb, eqb, if◌then◌else◌, length, take, drop,
}
use tube.Common.Text.{Text}

-- `is_sync` is `cfg.syncMode || cfg.flushIntervalMs <= 0`.
pub record LogBufferConfig : Type 0 where
  pub is_sync : Bool
  pub flush_threshold : ℕ

pub record StreamBuffer : Type 0 where
  pub buf : List Text
  pub has_timer : Bool
  -- What the stream has taken.
  pub out : Text

abbrev pub empty : StreamBuffer
empty = record { buf = []; has_timer = false; out = [] }

-- `lines.join("\n") + "\n"`: each line and its line feed.
unfoldable pub joined : List Text → Text
joined [] = []
joined (line ∷ lines) = line ++ 10 ∷ joined lines

module _ (write_sync : Text → Text → Option ℕ) where
  -- One call of `writeSync` that the stream answers with a number: what it has then taken.
  abbrev pub accept : ℕ → Text → Text → Text
  accept n bytes out = out ++ take n bytes

  -- The loop of `flushNow`. Each round takes a byte at least, so `fuel` is the number of bytes.
  unfoldable pub flush_loop : ℕ → Text → Text → Text
  flush_loop fuel [] out = out
  flush_loop zero (b ∷ bytes) out = out
  flush_loop (suc fuel) (b ∷ bytes) out = elim (write_sync out (b ∷ bytes)) [
    | none ↦ out
    | some zero ↦ out
    | some (suc n) ↦ flush_loop fuel (drop (suc n) (b ∷ bytes)) (accept (suc n) (b ∷ bytes) out)
  ]

  unfoldable pub flush_now : StreamBuffer → StreamBuffer
  unfolding flush_loop joined
  flush_now s = record {
    buf = [];
    has_timer = false;
    out = flush_loop (length (joined s.buf)) (joined s.buf) s.out;
  }

  pub write_one : Text → StreamBuffer → StreamBuffer
  write_one line s = elim (write_sync s.out (line ++ 10 ∷ [])) [
    | none ↦ s
    | some n ↦ record s { out = accept n (line ++ 10 ∷ []) s.out }
  ]

  unfoldable pub write : LogBufferConfig → Text → StreamBuffer → StreamBuffer
  unfolding write_one flush_now
  write cfg line s =
      let buffered = record s { buf = s.buf ++ line ∷ [] } in
      if cfg.is_sync
      then write_one line s
      else if leb cfg.flush_threshold (length buffered.buf)
      then flush_now buffered
      else record buffered { has_timer = true }

  pub pending : StreamBuffer → ℕ
  pending s = length s.buf
