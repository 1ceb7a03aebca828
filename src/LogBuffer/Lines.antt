-- ===== src/LogBuffer/Lines.antt =====
-- The lines reach the stream whole and in order.
use tube.Common.{
  ℕ, zero, suc, ◌<◌, ◌≤◌, ◌≡◌, refl, ap, sym, ◌∙◌, false, Bool-cases, Option-cases, inl, inr,
  Option, some, List, [], ◌∷◌, ◌++◌, leb, length, take, drop, arith, take-append-drop, length-drop,
}
use mathlib.Core.List.{append_assoc, append-nil}
use tube.Common.Text.{Text}
use tube.LogBuffer.{
  LogBufferConfig, StreamBuffer, empty, joined, flush_loop, flush_now, write, write_one,
}

joined-append : (a b : List Text) → joined (a ++ b) ≡ joined a ++ joined b
unfolding joined
joined-append [] b = refl
joined-append (line ∷ a) b =
    rw (joined-append a b) (sym (append_assoc line (10 ∷ joined a) (joined b)))

module _ (write_sync : Text → Text → Option ℕ) where
  -- The stream answers every write of at least one byte with a number that is not 0.
  pub record Takes : Type 0 where
    pub some_byte :
        (out : Text) (b : ℕ) (bytes : Text) → (n : ℕ) × (write_sync out (b ∷ bytes) ≡ some (suc n))

  flush_loop-append :
      Takes
      → (fuel : ℕ) (bytes out : Text) → length bytes ≤ fuel
      → flush_loop write_sync fuel bytes out ≡ out ++ bytes
  unfolding flush_loop
  flush_loop-append t fuel [] out h = sym (append-nil out)
  flush_loop-append t zero (b ∷ bytes) out h = absurd (omega arith)
  flush_loop-append t (suc fuel) (b ∷ bytes) out h =
      let (n, e) = t.some_byte out b bytes in
      rw (e, flush_loop)
        (flush_loop-append t fuel (drop (suc n) (b ∷ bytes)) (out ++ take (suc n) (b ∷ bytes))
            (omega (arith, length-drop (suc n) (b ∷ bytes)))
          ∙ append_assoc out (take (suc n) (b ∷ bytes)) (drop (suc n) (b ∷ bytes))
          ∙ ap (λ t. out ++ t) (take-append-drop (suc n) (b ∷ bytes)))

  -- What the stream has taken and what waits in the buffer.
  abbrev all_bytes : StreamBuffer → Text
  all_bytes s = s.out ++ joined s.buf

  flush_now-out : Takes → (s : StreamBuffer) → (flush_now write_sync s).out ≡ all_bytes s
  unfolding flush_now
  flush_now-out t s = flush_loop-append t (length (joined s.buf)) (joined s.buf) s.out (omega arith)

  flush_now-all_bytes :
      Takes → (s : StreamBuffer) → all_bytes (flush_now write_sync s) ≡ all_bytes s
  flush_now-all_bytes t s = unfold flush_now joined in append-nil _ ∙ flush_now-out t s

  grown :
      (s : StreamBuffer) (line : Text)
      → s.out ++ joined (s.buf ++ line ∷ []) ≡ all_bytes s ++ (line ++ 10 ∷ [])
  unfolding joined
  grown s line =
      ap (λ t. s.out ++ t) (joined-append s.buf (line ∷ []))
      ∙ sym (append_assoc s.out (joined s.buf) (line ++ 10 ∷ []))

  write-all_bytes :
      Takes
      → (cfg : LogBufferConfig) (line : Text) (s : StreamBuffer) → cfg.is_sync ≡ false
      → all_bytes (write write_sync cfg line s) ≡ all_bytes s ++ (line ++ 10 ∷ [])
  unfolding write
  write-all_bytes t cfg line s buffers =
      elim (Bool-cases (leb cfg.flush_threshold (length (s.buf ++ line ∷ [])))) [
        | inl full ↦
            rw (buffers, full, write)
              (flush_now-all_bytes t (record s { buf = s.buf ++ line ∷ [] }) ∙ grown s line)
        | inr room ↦ rw (buffers, room, write) (grown s line)
      ]

  unfoldable pub write_all : LogBufferConfig → List Text → StreamBuffer → StreamBuffer
  unfolding write
  write_all cfg [] s = s
  write_all cfg (line ∷ lines) s = write_all cfg lines (write write_sync cfg line s)

  write_all-all_bytes :
      Takes
      → (cfg : LogBufferConfig) (lines : List Text) (s : StreamBuffer) → cfg.is_sync ≡ false
      → all_bytes (write_all cfg lines s) ≡ all_bytes s ++ joined lines
  unfolding write_all joined
  write_all-all_bytes t cfg [] s buffers = sym (append-nil (all_bytes s))
  write_all-all_bytes t cfg (line ∷ lines) s buffers =
      write_all-all_bytes t cfg lines (write write_sync cfg line s) buffers
      ∙ ap (λ u. u ++ joined lines) (write-all_bytes t cfg line s buffers)
      ∙ append_assoc (all_bytes s) (line ++ 10 ∷ []) (joined lines)
      ∙ ap (λ u. all_bytes s ++ u) (append_assoc line (10 ∷ []) (joined lines))

  -- With buffering, and a stream that takes at least one byte of each write, the stream has taken
  -- after `flushNow` exactly the lines that were written, whole and in order, each with a line feed,
  -- however the stream cuts the writes.
  pub flush_now-write_all :
      Takes
      → (cfg : LogBufferConfig) (lines : List Text) → cfg.is_sync ≡ false
      → (flush_now write_sync (write_all cfg lines empty)).out ≡ joined lines
  unfolding joined
  flush_now-write_all t cfg lines buffers =
      flush_now-out t (write_all cfg lines empty) ∙ write_all-all_bytes t cfg lines empty buffers

  write_one-buf : (line : Text) (s : StreamBuffer) → (write_one write_sync line s).buf ≡ s.buf
  unfolding write_one
  write_one-buf line s = elim (Option-cases (write_sync s.out (line ++ 10 ∷ []))) [
    | inl closed ↦ rw (closed, write_one) refl
    | inr (n, taken) ↦ rw (taken, write_one) refl
  ]

  write-length :
      (cfg : LogBufferConfig) (line : Text) (s : StreamBuffer)
      → 0 < cfg.flush_threshold
      → length s.buf < cfg.flush_threshold
      → length (write write_sync cfg line s).buf < cfg.flush_threshold
  unfolding write flush_now
  write-length cfg line s pos h = elim (Bool-cases cfg.is_sync) [
    | inl at_once ↦ rw (at_once, write, write_one-buf line s) h
    | inr buffers ↦ elim (Bool-cases (leb cfg.flush_threshold (length (s.buf ++ line ∷ [])))) [
      | inl full ↦ rw (buffers, full, write) pos
      | inr room ↦ rw (buffers, room, write) (ground arith)
    ]
  ]

  write_all-length_from :
      (cfg : LogBufferConfig) (lines : List Text) (s : StreamBuffer)
      → 0 < cfg.flush_threshold
      → length s.buf < cfg.flush_threshold
      → length (write_all cfg lines s).buf < cfg.flush_threshold
  unfolding write_all
  write_all-length_from cfg [] s pos h = h
  write_all-length_from cfg (line ∷ lines) s pos h =
      write_all-length_from cfg lines (write write_sync cfg line s) pos
        (write-length cfg line s pos h)

  -- Whatever the stream does, fewer than `flushThreshold` lines wait in the buffer, for a positive
  -- threshold.
  pub length-write_all :
      (cfg : LogBufferConfig) (lines : List Text)
      → 0 < cfg.flush_threshold
      → length (write_all cfg lines empty).buf < cfg.flush_threshold
  length-write_all cfg lines pos = write_all-length_from cfg lines empty pos pos
