-- ===== src/LogBuffer/Tests.antt =====
-- The buffer at concrete values.
use tube.Common.{ℕ, suc, ◌≡◌, refl, false, Option, some, List, [], ◌∷◌}
use tube.Common.Text.{Text, codes}
use tube.LogBuffer.{LogBufferConfig, empty, joined, flush_loop, flush_now, write}
use tube.LogBuffer.Lines.{Takes, write_all, flush_now-write_all}

-- A stream that takes one byte at a time at first, and then two.
abbrev slow : Text → Text → Option ℕ
slow [] bytes = some 1
slow (c ∷ out) bytes = some 2

slow_takes : Takes slow
slow_takes = record { some_byte = takes }
  where
    takes : (out : Text) (b : ℕ) (bytes : Text) → (n : ℕ) × (slow out (b ∷ bytes) ≡ some (suc n))
    takes [] b bytes = (0, refl)
    takes (c ∷ out) b bytes = (1, refl)

abbrev two_at_once : LogBufferConfig
two_at_once = record { is_sync = false; flush_threshold = 2 }

abbrev three_lines : List Text
three_lines = codes "ab" ∷ codes "c" ∷ codes "def" ∷ []

partly_out :
    (write_all slow two_at_once three_lines empty).out ≡ joined (codes "ab" ∷ codes "c" ∷ [])
unfolding write_all write flush_now flush_loop joined
partly_out = refl

flush_now-write_all_example :
    (flush_now slow (write_all slow two_at_once three_lines empty)).out ≡ joined three_lines
flush_now-write_all_example = flush_now-write_all slow slow_takes two_at_once three_lines refl
