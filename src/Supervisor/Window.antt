-- ===== src/Supervisor/Window.antt =====
-- The sliding window of `record`: what it holds after any number of outcomes.
use tube.Common.{
  ℕ, ◌+◌, ◌-◌, ◌≡◌, refl, ap, ◌∙◌, sym, Bool, some, Bool-cases, inl, inr, tests, ltb→lt, leb_of_ltb,
  List, [], ◌∷◌, ◌++◌, arith, ltb, length, drop, last, length-append, length-last, drop-drop,
  drop-append_le,
}
use mathlib.Core.List.{append_assoc, append-nil}
use tube.Manifest.{FunctionManifest}
use tube.Supervisor.{SupervisorState, slide, error_bit, record_state}

-- Sliding a window of the last `win` bits gives the last `win` bits with the new one.
pub slide-last :
    (win : ℕ) (h : List ℕ) (bit : ℕ) → slide win (last win h) bit ≡ last win (h ++ bit ∷ [])
unfolding slide
slide-last win h bit = elim (Bool-cases (ltb win (length (last win h ++ bit ∷ [])))) [
  | inl over ↦ rw over (
      ap (drop (length (last win h ++ bit ∷ []) - win)) (sym pushed)
      ∙ drop-drop _ (length h - win) (h ++ bit ∷ [])
      ∙ ap (λ k. drop k (h ++ bit ∷ []))
          (omega (tests, sizes, size, length-last win h, ltb→lt _ _ over)))
  | inr fits ↦ rw fits (
      sym pushed
      ∙ ap (λ k. drop k (h ++ bit ∷ []))
          (omega (arith, sizes, size, length-last win h, leb_of_ltb _ _ fits)))
]
  where
    pushed : drop (length h - win) (h ++ bit ∷ []) ≡ last win h ++ bit ∷ []
    pushed = drop-append_le (length h - win) h (bit ∷ []) (omega arith)

    size : length (h ++ bit ∷ []) ≡ length h + 1
    size = length-append h (bit ∷ [])

    sizes : length (last win h ++ bit ∷ []) ≡ length (last win h) + 1
    sizes = length-append (last win h) (bit ∷ [])

-- One `record` after another, each with its time.
unfoldable pub record_all : FunctionManifest → List (Bool × ℕ) → SupervisorState → SupervisorState
record_all m [] st = st
record_all m ((error, now) ∷ events) st = record_all m events (record_state (some m) error now st).1

abbrev pub bits : List (Bool × ℕ) → List ℕ
bits [] = []
bits ((error, now) ∷ events) = error_bit error ∷ bits events

pub record_window :
    (m : FunctionManifest) (error : Bool) (now : ℕ) (st : SupervisorState)
    → (record_state (some m) error now st).1.window
      ≡ slide m.recycle.error_window st.window (error_bit error)
unfolding record_state
record_window m error now st = refl

-- After any outcomes the window holds exactly the last `errorWindow` of them, oldest first.
pub record_all-window :
    (m : FunctionManifest) (events : List (Bool × ℕ)) (st : SupervisorState) (h : List ℕ)
    → st.window ≡ last m.recycle.error_window h
    → (record_all m events st).window ≡ last m.recycle.error_window (h ++ bits events)
unfolding record_all
record_all-window m [] st h e = rw append-nil e
record_all-window m ((error, now) ∷ events) st h e =
    record_all-window m events (record_state (some m) error now st).1 (h ++ error_bit error ∷ []) (
      record_window m error now st
      ∙ ap (λ w. slide m.recycle.error_window w (error_bit error)) e
      ∙ slide-last m.recycle.error_window h (error_bit error))
    ∙ ap (last m.recycle.error_window) (append_assoc h (error_bit error ∷ []) (bits events))
