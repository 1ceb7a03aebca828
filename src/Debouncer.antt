-- ===== src/Debouncer.antt =====
-- backends/bun/hot-reloader.ts: `createReloadDebouncer`. The timer is the delay that it was armed
-- with, and its callback, the start of a flush, is the operation `fire`; the end of `flushFn`, with
-- or without an error, is `finish`.
pub mod Runs
mod Tests
use tube.Common.{
  Bool, true, false, ◌||◌, Option, none, some, List, [], ◌∷◌, ◌++◌, if◌then◌else◌, ℕ, text_eq,
}
use tube.Common.Sets.{member, add}
use tube.Common.Text.{Text}

-- `leading_ms` is `none` where it is absent or not positive.
pub record DebouncerConfig : Type 0 where
  pub debounce_ms : ℕ
  pub leading_ms : Option ℕ

pub record ReloadDebouncer : Type 0 where
  pub pending : List Text
  pub timer : Option ℕ
  pub flushing : Bool

abbrev pub idle : ReloadDebouncer
idle = record { pending = []; timer = none; flushing = false }

-- The loop of `push`: the set with the paths, and whether one is new.
unfoldable pub add_paths : List Text → List Text → List Text × Bool
unfolding add
add_paths [] pending = (pending, false)
add_paths (p ∷ ps) pending =
    let (all, added) = add_paths ps (add p pending) in
    (all, if member p pending then added else true)

-- Arm the timer after a push: once for a burst with a leading edge, else anew.
unfoldable pub arm : DebouncerConfig → ReloadDebouncer → ReloadDebouncer
arm cfg d = elim cfg.leading_ms [
  | none ↦ record d { timer = some cfg.debounce_ms }
  | some ms ↦ elim d.timer [
    | none ↦ if d.flushing then d else record d { timer = some ms }
    | some t ↦ d
  ]
]

unfoldable pub push : DebouncerConfig → List Text → ReloadDebouncer → ReloadDebouncer
unfolding add_paths arm
push cfg paths d =
    let (pending, added) = add_paths paths d.pending in
    let pushed = record d { pending = pending } in if added then arm cfg pushed else pushed

-- The callback of the timer: the paths that are handed to `flushFn`, if it is called.
unfoldable pub flush : ReloadDebouncer → Option (List Text) × ReloadDebouncer
flush d = if d.flushing then (none, record d { timer = none }) else elim d.pending [
  | [] ↦ (none, record d { timer = none })
  | p ∷ ps ↦ (some (p ∷ ps), record { pending = []; timer = none; flushing = true })
]

-- The timer fires, if it is armed.
unfoldable pub fire : ReloadDebouncer → Option (List Text) × ReloadDebouncer
unfolding flush
fire d = elim d.timer [ none ↦ (none, d) | some t ↦ flush d ]

-- The `finally` of a flush that is under way.
unfoldable pub finish : DebouncerConfig → ReloadDebouncer → ReloadDebouncer
finish cfg d =
    if d.flushing
    then elim d.pending [
      | [] ↦ record d { flushing = false }
      | p ∷ ps ↦ record d { flushing = false; timer = some cfg.debounce_ms }
    ]
    else d

pub cancel : ReloadDebouncer → ReloadDebouncer
cancel d = record d { timer = none }

unfoldable pub drain : ReloadDebouncer → List Text × ReloadDebouncer
drain d = (d.pending, record d { pending = [] })
