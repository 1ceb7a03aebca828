-- ===== src/Debouncer/Runs.antt =====
-- Runs of the debouncer: no change of a file is lost.
use tube.Common.{
  ◌≡◌, inl, inr, refl, ◌∙◌, Bool, true, false, ◌||◌, Bool-cases, Option, none, some, is_some, List,
  [], ◌∷◌, ◌++◌, arith, text_eq,
}
use tube.Common.Sets.{member, add, member-append, member-add}
use tube.Common.Text.{Text}
use tube.Debouncer.{
  DebouncerConfig, ReloadDebouncer, idle, add_paths, arm, push, flush, fire, finish, drain,
}

-- What happens to a debouncer that is not cancelled.
pub data Step : Type 0 where
  pushing : List Text → Step
  fires finishes draining : Step

abbrev flushed_or_empty : Option (List Text) → List Text
flushed_or_empty none = []
flushed_or_empty (some paths) = paths

-- A step: the paths that leave the debouncer, to a flush or to `drain`, and the debouncer after it.
unfoldable pub perform : DebouncerConfig → Step → ReloadDebouncer → List Text × ReloadDebouncer
unfolding push fire finish drain
perform cfg (pushing paths) d = ([], push cfg paths d)
perform cfg fires d = let (paths, d') = fire d in (flushed_or_empty paths, d')
perform cfg finishes d = ([], finish cfg d)
perform cfg draining d = drain d

unfoldable pub perform_all :
    DebouncerConfig → List Step → ReloadDebouncer → List Text × ReloadDebouncer
unfolding perform
perform_all cfg [] d = ([], d)
perform_all cfg (s ∷ ss) d =
    let (left, d') = perform cfg s d in
    let (rest, last) = perform_all cfg ss d' in (left ++ rest, last)

abbrev pub pushed : Step → List Text
pushed (pushing paths) = paths
pushed fires = []
pushed finishes = []
pushed draining = []

abbrev pub all_pushed : List Step → List Text
all_pushed [] = []
all_pushed (s ∷ ss) = pushed s ++ all_pushed ss

abbrev pub is_empty : List Text → Bool
is_empty [] = true
is_empty (x ∷ xs) = false

-- Pending paths have a timer or a flush under way, which will take them up.
pub record IsLive (d : ReloadDebouncer) : Type 0 where
  pub taken_up : is_empty d.pending || (is_some d.timer || d.flushing) ≡ true

is_empty-add : (p : Text) (s : List Text) → is_empty (add p s) ≡ false
unfolding add member
is_empty-add p [] = refl
is_empty-add p (x ∷ s) = ground arith

add_old : (p : Text) (s : List Text) → member p s ≡ true → add p s ≡ s
unfolding add
add_old p s old = rw old refl

add_paths_same : (ps s : List Text) → (add_paths ps s).1 ≡ false → (add_paths ps s).0 ≡ s
unfolding add_paths
add_paths_same [] s h = refl
add_paths_same (p ∷ ps) s h = elim (Bool-cases (member p s)) [
  | inl old ↦ add_paths_same ps (add p s) (ground arith) ∙ add_old p s old
  | inr new ↦ absurd (ground arith)
]

member-add_paths :
    (x : Text) (ps s : List Text) → member x (add_paths ps s).0 ≡ (member x ps || member x s)
unfolding add_paths member
member-add_paths x [] s = ground arith
member-add_paths x (p ∷ ps) s = ground (arith, member-add_paths x ps (add p s), member-add x p s)

member-push :
    (cfg : DebouncerConfig) (x : Text) (ps : List Text) (d : ReloadDebouncer)
    → member x (push cfg ps d).pending ≡ (member x ps || member x d.pending)
unfolding push arm
member-push cfg x ps d = ground (arith, member-add_paths x ps d.pending)

-- A path is in the debouncer or has left it exactly if it was there or was pushed.
perform_kept :
    (cfg : DebouncerConfig) (x : Text) (s : Step) (d : ReloadDebouncer)
    → (member x (perform cfg s d).0 || member x (perform cfg s d).1.pending)
      ≡ (member x (pushed s) || member x d.pending)
unfolding perform member
perform_kept cfg x (pushing paths) d = member-push cfg x paths d
perform_kept cfg x fires d = unfold fire flush in ground arith
perform_kept cfg x finishes d = unfold finish in ground arith
perform_kept cfg x draining d = unfold drain in ground arith

push-IsLive :
    (cfg : DebouncerConfig) (paths : List Text) (d : ReloadDebouncer)
    → IsLive d
    → IsLive (push cfg paths d)
unfolding push
push-IsLive cfg paths d h = elim (Bool-cases (add_paths paths d.pending).1) [
  | inl added ↦ rw (added, push) (record { taken_up = unfold arm in ground arith })
  | inr same ↦
      rw (same, push, add_paths_same paths d.pending same) (record { taken_up = h.taken_up })
]

perform-IsLive :
    (cfg : DebouncerConfig) (s : Step) (d : ReloadDebouncer) → IsLive d → IsLive (perform cfg s d).1
unfolding perform
perform-IsLive cfg (pushing paths) d h = push-IsLive cfg paths d h
perform-IsLive cfg fires d h = record { taken_up = unfold fire flush in ground (arith, h.taken_up) }
perform-IsLive cfg finishes d h = record { taken_up = unfold finish in ground (arith, h.taken_up) }
perform-IsLive cfg draining d h = record { taken_up = refl }

perform_all-IsLive_from :
    (cfg : DebouncerConfig) (ss : List Step) (d : ReloadDebouncer)
    → IsLive d
    → IsLive (perform_all cfg ss d).1
unfolding perform_all
perform_all-IsLive_from cfg [] d h = h
perform_all-IsLive_from cfg (s ∷ ss) d h =
    perform_all-IsLive_from cfg ss (perform cfg s d).1 (perform-IsLive cfg s d h)

-- After any pushes, timers, ends of flushes and drains from the start, pending paths have a timer
-- armed or a flush under way.
pub perform_all-IsLive :
    (cfg : DebouncerConfig) (ss : List Step) → IsLive (perform_all cfg ss idle).1
perform_all-IsLive cfg ss = perform_all-IsLive_from cfg ss idle (record { taken_up = refl })

perform_all_kept :
    (cfg : DebouncerConfig) (x : Text) (ss : List Step) (d : ReloadDebouncer)
    → (member x (perform_all cfg ss d).0 || member x (perform_all cfg ss d).1.pending)
      ≡ (member x (all_pushed ss) || member x d.pending)
unfolding perform_all
perform_all_kept cfg x [] d = refl
perform_all_kept cfg x (s ∷ ss) d = ground (
  arith,
  perform_all_kept cfg x ss (perform cfg s d).1,
  perform_kept cfg x s d,
  member-append x (perform cfg s d).0 (perform_all cfg ss (perform cfg s d).1).0,
  member-append x (pushed s) (all_pushed ss),
)

-- No path is lost or made up: from the start, a path is pending or has been handed to a flush or to
-- `drain` exactly if it was pushed.
pub member-perform_all :
    (cfg : DebouncerConfig) (x : Text) (ss : List Step)
    → (member x (perform_all cfg ss idle).0 || member x (perform_all cfg ss idle).1.pending)
      ≡ member x (all_pushed ss)
unfolding member
member-perform_all cfg x ss = ground (arith, perform_all_kept cfg x ss idle)

-- What pending paths wait for: the end of a flush and the timer that it arms, or the timer.
abbrev pub settling : List Step
settling = fires ∷ finishes ∷ fires ∷ []

settled :
    (cfg : DebouncerConfig) (d : ReloadDebouncer)
    → IsLive d
    → is_empty (perform_all cfg settling d).1.pending ≡ true
unfolding perform_all perform fire flush finish
settled cfg d h = ground (arith, h.taken_up)

-- Whatever has happened from the start, once the timer fires, the flush ends, and the timer fires
-- again, with no push between, nothing is pending.
pub perform_all-settling :
    (cfg : DebouncerConfig) (ss : List Step)
    → is_empty (perform_all cfg settling (perform_all cfg ss idle).1).1.pending ≡ true
perform_all-settling cfg ss = settled cfg (perform_all cfg ss idle).1 (perform_all-IsLive cfg ss)
