-- ===== src/Debouncer/Tests.antt =====
-- The debouncer at concrete values.
use tube.Common.{◌≡◌, refl, ◌||◌, some, List, [], ◌∷◌, text_eq}
use tube.Common.Sets.{member, add}
use tube.Common.Text.{codes}
use tube.Debouncer.{DebouncerConfig, idle, add_paths, arm, push, flush, fire, finish}
use tube.Debouncer.Runs.{
  Step, pushing, fires, finishes, perform, perform_all, all_pushed, member-perform_all,
}

abbrev leading : DebouncerConfig
leading = record { debounce_ms = 200; leading_ms = some 40 }

abbrev burst : List Step
burst = pushing (codes "a" ∷ codes "a" ∷ []) ∷ fires ∷ pushing (codes "b" ∷ []) ∷ finishes ∷ []

straggler :
    ((perform_all leading burst idle).0 ≡ codes "a" ∷ [])
    × ((perform_all leading burst idle).1.pending ≡ codes "b" ∷ [])
    × ((perform_all leading burst idle).1.timer ≡ some 200)
unfolding perform_all perform push fire flush finish arm add_paths add member
straggler = (refl, refl, refl)

member-perform_all_example :
    (member (codes "b") (perform_all leading burst idle).0
      || member (codes "b") (perform_all leading burst idle).1.pending)
    ≡ member (codes "b") (all_pushed burst)
member-perform_all_example = member-perform_all leading (codes "b") burst
