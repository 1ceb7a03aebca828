-- ===== src/DepGraph/Walk/Reach/Missing.antt =====
-- The measure of the walk: the files that it has not found yet.
use tube.Common.{
  ℕ, ◌+◌, ◌<◌, ◌≤◌, ◌≡◌, ◌⊎◌, inl, inr, refl, true, false, ◌||◌, Bool-cases, List, [], ◌∷◌, ◌++◌,
  length, if◌then◌else◌, arith, ◌==◌, text_eq, text_beq_iff,
}
use tube.Common.Sets.{member, member-append}
use tube.Common.Text.{Text}
use tube.DepGraph.Walk.{visit_files}

-- The number of files of `u` that are not in `s`.
pub missing : List Text → List Text → ℕ
missing [] s = 0
missing (x ∷ u) s = (if member x s then 0 else 1) + missing u s

pub missing-length : (u s : List Text) → missing u s ≤ length u
unfolding missing
missing-length [] s = omega arith
missing-length (x ∷ u) s = ground (arith, missing-length u s)

member-snoc : (x f : Text) (s : List Text) → member x (s ++ f ∷ []) ≡ (member x s || f == x)
member-snoc x f s = unfold member in ground (arith, member-append x s (f ∷ []))

missing_le : (u s : List Text) (f : Text) → missing u (s ++ f ∷ []) ≤ missing u s
unfolding missing
missing_le [] s f = omega arith
missing_le (x ∷ u) s f = ground (arith, missing_le u s f, member-snoc x f s)

missing_lt :
    (u s : List Text) (f : Text)
    → member f u ≡ true
    → member f s ≡ false
    → missing u (s ++ f ∷ []) < missing u s
unfolding missing member
missing_lt [] s f h new = cc
missing_lt (x ∷ u) s f h new = elim (Bool-cases (x == f)) [
  | inl same ↦
      ground (arith, missing_le u s f, member-snoc x f s, text_beq_iff x f, text_beq_iff f x)
  | inr other ↦ ground (arith, missing_lt u s f, member-snoc x f s)
]

abbrev pub Subset : List Text → List Text → Type 0
Subset s u = (x : Text) → member x s ≡ true → member x u ≡ true

Subset-tail : (f : Text) (fs u : List Text) → Subset (f ∷ fs) u → Subset fs u
unfolding member
Subset-tail f fs u h x m = h x (ground arith)

Subset-head : (f : Text) (fs u : List Text) → Subset (f ∷ fs) u → member f u ≡ true
unfolding member
Subset-head f fs u h = h f (ground (arith, text_beq_iff f f))

-- Visiting either finds no file and leaves the frontier, or lowers the measure.
pub visit_files-progress :
    (u fs files next : List Text)
    → Subset fs u
    → (missing u (visit_files fs files next).0 ≤ missing u files)
      × (((visit_files fs files next).1 ≡ next)
          ⊎ (missing u (visit_files fs files next).0 < missing u files))
unfolding visit_files
visit_files-progress u [] files next h = (omega arith, inl refl)
visit_files-progress u (f ∷ fs) files next h = elim (Bool-cases (member f files)) [
  | inl old ↦ rw (old, visit_files) (visit_files-progress u fs files next (Subset-tail f fs u h))
  | inr new ↦
      rw (new, visit_files)
        (let rest =
            visit_files-progress u fs (files ++ f ∷ []) (next ++ f ∷ []) (Subset-tail f fs u h) in
          let less = missing_lt u files f (Subset-head f fs u h) new in
          (omega (arith, rest.0), inr (omega (arith, rest.0))))
]
