-- ===== src/DepGraph/Walk/Reach/Visit.antt =====
-- A round of the walk: what it adds to the files of the graph and to the next frontier.
use tube.Common.{
  ◌≡◌, inl, inr, refl, Bool, false, not, ◌&&◌, ◌||◌, Bool-cases, Option, none, some, List, [], ◌∷◌,
  ◌++◌, arith, ◌==◌, text_eq, text_beq_iff,
}
use tube.Common.Sets.{member, member-append}
use tube.Common.Text.{Text}
use tube.DepGraph.Index.{FunctionGraph}
use tube.DepGraph.Walk.{ParsedFile, visit_files, visit_results}

-- The files that the results import.
abbrev pub imported : List (Option ParsedFile) → List Text
imported [] = []
imported (none ∷ rs) = imported rs
imported (some r ∷ rs) = r.files ++ imported rs

visit_files-append :
    (fs gs files next : List Text)
    → visit_files (fs ++ gs) files next
      ≡ visit_files gs (visit_files fs files next).0 (visit_files fs files next).1
unfolding visit_files
visit_files-append [] gs files next = refl
visit_files-append (f ∷ fs) gs files next = elim (Bool-cases (member f files)) [
  | inl old ↦ rw (old, visit_files) (visit_files-append fs gs files next)
  | inr new ↦ rw (new, visit_files) (visit_files-append fs gs (files ++ f ∷ []) (next ++ f ∷ []))
]

pub visit_results-files :
    (rs : List (Option ParsedFile)) (g : FunctionGraph) (next : List Text)
    → ((visit_results rs g next).0.files ≡ (visit_files (imported rs) g.files next).0)
      × ((visit_results rs g next).1 ≡ (visit_files (imported rs) g.files next).1)
unfolding visit_results
visit_results-files [] g next = unfold visit_files in (refl, refl)
visit_results-files (none ∷ rs) g next = visit_results-files rs g next
visit_results-files (some r ∷ rs) g next =
    rw (visit_files-append r.files (imported rs) g.files next)
      (visit_results-files rs _ (visit_files r.files g.files next).1)

pub member-cons : (x y : Text) (s : List Text) → member x (y ∷ s) ≡ (y == x || member x s)
unfolding member
member-cons x y s = refl

pub member-empty : (x : Text) → member x [] ≡ false
unfolding member
member-empty x = refl

pub member-visit_files :
    (x : Text) (fs files next : List Text)
    → (member x (visit_files fs files next).0 ≡ (member x files || member x fs))
      × (member x (visit_files fs files next).1
          ≡ (member x next || (member x fs && not (member x files))))
unfolding visit_files
member-visit_files x [] files next = ground (arith, member-empty x)
member-visit_files x (f ∷ fs) files next = elim (Bool-cases (member f files)) [
  | inl old ↦
      rw (old, visit_files)
        (ground (arith, member-visit_files x fs files next, member-cons x f fs, text_beq_iff f x))
  | inr new ↦
      rw (new, visit_files)
        (ground (
          arith,
          member-visit_files x fs (files ++ f ∷ []) (next ++ f ∷ []),
          member-append x files (f ∷ []),
          member-append x next (f ∷ []),
          member-cons x f fs,
          member-cons x f [],
          member-empty x,
          text_beq_iff f x,
        ))
]

-- Whether a result imports a file.
abbrev pub gives : Option ParsedFile → Text → Bool
gives none h = false
gives (some r) h = member h r.files

pub member-imported :
    (h : Text) (o : Option ParsedFile) (rs : List (Option ParsedFile))
    → member h (imported (o ∷ rs)) ≡ (gives o h || member h (imported rs))
member-imported h none rs = refl
member-imported h (some r) rs = member-append h r.files (imported rs)
