-- ===== src/DepGraph/Walk/Reach.antt =====
-- The walk finds exactly the files that the entry reaches by imports, with fuel for the files there
-- are.
mod Missing
mod Visit
use tube.Common.{
  ℕ, zero, suc, ◌+◌, ◌<◌, ◌≤◌, ◌≡◌, ◌↔◌, ◌⊎◌, inl, inr, refl, ap, sym, ◌∙◌, Bool, true, false, not,
  ◌&&◌, ◌||◌, Bool-cases, Option-cases, Option, none, some, List, [], ◌∷◌, ◌++◌, map, length,
  if◌then◌else◌, arith, ◌==◌, text_eq, text_beq_iff,
}
use mathlib.Core.List.{cons≢nil}
use mathlib.Core.Path.{subst}
use tube.Common.JsMap
use tube.Common.Sets.{member, add, add_all, member-append}
use tube.Common.Text.{Text}
use tube.DepGraph.Index.{FunctionGraph}
use tube.DepGraph.Walk.{ParsedFile, visit_files, visit_results, walk_from, walk}
use Visit.{
  imported, visit_results-files, member-cons, member-empty, member-visit_files, gives,
  member-imported,
}
use Missing.{missing, Subset, missing-length, visit_files-progress}

-- A file is imported by a file that can be read.
pub data Imports (parse_file : Text → Option ParsedFile) : Text → Text → Type 0 where
  importing :
      (f h : Text) (r : ParsedFile)
      → parse_file f ≡ some r
      → member h r.files ≡ true
      → Imports parse_file f h

-- The files that an entry reaches.
pub data Reaches (parse_file : Text → Option ParsedFile) (entry : Text) : Text → Type 0 where
  itself : Reaches parse_file entry entry
  through :
      (f h : Text)
      → Reaches parse_file entry f
      → Imports parse_file f h
      → Reaches parse_file entry h

module _ (parse_file : Text → Option ParsedFile) where
  gives-Imports : (f h : Text) → gives (parse_file f) h ≡ true → Imports parse_file f h
  gives-Imports f h g = elim (Option-cases (parse_file f)) [
    | inl absent ↦ cc
    | inr (r, found) ↦ importing f h r found (ap (λ o. gives o h) (sym found) ∙ g)
  ]

  Imports-gives : {f h : Text} → Imports parse_file f h → gives (parse_file f) h ≡ true
  Imports-gives (importing f h r found inside) = ap (λ o. gives o h) found ∙ inside

  -- An imported file has an importer in the frontier, and the other way round.
  imported-importer :
      (h : Text) (fs : List Text)
      → member h (imported (map parse_file fs)) ≡ true
      → (f : Text) × (member f fs ≡ true) × Imports parse_file f h
  imported-importer h [] m = absurd (ground (arith, member-empty h))
  imported-importer h (f ∷ fs) m = elim (Bool-cases (gives (parse_file f) h)) [
    | inl given ↦ (f, ground (arith, member-cons f f fs, text_beq_iff f f), gives-Imports f h given)
    | inr other ↦
        let (g, inside, i) =
          imported-importer h fs
            (ground (arith, member-imported h (parse_file f) (map parse_file fs))) in
        (g, ground (arith, member-cons g f fs), i)
  ]

  importer-imported :
      {f h : Text} (fs : List Text)
      → member f fs ≡ true
      → Imports parse_file f h
      → member h (imported (map parse_file fs)) ≡ true
  importer-imported {f} [] m i = absurd (ground (arith, member-empty f))
  importer-imported {f} {h} (g ∷ fs) m i = elim (Bool-cases (g == f)) [
    | inl same ↦
        let e : gives (parse_file g) h ≡ gives (parse_file f) h =
          ap (λ x. gives (parse_file x) h) ((text_beq_iff g f).0 same) in
        ground (arith, member-imported h (parse_file g) (map parse_file fs), Imports-gives i)
    | inr other ↦ ground (
      arith,
      member-imported h (parse_file g) (map parse_file fs),
      importer-imported fs (ground (arith, member-cons f g fs)) i,
    )
  ]

  -- The files found so far: they are reached, the frontier is among them, and all that the others
  -- import is among them.
  record Found (entry : Text) (files frontier : List Text) : Type 0 where
    entry_found : member entry files ≡ true
    reached : (f : Text) → member f files ≡ true → Reaches parse_file entry f
    frontier_found : (f : Text) → member f frontier ≡ true → member f files ≡ true
    closed :
        (f h : Text)
        → member f files ≡ true
        → member f frontier ≡ false
        → Imports parse_file f h
        → member h files ≡ true

  round-Found :
      (entry : Text) (files frontier : List Text)
      → Found entry files frontier
      → Found entry
          (visit_files (imported (map parse_file frontier)) files []).0
          (visit_files (imported (map parse_file frontier)) files []).1
  round-Found entry files frontier inv =
      let news = imported (map parse_file frontier) in
      record {
        entry_found = ground (arith, member-visit_files entry news files [], inv.entry_found);
        reached = λ f m. elim (Bool-cases (member f files)) [
          | inl old ↦ inv.reached f old
          | inr new ↦
              let (g, inside, i) =
                imported-importer f frontier (ground (arith, member-visit_files f news files [])) in
              through g f (inv.reached g (inv.frontier_found g inside)) i
        ];
        frontier_found = λ f m. ground (arith, member-visit_files f news files [], member-empty f);
        closed = λ f h m done i. elim (Bool-cases (member f frontier)) [
          | inl here ↦
              ground (arith, member-visit_files h news files [], importer-imported frontier here i)
          | inr before ↦ ground (
            arith,
            member-visit_files h news files [],
            inv.closed f h (ground (arith, member-visit_files f news files [], member-empty f))
                before i,
          )
        ];
      }

  abbrev IsUniverse : Text → List Text → Type 0
  IsUniverse entry u = (f : Text) → Reaches parse_file entry f → member f u ≡ true

  news-Subset :
      (entry : Text) (u files frontier : List Text)
      → IsUniverse entry u
      → Found entry files frontier
      → Subset (imported (map parse_file frontier)) u
  news-Subset entry u files frontier all inv x m =
      let (g, inside, i) = imported-importer x frontier m in
      all x (through g x (inv.reached g (inv.frontier_found g inside)) i)

  -- After a round the frontier is empty or the fuel still covers what is missing.
  round-enough :
      (entry : Text) (u files frontier : List Text) (fuel : ℕ)
      → IsUniverse entry u
      → Found entry files frontier
      → missing u files < suc fuel
      → ((visit_files (imported (map parse_file frontier)) files []).1 ≡ [])
        ⊎ (missing u (visit_files (imported (map parse_file frontier)) files []).0 < fuel)
  round-enough entry u files frontier fuel all inv enough =
      elim (visit_files-progress u (imported (map parse_file frontier)) files []
        (news-Subset entry u files frontier all inv)).1 [
          | inl done ↦ inl done
          | inr less ↦ inr (omega (arith, less, enough))
        ]

  -- A finished walk: what it holds is closed under imports.
  walk_from-Found :
      (entry : Text) (u : List Text)
      → IsUniverse entry u
      → (fuel : ℕ) (frontier : List Text) (g : FunctionGraph) → Found entry g.files frontier
      → (frontier ≡ []) ⊎ (missing u g.files < fuel)
      → Found entry (walk_from parse_file fuel frontier g).files []
  unfolding walk_from
  walk_from-Found entry u all fuel [] g inv enough = inv
  walk_from-Found entry u all fuel (f ∷ frontier) g inv (inl e) = absurd (cons≢nil e)
  walk_from-Found entry u all zero (f ∷ frontier) g inv (inr less) = absurd (omega (arith, less))
  walk_from-Found entry u all (suc fuel) (f ∷ frontier) g inv (inr less) =
      let e = visit_results-files (map parse_file (f ∷ frontier)) g [] in
      let visited = visit_results (map parse_file (f ∷ frontier)) g [] in
      walk_from-Found entry u all fuel visited.1 visited.0
        (rw (e.0, e.1) (round-Found entry g.files (f ∷ frontier) inv))
        (rw (e.0, e.1) (round-enough entry u g.files (f ∷ frontier) fuel all inv less))

  abbrev start_of : Text → FunctionGraph
  start_of entry = record { files = entry ∷ []; packages = []; remotes = [] }

  start-Found : (entry : Text) → Found entry (entry ∷ []) (entry ∷ [])
  start-Found entry = record {
    entry_found = ground (arith, member-cons entry entry [], text_beq_iff entry entry);
    reached = λ f m.
        subst (Reaches parse_file entry)
          ((text_beq_iff entry f).0 (ground (arith, member-cons f entry [], member-empty f)))
          itself;
    frontier_found = λ f m. m;
    closed = λ f h m done i. absurd (ground arith);
  }

  closed-Reaches :
      (entry : Text) (files : List Text)
      → Found entry files []
      → {f : Text} → Reaches parse_file entry f
      → member f files ≡ true
  closed-Reaches entry files inv itself = inv.entry_found
  closed-Reaches entry files inv (through f h r i) =
      inv.closed f h (closed-Reaches entry files inv r) (member-empty f) i

  -- Where all files that the entry reaches are among `u`, the walk with fuel for each of them and one
  -- round more holds exactly the files that the entry reaches by imports.
  pub walk-Reaches :
      (entry : Text) (u : List Text)
      → ((f : Text) → Reaches parse_file entry f → member f u ≡ true)
      → (f : Text)
      → (member f (walk parse_file (suc (length u)) entry).files ≡ true)
        ↔ Reaches parse_file entry f
  unfolding walk
  walk-Reaches entry u all f =
      let inv =
        walk_from-Found entry u all (suc (length u)) (entry ∷ []) (start_of entry)
          (start-Found entry) (inr (omega (arith, missing-length u (entry ∷ [])))) in
      (
        inv.reached f,
        closed-Reaches entry
            (walk_from parse_file (suc (length u)) (entry ∷ []) (start_of entry)).files inv,
      )
