-- ===== src/DepGraph/Parse/Batch/Fresh.antt =====
-- Refreshes over the batch and the cache give what refreshes without them give.
use tube.Common.{
  ℕ, zero, suc, ◌≡◌, refl, ap, sym, ◌∙◌, ◌↔◌, Bool, true, false, Option, none, some, List, [], ◌∷◌,
  map, length, ◌==◌, text_eq, arith, text_beq_iff,
}
use tube.Common.JsMap
use tube.Common.JsMap.{JsMap}
use tube.Common.Sets.{member}
use tube.Common.Text.{Text}
use tube.DepGraph.Index.{FunctionGraph, DepGraph, replace, affected}
use tube.DepGraph.Affected.{IsConsistent}
use tube.DepGraph.Refresh.{affected-refresh}
use tube.DepGraph.Walk.{ParsedFile, visit_results, walk_from, walk, refresh}
use tube.DepGraph.Walk.Reach.{Reaches}
use tube.DepGraph.Parse.{Resolver, File, Entry}
use tube.DepGraph.Parse.Cache.{parse_afresh, IsSound, parse_file-parse_afresh}
use tube.DepGraph.Parse.Batch.{
  Batch, to_path, once_or, parse_once, parse_each, walk_batch, only, refresh_entries, refresh_many,
}

module _ (b : Resolver) (disk : Text → Option File) where
  -- A file as it is on the disk, without a cache.
  abbrev pub afresh : Text → Option ParsedFile
  afresh path = parse_afresh b path (disk path)

  -- The refreshes without a batch and a cache.
  abbrev pub refresh_all : ℕ → List (Text × Text) → DepGraph → DepGraph
  refresh_all fuel [] g = g
  refresh_all fuel ((name, entry) ∷ entries) g =
      refresh_all fuel entries (refresh afresh fuel name (to_path b entry) g)

  -- What the batch holds, and what the cache takes for a file, is what a parse afresh gives.
  IsFresh : Batch → Type 0
  IsFresh s =
      ((path : Text) (r : Option ParsedFile) → JsMap.get path s.once ≡ some r → r ≡ afresh path)
      × IsSound b disk s.cache

  -- A file that is put in the batch is there, and the others are as before.
  set_once :
      (path : Text) (q : Option ParsedFile) (once : JsMap Text (Option ParsedFile))
      → q ≡ afresh path
      → ((j : Text) (r : Option ParsedFile) → JsMap.get j once ≡ some r → r ≡ afresh j)
      → (j : Text) (r : Option ParsedFile) → JsMap.get j (JsMap.set path q once) ≡ some r
      → r ≡ afresh j
  set_once path q once e h j r k = entry (path == j) refl
    where
      entry : (t : Bool) → (path == j) ≡ t → r ≡ afresh j
      entry true t =
          ground (arith, sym (JsMap.get-set path j q once) ∙ k, t)
          ∙ e
          ∙ ap afresh ((text_beq_iff path j).0 t)
      entry false t = h j r (ground (arith, sym (JsMap.get-set path j q once) ∙ k, t))

  once_or-afresh :
      (path : Text) (s : Batch) (o : Option (Option ParsedFile))
      → JsMap.get path s.once ≡ o
      → IsFresh s
      → ((once_or b disk path s o).0 ≡ afresh path) × IsFresh (once_or b disk path s o).1
  unfolding once_or IsFresh
  once_or-afresh path s (some r) e h = (h.0 path r e, h)
  once_or-afresh path s none e h =
      let parsed = parse_file-parse_afresh b disk path s.cache h.1 in
      (parsed.0, (set_once path _ s.once parsed.0 h.0, parsed.1))

  parse_each-afresh :
      (paths : List Text) (s : Batch)
      → IsFresh s
      → ((parse_each b disk paths s).0 ≡ map afresh paths) × IsFresh (parse_each b disk paths s).1
  unfolding parse_each parse_once
  parse_each-afresh [] s h = (refl, h)
  parse_each-afresh (path ∷ paths) s h =
      let first = once_or-afresh path s (JsMap.get path s.once) refl h in
      let rest = parse_each-afresh paths (parse_once b disk path s).1 first.1 in
      (
        ap (λ r. r ∷ (parse_each b disk paths (parse_once b disk path s).1).0) first.0
            ∙ ap (λ rs. afresh path ∷ rs) rest.0,
        rest.1,
      )

  walk_batch-walk_from :
      (fuel : ℕ) (frontier : List Text) (g : FunctionGraph) (s : Batch)
      → IsFresh s
      → ((walk_batch b disk fuel frontier g s).0 ≡ walk_from afresh fuel frontier g)
        × IsFresh (walk_batch b disk fuel frontier g s).1
  unfolding walk_batch walk_from
  walk_batch-walk_from zero [] g s h = (refl, h)
  walk_batch-walk_from (suc fuel) [] g s h = (refl, h)
  walk_batch-walk_from zero (f ∷ frontier) g s h = (refl, h)
  walk_batch-walk_from (suc fuel) (f ∷ frontier) g s h =
      let parsed = parse_each-afresh (f ∷ frontier) s h in
      let visited = visit_results (parse_each b disk (f ∷ frontier) s).0 g [] in
      let rest =
        walk_batch-walk_from fuel visited.1 visited.0 (parse_each b disk (f ∷ frontier) s).1
          parsed.1 in
      (
        rest.0
            ∙ ap (λ rs. walk_from afresh fuel (visit_results rs g []).1 (visit_results rs g []).0)
                parsed.0,
        rest.1,
      )

  refresh_entries-refresh_all :
      (fuel : ℕ) (entries : List (Text × Text)) (g : DepGraph) (s : Batch)
      → IsFresh s
      → ((refresh_entries b disk fuel entries g s).0 ≡ refresh_all fuel entries g)
        × IsFresh (refresh_entries b disk fuel entries g s).1
  unfolding refresh_entries refresh walk
  refresh_entries-refresh_all fuel [] g s h = (refl, h)
  refresh_entries-refresh_all fuel ((name, entry) ∷ entries) g s h =
      let path = to_path b entry in
      let walked = walk_batch-walk_from fuel (path ∷ []) (only b disk path) s h in
      let state = walk_batch b disk fuel (path ∷ []) (only b disk path) s in
      let rest =
        refresh_entries-refresh_all fuel entries (replace name state.0 g) state.1 walked.1 in
      (rest.0 ∙ ap (λ fresh. refresh_all fuel entries (replace name fresh g)) walked.0, rest.1)

-- With a cache that is sound for the disk, `refreshMany` gives the graph that the refreshes give, one
-- after the other, where each file is read from the disk and scanned each time; and the cache that it
-- leaves is sound.
pub refresh_many-refresh_all :
    (b : Resolver) (disk : Text → Option File) (fuel : ℕ) (entries : List (Text × Text))
    (g : DepGraph) (cache : JsMap Text Entry)
    → IsSound b disk cache
    → ((refresh_many b disk fuel entries (g, cache)).0 ≡ refresh_all b disk fuel entries g)
      × IsSound b disk (refresh_many b disk fuel entries (g, cache)).1
unfolding refresh_many IsFresh JsMap.get
refresh_many-refresh_all b disk fuel entries g cache sound =
    let all =
      refresh_entries-refresh_all b disk fuel entries g (record { once = []; cache = cache })
        (λ path r e. ground (arith, e), sound) in
    (all.0, all.1.1)

-- After a refresh of a function over a sound cache, on a consistent index and with fuel for the files
-- `u` that its entry reaches, a change of a file affects the function exactly if its entry reaches the
-- file by the imports that its files have on the disk.
pub refresh_many-Reaches :
    (b : Resolver) (disk : Text → Option File) (name entry : Text) (u : List Text) (g : DepGraph)
    (cache : JsMap Text Entry)
    → IsSound b disk cache
    → ((f : Text) → Reaches (afresh b disk) (to_path b entry) f → member f u ≡ true)
    → IsConsistent g
    → (f : Text)
    → (member name (
          affected
            (refresh_many b disk (suc (length u)) ((name, entry) ∷ []) (g, cache)).0
            (f ∷ []))
        ≡ true)
      ↔ Reaches (afresh b disk) (to_path b entry) f
refresh_many-Reaches b disk name entry u g cache sound all h f =
    let found = affected-refresh (afresh b disk) (to_path b entry) u all name g h f in
    let same : member name (
          affected (refresh_many b disk (suc (length u)) ((name, entry) ∷ []) (g, cache)).0
            (f ∷ []))
        ≡ member name (
            affected (refresh (afresh b disk) (suc (length u)) name (to_path b entry) g) (f ∷ [])) =
      ap (λ h. member name (affected h (f ∷ [])))
        (refresh_many-refresh_all b disk (suc (length u)) ((name, entry) ∷ []) g cache sound).0 in
    (λ m. found.0 (sym same ∙ m), λ r. same ∙ found.1 r)
