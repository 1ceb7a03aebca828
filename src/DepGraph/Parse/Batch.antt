-- ===== src/DepGraph/Parse/Batch.antt =====
-- Refreshes over the cache: `parseOnce` with the batch of a refresh, the walk over it and `refreshMany`,
-- where the files and the entries are taken one after the other.
pub mod Fresh
use tube.Common.{
  ℕ, zero, suc, ◌≡◌, refl, ap, sym, ◌∙◌, ◌↔◌, Bool, true, false, Option, none, some, List, [], ◌∷◌,
  map, length, if◌then◌else◌, ◌==◌, text_eq, arith, text_beq_iff,
}
use tube.Common.JsMap
use tube.Common.JsMap.{JsMap}
use tube.Common.Sets.{member}
use tube.Common.Text.{Text, codes, starts_with}
use tube.DepGraph.Index.{FunctionGraph, DepGraph, replace, affected}
use tube.DepGraph.Affected.{IsConsistent}
use tube.DepGraph.Refresh.{affected-refresh}
use tube.DepGraph.Walk.{ParsedFile, visit_results, walk_from, walk, refresh}
use tube.DepGraph.Walk.Reach.{Reaches}
use tube.DepGraph.Parse.{Resolver, File, Entry, parse_file}
use tube.DepGraph.Parse.Cache.{parse_afresh, IsSound, parse_file-parse_afresh}

-- The files that a refresh has parsed, and the cache of the graph.
pub record Batch : Type 0 where
  pub once : JsMap Text (Option ParsedFile)
  pub cache : JsMap Text Entry

-- `toPath`
abbrev pub to_path : Resolver → Text → Text
to_path b p = if starts_with (codes "file://") p then b.file_url_to_path p else p

module _ (b : Resolver) (disk : Text → Option File) where
  once_or : Text → Batch → Option (Option ParsedFile) → Option ParsedFile × Batch
  unfolding parse_file
  once_or path s (some r) = (r, s)
  once_or path s none = (
    (parse_file b disk path s.cache).0,
    record {
      once = JsMap.set path (parse_file b disk path s.cache).0 s.once;
      cache = (parse_file b disk path s.cache).1;
    },
  )

  parse_once : Text → Batch → Option ParsedFile × Batch
  unfolding once_or
  parse_once path s = once_or path s (JsMap.get path s.once)

  -- `frontier.map((f) => parseOnce(batch, f))`
  parse_each : List Text → Batch → List (Option ParsedFile) × Batch
  unfolding parse_once
  parse_each [] s = ([], s)
  parse_each (path ∷ paths) s =
      let first = parse_once path s in
      let rest = parse_each paths first.1 in (first.0 ∷ rest.0, rest.1)

  -- `walk`; `fuel` bounds its rounds.
  walk_batch : ℕ → List Text → FunctionGraph → Batch → FunctionGraph × Batch
  unfolding parse_each visit_results
  walk_batch fuel [] g s = (g, s)
  walk_batch zero (f ∷ frontier) g s = (g, s)
  walk_batch (suc fuel) (f ∷ frontier) g s =
      let parsed = parse_each (f ∷ frontier) s in
      let visited = visit_results parsed.0 g [] in walk_batch fuel visited.1 visited.0 parsed.1

  abbrev only : Text → FunctionGraph
  only entry = record { files = entry ∷ []; packages = []; remotes = [] }

  pub refresh_entries : ℕ → List (Text × Text) → DepGraph → Batch → DepGraph × Batch
  unfolding walk_batch replace
  refresh_entries fuel [] g s = (g, s)
  refresh_entries fuel ((name, entry) ∷ entries) g s =
      let walked = walk_batch fuel (to_path b entry ∷ []) (only (to_path b entry)) s in
      refresh_entries fuel entries (replace name walked.0 g) walked.1

  -- `refreshMany` on the graph and its cache; `refresh` is this on one entry.
  pub refresh_many :
      ℕ → List (Text × Text) → DepGraph × JsMap Text Entry → DepGraph × JsMap Text Entry
  unfolding refresh_entries
  refresh_many fuel entries state =
      let done = refresh_entries fuel entries state.0 (record { once = []; cache = state.1 }) in
      (done.0, done.1.cache)
