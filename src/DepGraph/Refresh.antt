-- ===== src/DepGraph/Refresh.antt =====
-- A refresh and the question that the hot reloader asks after it.
use tube.Common.{
  suc, ◌≡◌, ◌↔◌, ◌∙◌, sym, true, Option, List, [], ◌∷◌, length, arith, text_eq, text_beq_iff,
}
use tube.Common.JsMap
use tube.Common.Sets.{member}
use tube.Common.Text.{Text}
use tube.DepGraph.Index.{DepGraph, FunctionGraph, replace, affected}
use tube.DepGraph.Affected.{IsConsistent, replace-IsConsistent, member-affected, graph_files}
use tube.DepGraph.Walk.{ParsedFile, walk, refresh}
use tube.DepGraph.Walk.Reach.{Reaches, walk-Reaches}

-- The graph that a name has after its graph was replaced.
graph_files-replace :
    (name : Text) (fresh : FunctionGraph) (g : DepGraph)
    → graph_files (replace name fresh g) name ≡ fresh.files
unfolding replace
graph_files-replace name fresh g =
    ground (arith, JsMap.get-set name name fresh g.per_name, text_beq_iff name name)

-- After a refresh of a function on a consistent index, with fuel for the files `u` that its entry
-- reaches, a change of a file affects the function exactly if its entry reaches the file by imports.
pub affected-refresh :
    (parse_file : Text → Option ParsedFile) (entry : Text) (u : List Text)
    → ((f : Text) → Reaches parse_file entry f → member f u ≡ true)
    → (name : Text) (g : DepGraph) → IsConsistent g
    → (f : Text)
    → (member name (affected (refresh parse_file (suc (length u)) name entry g) (f ∷ [])) ≡ true)
      ↔ Reaches parse_file entry f
unfolding refresh
affected-refresh parse_file entry u all name g h f =
    let fresh = walk parse_file (suc (length u)) entry in
    let found = walk-Reaches parse_file entry u all f in
    let same : member name (affected (replace name fresh g) (f ∷ [])) ≡ member f fresh.files =
      ground (
        arith,
        member-affected (replace name fresh g) name (f ∷ []) (replace-IsConsistent name fresh g h),
        graph_files-replace name fresh g,
      ) in
    (λ m. found.0 (sym same ∙ m), λ r. same ∙ found.1 r)
