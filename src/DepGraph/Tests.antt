-- ===== src/DepGraph/Tests.antt =====
-- The graphs at concrete values.
use tube.Common.{◌≡◌, refl, Option, some, List, [], ◌∷◌, ◌==◌, text_eq, if◌then◌else◌}
use tube.Common.Sets.{add_all}
use tube.Common.Text.{Text, codes}
use tube.DepGraph.{FunctionGraph}
use tube.DepGraph.Affected.{
  IsConsistent, Update, refreshed, forgotten_of, update_all, empty_graph, update_all-IsConsistent,
}
use tube.DepGraph.Walk.{ParsedFile, visit_files, walk}

abbrev graph_of : List Text → FunctionGraph
graph_of fs = record { files = fs; packages = []; remotes = [] }

abbrev shared_file : Text
shared_file = codes "/_shared/x.ts"

abbrev updates : List Update
updates =
    refreshed (codes "a") (graph_of (codes "/a.ts" ∷ shared_file ∷ []))
    ∷ refreshed (codes "b") (graph_of (codes "/b.ts" ∷ shared_file ∷ []))
    ∷ refreshed (codes "a") (graph_of (codes "/a.ts" ∷ []))
    ∷ forgotten_of (codes "c")
    ∷ []

update_all-IsConsistent_example : IsConsistent (update_all updates empty_graph)
update_all-IsConsistent_example = update_all-IsConsistent updates

abbrev toy_files : Text → List Text
toy_files f = if f == codes "/a.ts" then shared_file ∷ [] else []

-- `/a.ts` imports the shared file, which imports nothing.
abbrev toy_parse : Text → Option ParsedFile
toy_parse f = some (record { files = toy_files f; packages = []; remotes = codes "https://x" ∷ [] })

walked : (walk toy_parse 3 (codes "/a.ts")).files ≡ codes "/a.ts" ∷ shared_file ∷ []
unfolding walk visit_files add_all
walked = refl
