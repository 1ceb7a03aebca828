-- ===== src/DepGraph/Parse/Tests.antt =====
-- A file with four kinds of import.
use tube.Common.{
  ◌≡◌, refl, ap, ◌∙◌, ◌↔◌, true, Option, none, some, List, [], ◌∷◌, ◌++◌, drop, arith,
  if◌then◌else◌, ◌==◌, text_eq,
}
use tube.Common.Text.{Text, codes, starts_with}
use tube.DepGraph.Parse.{Resolver, File, is_dependency_path, drop_word, scan_file}
use tube.DepGraph.Index.{affected}
use tube.DepGraph.Affected.{empty_graph, empty_graph-IsConsistent}
use tube.DepGraph.Walk.{ParsedFile}
use tube.DepGraph.Walk.Reach.{Reaches, itself, through, importing}
use tube.DepGraph.Parse.Cache.{IsSound, empty-IsSound, parse_afresh}
use tube.DepGraph.Parse.Batch.{refresh_many}
use tube.DepGraph.Parse.Batch.Fresh.{
  afresh, refresh_all, refresh_many-refresh_all, refresh_many-Reaches,
}
use tube.Common.Sets.{member}

abbrev joined : Text → Text → Text
joined spec base = base ++ spec

-- `./b.ts` is `/b.ts`, whatever imports it.
abbrev beside : Text → Text → Text
beside spec importer = drop 1 spec

abbrev no_module : Text → Text → Option Text
no_module spec importer = none

abbrev no_member : Text → Option Text
no_member name = none

abbrev to_self : Text → Text
to_self s = s

abbrev toy : Resolver
toy = record {
  resolve_url = joined;
  inherited = no_member;
  file_url_to_path = to_self;
  path_to_file_url = to_self;
  resolve_sync = no_module;
  resolve_path = beside;
  import_map = none;
}

abbrev toy_disk : Text → Option File
toy_disk path =
    if path == codes "/a.ts"
    then some (record {
      mtime_ms = 7;
      size = 40;
      imports = some (codes "./b.ts" ∷ codes "npm:zod" ∷ codes "https://x/y" ∷ codes "zod" ∷ []);
    })
    else none

dependency : is_dependency_path (codes "/app/node_modules/zod/index.js") ≡ true
unfolding is_dependency_path drop_word
dependency = refl

abbrev two_entries : List (Text × Text)
two_entries = (codes "a", codes "/a.ts") ∷ (codes "b", codes "/b.ts") ∷ []

abbrev toy_universe : List Text
toy_universe = codes "/a.ts" ∷ codes "/b.ts" ∷ []

abbrev files_of : Option ParsedFile → List Text
files_of none = []
files_of (some r) = r.files

toy_files :
    (f : Text)
    → files_of (afresh toy toy_disk f) ≡ (if f == codes "/a.ts" then codes "/b.ts" ∷ [] else [])
unfolding parse_afresh scan_file
toy_files f = ground arith

toy_imports :
    (f h : Text) → member h (files_of (afresh toy toy_disk f)) ≡ true → member h toy_universe ≡ true
unfolding member
toy_imports f h m = ground (arith, toy_files f, m)

toy_reached :
    (f : Text) → Reaches (afresh toy toy_disk) (codes "/a.ts") f → member f toy_universe ≡ true
toy_reached f itself = unfold member in refl
toy_reached h (through f _ r (importing _ _ parsed found inside)) =
    toy_imports f h (ap (λ o. member h (files_of o)) found ∙ inside)

refresh_many-refresh_all_example :
    ((refresh_many toy toy_disk 3 two_entries (empty_graph, [])).0
      ≡ refresh_all toy toy_disk 3 two_entries empty_graph)
    × IsSound toy toy_disk (refresh_many toy toy_disk 3 two_entries (empty_graph, [])).1
refresh_many-refresh_all_example =
    refresh_many-refresh_all toy toy_disk 3 two_entries empty_graph [] (empty-IsSound toy toy_disk)

refresh_many-Reaches_example :
    (member (codes "a") (
        affected
          (refresh_many toy toy_disk 3 ((codes "a", codes "/a.ts") ∷ []) (empty_graph, [])).0
          (codes "/b.ts" ∷ []))
      ≡ true)
    ↔ Reaches (afresh toy toy_disk) (codes "/a.ts") (codes "/b.ts")
unfolding starts_with
refresh_many-Reaches_example =
    refresh_many-Reaches toy toy_disk (codes "a") (codes "/a.ts") toy_universe empty_graph []
      (empty-IsSound toy toy_disk) toy_reached empty_graph-IsConsistent (codes "/b.ts")
