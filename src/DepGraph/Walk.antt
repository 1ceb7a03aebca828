-- ===== src/DepGraph/Walk.antt =====
-- The walk over the local imports of an entry. Reading, scanning and resolving a file is the
-- parameter `parse_file`, `none` where the file cannot be read. It is a function of the path, since
-- `parseOnce` parses a file once in a refresh.
pub mod Reach
use tube.Common.{
  ℕ, zero, suc, Bool, true, false, Option, none, some, List, [], ◌∷◌, ◌++◌, map, if◌then◌else◌,
  text_eq,
}
use tube.Common.JsMap
use tube.Common.JsMap.{JsMap}
use tube.Common.Sets.{member, add, add_all, member-append}
use tube.Common.Text.{Text}
use tube.Compat.Specifiers.{PackageRequest, package_key}
use tube.DepGraph.Index.{FunctionGraph, DepGraph, replace}

pub record ParsedFile : Type 0 where
  pub files : List Text
  pub packages : List PackageRequest
  pub remotes : List Text

-- `for (const pkg of r.packages) g.packages.set(packageKey(pkg), pkg)`
set_packages : List PackageRequest → JsMap Text PackageRequest → JsMap Text PackageRequest
unfolding package_key
set_packages [] packages = packages
set_packages (p ∷ ps) packages = set_packages ps (JsMap.set (package_key p) p packages)

-- `for (const f of r.files)`: the files of the graph and the next frontier.
unfoldable pub visit_files : List Text → List Text → List Text → List Text × List Text
visit_files [] files next = (files, next)
visit_files (f ∷ fs) files next =
    let (files', next') =
      if member f files then (files, next) else (files ++ f ∷ [], next ++ f ∷ []) in
    visit_files fs files' next'

-- `for (const r of results)`
unfoldable pub visit_results :
    List (Option ParsedFile) → FunctionGraph → List Text → FunctionGraph × List Text
unfolding set_packages visit_files add_all
visit_results [] g next = (g, next)
visit_results (none ∷ rs) g next = visit_results rs g next
visit_results (some r ∷ rs) g next =
    let (files, next') = visit_files r.files g.files next in
    visit_results rs
      (record {
        files = files;
        packages = set_packages r.packages g.packages;
        remotes = add_all r.remotes g.remotes;
      })
      next'

module _ (parse_file : Text → Option ParsedFile) where
  -- The loop of `walk`; `fuel` bounds its rounds.
  unfoldable pub walk_from : ℕ → List Text → FunctionGraph → FunctionGraph
  unfolding visit_results
  walk_from fuel [] g = g
  walk_from zero (f ∷ frontier) g = g
  walk_from (suc fuel) (f ∷ frontier) g =
      let (g', next) = visit_results (map parse_file (f ∷ frontier)) g [] in walk_from fuel next g'

  unfoldable pub walk : ℕ → Text → FunctionGraph
  unfolding walk_from
  walk fuel entry =
      walk_from fuel (entry ∷ []) (record { files = entry ∷ []; packages = []; remotes = [] })

  -- `refresh`
  unfoldable pub refresh : ℕ → Text → Text → DepGraph → DepGraph
  unfolding walk replace
  refresh fuel name entry g = replace name (walk fuel entry) g
