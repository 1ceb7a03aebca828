-- ===== src/DepGraph/Parse.antt =====
-- The parsing of a file: the classification of its imports, and the cache by time and size. What a
-- file holds, the resolver of Bun and the conversions between paths and URLs are parameters.
pub mod Batch
pub mod Cache
mod Tests
use tube.Common.{
  ℕ, zero, suc, Bool, true, false, not, ◌&&◌, ◌||◌, Option, none, some, List, [], ◌∷◌, ◌++◌, eqb,
  if◌then◌else◌, text_eq,
}
use tube.Common.JsMap
use tube.Common.JsMap.{JsMap}
use tube.Common.Text.{Text, codes, starts_with}
use tube.Compat.ImportMap.{ImportMap, resolve_import_map}
use tube.Compat.Specifiers.{PackageRequest, parse_package_specifier, is_remote_specifier}
use tube.DepGraph.Walk.{ParsedFile}

-- The functions of Bun and Node that `classify` calls, where the conversions do not throw. `resolve_sync` is `none` where it throws, and
-- `resolve_path` is the path of a specifier by the URL of its importer; `inherited` is that of the import
-- maps.
pub record Resolver : Type 0 where
  pub resolve_url : Text → Text → Text
  pub inherited : Text → Option Text
  pub file_url_to_path : Text → Text
  pub path_to_file_url : Text → Text
  pub resolve_sync : Text → Text → Option Text
  pub resolve_path : Text → Text → Text
  pub import_map : Option ImportMap

-- What one import is to the graph.
pub data Target : Type 0 where
  leaf : Target
  requested : PackageRequest → Target
  remote local : Text → Target

abbrev is_slash : ℕ → Bool
is_slash c = eqb c b'/' || eqb c 92

abbrev begins_with_slash : Text → Bool
begins_with_slash [] = false
begins_with_slash (c ∷ s) = is_slash c

drop_word : Text → Text → Option Text
drop_word [] s = some s
drop_word (c ∷ w) [] = none
drop_word (c ∷ w) (d ∷ s) = let rest = drop_word w s in if eqb c d then rest else none

abbrev then_slash : Option Text → Bool
then_slash none = false
then_slash (some s) = begins_with_slash s

-- `/[\\/]node_modules[\\/]/.test(p)`
unfoldable pub is_dependency_path : Text → Bool
unfolding drop_word
is_dependency_path [] = false
is_dependency_path (c ∷ s) =
    let rest = is_dependency_path s in
    (is_slash c && then_slash (drop_word (codes "node_modules") s)) || rest

abbrev is_path_like : Text → Bool
is_path_like spec =
    starts_with (codes "./") spec || starts_with (codes "../") spec || starts_with (codes "/") spec

resolved_target : Resolver → Text → Text → Option Text → Target
unfolding is_dependency_path starts_with
resolved_target b spec importer (some path) = if is_dependency_path path then leaf else local path
resolved_target b spec importer none =
    if is_path_like spec then local (b.resolve_path spec importer) else leaf

unfoldable pub resolve_target : Resolver → Text → Text → Target
unfolding resolved_target
resolve_target b spec importer = resolved_target b spec importer (b.resolve_sync spec importer)

abbrev alias_of : Resolver → Text → Text → Option Text
alias_of b spec importer =
    if is_path_like spec
    then none
    else resolve_import_map b.resolve_url b.inherited spec (b.path_to_file_url importer)
        b.import_map

-- `classify`; `rounds` counts down what `depth` counts up.
unfoldable pub classify : Resolver → ℕ → Text → Text → Target
unfolding starts_with parse_package_specifier is_remote_specifier resolve_target resolve_import_map
classify b zero spec importer = leaf
classify b (suc rounds) spec importer =
    if starts_with (codes "node:") spec || starts_with (codes "bun:") spec
    then leaf
    else elim (parse_package_specifier spec) [
      | some pkg ↦ requested pkg
      | none ↦
          if is_remote_specifier spec
          then remote spec
          else if starts_with (codes "file://") spec
          then local (b.file_url_to_path spec)
          else elim (alias_of b spec importer) [
            | some mapped ↦ classify b rounds mapped importer
            | none ↦ resolve_target b spec importer
          ]
    ]

abbrev put_target : Target → ParsedFile → ParsedFile
put_target leaf e = e
put_target (requested p) e = record e { packages = e.packages ++ p ∷ [] }
put_target (remote r) e = record e { remotes = e.remotes ++ r ∷ [] }
put_target (local f) e = record e { files = e.files ++ f ∷ [] }

-- A file: its time and size, and the imports that the scan finds, `none` where it throws or the
-- file has no loader.
pub record File : Type 0 where
  pub mtime_ms : ℕ
  pub size : ℕ
  pub imports : Option (List Text)

abbrev no_edges : ParsedFile
no_edges = record { files = []; packages = []; remotes = [] }

classify_all : Resolver → Text → List Text → ParsedFile → ParsedFile
unfolding classify
classify_all b path [] e = e
classify_all b path (spec ∷ specs) e =
    classify_all b path specs (put_target (classify b 5 spec path) e)

abbrev imports_or_none : Option (List Text) → List Text
imports_or_none none = []
imports_or_none (some specs) = specs

unfoldable pub scan_file : Resolver → Text → File → ParsedFile
unfolding classify_all
scan_file b path f = classify_all b path (imports_or_none f.imports) no_edges

-- A cached file with the time and size that it had.
pub record Entry : Type 0 where
  pub mtime_ms : ℕ
  pub size : ℕ
  pub parsed : ParsedFile

abbrev pub is_current : File → Option Entry → Bool
is_current f none = false
is_current f (some e) = eqb e.mtime_ms f.mtime_ms && eqb e.size f.size

abbrev pub current_or_none : File → Option Entry → Option ParsedFile
current_or_none f none = none
current_or_none f (some e) = if is_current f (some e) then some e.parsed else none

use_cached :
    Resolver
    → Text
    → File
    → JsMap Text Entry
    → Option ParsedFile
    → Option ParsedFile × JsMap Text Entry
unfolding scan_file
use_cached b path f cache (some parsed) = (some parsed, cache)
use_cached b path f cache none = (
  some (scan_file b path f),
  JsMap.set path (record { mtime_ms = f.mtime_ms; size = f.size; parsed = scan_file b path f })
      cache,
)

parse_stat : Resolver → Text → Option File → JsMap Text Entry → Option ParsedFile × JsMap Text Entry
unfolding use_cached
parse_stat b path none cache = (none, JsMap.delete path cache)
parse_stat b path (some f) cache =
    use_cached b path f cache (current_or_none f (JsMap.get path cache))

-- `parseFile` on a disk.
unfoldable pub parse_file :
    Resolver → (Text → Option File) → Text → JsMap Text Entry → Option ParsedFile × JsMap Text Entry
unfolding parse_stat
parse_file b disk path cache = parse_stat b path (disk path) cache
