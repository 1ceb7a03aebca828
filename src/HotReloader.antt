-- ===== src/HotReloader.antt =====
-- backends/bun/hot-reloader.ts: what a flush of changed paths reloads. The digest of a file, whether
-- a function has an entry on disk, and the discovery of the functions are parameters; the reload of
-- shared modules, the new generation of shared dependencies and the log lines are left out.
pub mod Affected
pub mod Flush
pub mod Served
mod Tests
use mathlib.Core.List.{reverse}
use tube.Common.{
  ℕ, ◌+◌, Bool, true, false, not, ◌&&◌, ◌||◌, Option, none, some, List, [], ◌∷◌, ◌++◌, any, eqb,
  filter, if◌then◌else◌, length, drop, ◌==◌, text_eq,
}
use tube.Common.JsMap
use tube.Common.JsMap.{JsMap}
use tube.Common.Sets.{member, add, add_all}
use tube.Common.Text.{Text, codes, starts_with, ends_with}
use tube.DepGraph.{DepGraph, affected}
use tube.FunctionHost.{Candidate, FunctionHost}
use tube.FunctionHost.Reload.{Names, these, reload}

pub record HotReloader : Type 0 where
  pub content_digests : JsMap Text Text
  pub host : FunctionHost

-- A file that is gone, or whose bytes are not those of the last flush.
abbrev pub is_changed : Option Text → Option Text → Bool
is_changed none stored = true
is_changed (some digest) none = true
is_changed (some digest) (some stored) = not (stored == digest)

abbrev pub store_digest : Text → Option Text → JsMap Text Text → JsMap Text Text
store_digest path none digests = JsMap.delete path digests
store_digest path (some digest) digests = JsMap.set path digest digests

abbrev is_separator : ℕ → Bool
is_separator c = eqb c b'/' || eqb c 92

-- The pieces of a path between its separators.
split_path_from : Text → Text × List Text
split_path_from [] = ([], [])
split_path_from (c ∷ s) =
    let (first, rest) = split_path_from s in
    if is_separator c then ([], first ∷ rest) else (c ∷ first, rest)

-- `!name.startsWith("_") && !name.endsWith("_shared")`, of a name that is not empty.
pub is_function_name : Text → Bool
unfolding starts_with ends_with
is_function_name [] = false
is_function_name (c ∷ s) =
    not (starts_with (codes "_") (c ∷ s)) && not (ends_with (codes "_shared") (c ∷ s))

abbrev name_if : Bool → Text → Option Text
name_if true name = some name
name_if false name = none

-- Of the pieces of a path, the last one first: the name before `index.ts` or `1tube.json`.
abbrev own_of : List Text → Option Text
own_of (file ∷ name ∷ above ∷ rest) =
    name_if ((file == codes "index.ts" || file == codes "1tube.json") && not (name == [])) name
own_of _ = none

-- `/[\\/]([^\\/]+)[\\/](?:index\.ts|1tube\.json)$/`
unfoldable pub own_function : Text → Option Text
unfolding split_path_from
own_function path = let (first, rest) = split_path_from path in own_of (reverse (first ∷ rest))

pub add_name : Option Text → List Text → List Text
unfolding add is_function_name
add_name none out = out
add_name (some name) out = if is_function_name name then add name out else out

unfoldable pub add_own : List Text → List Text → List Text
unfolding own_function add_name
add_own [] out = out
add_own (p ∷ ps) out = add_own ps (add_name (own_function p) out)

-- `functionsDir.replace(/[\\/]$/, "")`
pub without_separator : Text → Text
without_separator [] = []
without_separator (c ∷ []) = if is_separator c then [] else c ∷ []
without_separator (c ∷ d ∷ s) = c ∷ without_separator (d ∷ s)

-- The name of an event right under the directory, before the test of the name.
pub child_of : Text → Text → Option Text
unfolding starts_with
child_of dir path =
    if starts_with (dir ++ b'/' ∷ []) path || starts_with (dir ++ 92 ∷ []) path
    then name_if (not (any is_separator (drop (length dir + 1) path))) (drop (length dir + 1) path)
    else none

pub names_under : Text → List Text → List Text → List Text
unfolding child_of add_name
names_under dir [] out = out
names_under dir (p ∷ ps) out = names_under dir ps (add_name (child_of dir p) out)

unfoldable pub directory_event_function_names : List Text → Text → List Text
unfolding without_separator names_under
directory_event_function_names paths functions_dir =
    names_under (without_separator functions_dir) paths []

-- `computeAffected`, with the directory of the functions if its events count.
unfoldable pub compute_affected : List Text → DepGraph → Option Text → List Text
unfolding affected add_own directory_event_function_names add_all
compute_affected paths graph none = add_own paths (affected graph paths)
compute_affected paths graph (some dir) =
    add_all (directory_event_function_names paths dir) (add_own paths (affected graph paths))

module _ (digest : Text → Option Text) where
  unfoldable pub filter_noop_paths : List Text → JsMap Text Text → List Text × JsMap Text Text
  filter_noop_paths [] digests = ([], digests)
  filter_noop_paths (p ∷ ps) digests =
      if is_changed (digest p) (JsMap.get p digests)
      then (
        p ∷ (filter_noop_paths ps (store_digest p (digest p) digests)).0,
        (filter_noop_paths ps (store_digest p (digest p) digests)).1,
      )
      else filter_noop_paths ps digests

module _ (has_entry : Text → Bool) where
  -- A created directory counts if its entry exists, a deleted one if it was loaded.
  unfoldable pub add_events : (Text → Bool) → List Text → List Text → List Text
  unfolding add
  add_events known [] raw = raw
  add_events known (name ∷ names) raw =
      add_events known names
        (if (if has_entry name then not (known name) else known name) then add name raw else raw)

  unfoldable pub affected_names : Text → List Text → FunctionHost → List Text
  unfolding compute_affected add_events directory_event_function_names
  affected_names functions_dir paths host =
      filter (λ name. JsMap.has name host.handles || has_entry name)
        (add_events (λ name. JsMap.has name host.handles)
          (directory_event_function_names paths functions_dir)
          (compute_affected paths host.dep_graph none))

module _ (discover : List Text → List Candidate) where
  unfoldable pub reload_affected : Bool → List Text → HotReloader → HotReloader
  unfolding reload
  reload_affected drains [] r = r
  reload_affected drains (n ∷ ns) r = record r {
    host = reload drains (these (n ∷ ns)) (discover (n ∷ ns)) r.host;
  }

module _ (digest : Text → Option Text) (has_entry : Text → Bool)
    (discover : List Text → List Candidate) where
  unfoldable pub reload_changed : Bool → Text → List Text → HotReloader → HotReloader
  unfolding affected_names reload_affected
  reload_changed drains functions_dir [] r = r
  reload_changed drains functions_dir (p ∷ ps) r =
      reload_affected discover drains (affected_names has_entry functions_dir (p ∷ ps) r.host) r

  -- `flushFn`
  unfoldable pub flush_paths : Bool → Text → List Text → HotReloader → HotReloader
  unfolding filter_noop_paths reload_changed add_all
  flush_paths drains functions_dir raw r =
      let (paths, digests) = filter_noop_paths digest (add_all raw []) r.content_digests in
      reload_changed drains functions_dir paths (record r { content_digests = digests })
