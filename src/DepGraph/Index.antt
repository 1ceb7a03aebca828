-- ===== src/DepGraph/Index.antt =====
-- The graphs by name, the reverse index, and the operations on them.
use tube.Common.{ℕ, Option, none, some, List, [], ◌∷◌, if◌then◌else◌, length, text_eq}
use tube.Common.JsMap
use tube.Common.Sets.{member, add, remove, add_all}
use tube.Common.JsMap.{JsMap}
use tube.Common.Text.{Text}
use tube.Compat.Specifiers.{PackageRequest}

pub record FunctionGraph : Type 0 where
  pub files : List Text
  pub packages : JsMap Text PackageRequest
  pub remotes : List Text

pub record DepGraph : Type 0 where
  pub per_name : JsMap Text FunctionGraph
  pub reverse : JsMap Text (List Text)

abbrev pub owners_or_empty : Option (List Text) → List Text
owners_or_empty none = []
owners_or_empty (some s) = s

unfoldable pub index_add : Text → Text → JsMap Text (List Text) → JsMap Text (List Text)
unfolding add
index_add name file reverse =
    JsMap.set file (add name (owners_or_empty (JsMap.get file reverse))) reverse

unfoldable pub store_owners : Text → List Text → JsMap Text (List Text) → JsMap Text (List Text)
store_owners file [] reverse = JsMap.delete file reverse
store_owners file (n ∷ ns) reverse = JsMap.set file (n ∷ ns) reverse

unfoldable pub index_remove : Text → Text → JsMap Text (List Text) → JsMap Text (List Text)
unfolding store_owners remove
index_remove name file reverse = elim (JsMap.get file reverse) [
  | none ↦ reverse
  | some owners ↦ store_owners file (remove name owners) reverse
]

-- `for (const f of old.files) if (!fresh.files.has(f)) indexRemove(name, f)`
unfoldable pub remove_files :
    Text → List Text → List Text → JsMap Text (List Text) → JsMap Text (List Text)
remove_files name keep [] reverse = reverse
remove_files name keep (f ∷ fs) reverse =
    remove_files name keep fs (if member f keep then reverse else index_remove name f reverse)

-- `for (const f of fresh.files) if (!old || !old.files.has(f)) indexAdd(name, f)`
unfoldable pub add_files :
    Text → List Text → List Text → JsMap Text (List Text) → JsMap Text (List Text)
add_files name old [] reverse = reverse
add_files name old (f ∷ fs) reverse =
    add_files name old fs (if member f old then reverse else index_add name f reverse)

abbrev pub files_or_empty : Option FunctionGraph → List Text
files_or_empty none = []
files_or_empty (some g) = g.files

unfoldable pub replace : Text → FunctionGraph → DepGraph → DepGraph
unfolding remove_files add_files
replace name fresh g =
    let old = files_or_empty (JsMap.get name g.per_name) in
    record {
      per_name = JsMap.set name fresh g.per_name;
      reverse = add_files name old fresh.files (remove_files name fresh.files old g.reverse);
    }

unfoldable pub forget : Text → DepGraph → DepGraph
unfolding remove_files
forget name g = elim (JsMap.get name g.per_name) [
  | none ↦ g
  | some old ↦ record {
    per_name = JsMap.delete name g.per_name;
    reverse = remove_files name [] old.files g.reverse;
  }
]

unfoldable pub affected_from : DepGraph → List Text → List Text → List Text
affected_from g [] out = out
affected_from g (f ∷ fs) out =
    affected_from g fs (add_all (owners_or_empty (JsMap.get f g.reverse)) out)

-- The names whose graph contains one of the files.
unfoldable pub affected : DepGraph → List Text → List Text
unfolding affected_from
affected g changed = affected_from g changed []

unfoldable pub files_for : Text → DepGraph → List Text
files_for name g = files_or_empty (JsMap.get name g.per_name)

unfoldable pub size : DepGraph → ℕ
size g = length g.reverse
