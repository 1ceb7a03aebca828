-- ===== src/DepGraph/Affected.antt =====
-- The reverse index is exactly the graphs read backwards, and `affected` finds exactly the owners of
-- the changed files.
use tube.Common.{
  ◌≡◌, inl, inr, refl, ◌∙◌, Bool, false, not, ◌&&◌, ◌||◌, Option-cases, none, some, List, [], ◌∷◌,
  arith, if◌then◌else◌, ◌==◌, text_eq, text_beq_iff,
}
use tube.Common.JsMap
use tube.Common.Sets.{member, add, remove, add_all, member-add, member-remove, member-add_all}
use tube.Common.JsMap.{JsMap}
use tube.Common.Text.{Text}
use tube.DepGraph.Index.{
  FunctionGraph, DepGraph, owners_or_empty, index_add, index_remove, store_owners, remove_files,
  add_files, files_or_empty, replace, forget, affected_from, affected,
}

-- Whether the index says that a name owns a file.
abbrev pub owns : JsMap Text (List Text) → Text → Text → Bool
owns reverse name file = member name (owners_or_empty (JsMap.get file reverse))

owns-index_add :
    (name file n f : Text) (reverse : JsMap Text (List Text))
    → owns (index_add name file reverse) n f ≡ ((file == f && name == n) || owns reverse n f)
unfolding index_add
owns-index_add name file n f reverse = ground (
  arith,
  JsMap.get-set file f (add name (owners_or_empty (JsMap.get file reverse))) reverse,
  member-add n name (owners_or_empty (JsMap.get file reverse)),
  text_beq_iff file f,
)

owns-store_owners :
    (file n f : Text) (s : List Text) (reverse : JsMap Text (List Text))
    → owns (store_owners file s reverse) n f ≡ (if file == f then member n s else owns reverse n f)
unfolding store_owners
owns-store_owners file n f [] reverse =
    unfold member in ground (arith, JsMap.get-delete file f reverse)
owns-store_owners file n f (m ∷ s) reverse = ground (arith, JsMap.get-set file f (m ∷ s) reverse)

owns_absent :
    (file n f : Text) (reverse : JsMap Text (List Text))
    → JsMap.get file reverse ≡ none
    → file ≡ f
    → owns reverse n f ≡ false
unfolding member
owns_absent file n f reverse absent same = ground arith

owns-index_remove :
    (name file n f : Text) (reverse : JsMap Text (List Text))
    → owns (index_remove name file reverse) n f ≡ (not (file == f && name == n) && owns reverse n f)
unfolding index_remove
owns-index_remove name file n f reverse = elim (Option-cases (JsMap.get file reverse)) [
  | inl absent ↦
      rw (absent, index_remove)
        (ground (arith, text_beq_iff file f, owns_absent file n f reverse absent))
  | inr (owners, found) ↦
      rw (found, index_remove)
        (owns-store_owners file n f (remove name owners) reverse
          ∙ ground (arith, member-remove n name owners, text_beq_iff file f))
]

owns-remove_files :
    (name : Text) (keep fs : List Text) (n f : Text) (reverse : JsMap Text (List Text))
    → owns (remove_files name keep fs reverse) n f
      ≡ (not (name == n && member f fs && not (member f keep)) && owns reverse n f)
unfolding remove_files member
owns-remove_files name keep [] n f reverse = ground arith
owns-remove_files name keep (g ∷ fs) n f reverse = ground (
  arith,
  owns-remove_files name keep fs n f
      (if member g keep then reverse else index_remove name g reverse),
  owns-index_remove name g n f reverse,
  text_beq_iff g f,
)

owns-add_files :
    (name : Text) (old fs : List Text) (n f : Text) (reverse : JsMap Text (List Text))
    → owns (add_files name old fs reverse) n f
      ≡ ((name == n && member f fs && not (member f old)) || owns reverse n f)
unfolding add_files member
owns-add_files name old [] n f reverse = ground arith
owns-add_files name old (g ∷ fs) n f reverse = ground (
  arith,
  owns-add_files name old fs n f (if member g old then reverse else index_add name g reverse),
  owns-index_add name g n f reverse,
  text_beq_iff g f,
)

-- The files of a name's graph.
abbrev pub graph_files : DepGraph → Text → List Text
graph_files g name = files_or_empty (JsMap.get name g.per_name)

-- The index says that a name owns a file exactly when the file is in the graph of the name.
pub record IsConsistent (g : DepGraph) : Type 0 where
  pub exact : (n f : Text) → owns g.reverse n f ≡ member f (graph_files g n)

pub replace-IsConsistent :
    (name : Text) (fresh : FunctionGraph) (g : DepGraph)
    → IsConsistent g
    → IsConsistent (replace name fresh g)
unfolding replace
replace-IsConsistent name fresh g h = record {
  exact = λ n f. ground (
    arith,
    owns-add_files name (graph_files g name) fresh.files n f
        (remove_files name fresh.files (graph_files g name) g.reverse),
    owns-remove_files name fresh.files (graph_files g name) n f g.reverse,
    JsMap.get-set name n fresh g.per_name,
    text_beq_iff name n,
    h.exact n f,
  );
}

forgotten :
    (name n f : Text) (old : FunctionGraph) (g : DepGraph)
    → JsMap.get name g.per_name ≡ some old
    → IsConsistent g
    → owns (remove_files name [] old.files g.reverse) n f
      ≡ member f (files_or_empty (JsMap.get n (JsMap.delete name g.per_name)))
unfolding member
forgotten name n f old g found h = ground (
  arith,
  owns-remove_files name [] old.files n f g.reverse,
  JsMap.get-delete name n g.per_name,
  text_beq_iff name n,
  h.exact n f,
)

forget-IsConsistent : (name : Text) (g : DepGraph) → IsConsistent g → IsConsistent (forget name g)
unfolding forget
forget-IsConsistent name g h = elim (Option-cases (JsMap.get name g.per_name)) [
  | inl absent ↦ rw (absent, forget) h
  | inr (old, found) ↦
      rw (found, forget) (record { exact = λ n f. forgotten name n f old g found h })
]

-- An operation on the graphs: a refresh with the graph that was walked, or the drop of a name.
pub data Update : Type 0 where
  refreshed : Text → FunctionGraph → Update
  forgotten_of : Text → Update

unfoldable pub update_all : List Update → DepGraph → DepGraph
update_all [] g = g
update_all (refreshed name fresh ∷ us) g = update_all us (replace name fresh g)
update_all (forgotten_of name ∷ us) g = update_all us (forget name g)

abbrev pub empty_graph : DepGraph
empty_graph = record { per_name = []; reverse = [] }

update_all_keeps :
    (us : List Update) (g : DepGraph) → IsConsistent g → IsConsistent (update_all us g)
unfolding update_all
update_all_keeps [] g h = h
update_all_keeps (refreshed name fresh ∷ us) g h =
    update_all_keeps us (replace name fresh g) (replace-IsConsistent name fresh g h)
update_all_keeps (forgotten_of name ∷ us) g h =
    update_all_keeps us (forget name g) (forget-IsConsistent name g h)

pub empty_graph-IsConsistent : IsConsistent empty_graph
unfolding JsMap.get member
empty_graph-IsConsistent = record { exact = λ n f. refl }

-- From the empty graph, after any refreshes and drops, the reverse index is exactly the graphs read
-- backwards.
pub update_all-IsConsistent : (us : List Update) → IsConsistent (update_all us empty_graph)
update_all-IsConsistent us = update_all_keeps us empty_graph empty_graph-IsConsistent

-- Whether a name's graph holds one of the files.
abbrev pub touches : DepGraph → Text → List Text → Bool
touches g n [] = false
touches g n (f ∷ fs) = member f (graph_files g n) || touches g n fs

member-affected_from :
    (g : DepGraph) (n : Text) (fs out : List Text)
    → IsConsistent g
    → member n (affected_from g fs out) ≡ (touches g n fs || member n out)
unfolding affected_from
member-affected_from g n [] out h = ground arith
member-affected_from g n (f ∷ fs) out h = ground (
  arith,
  member-affected_from g n fs (add_all (owners_or_empty (JsMap.get f g.reverse)) out) h,
  member-add_all n (owners_or_empty (JsMap.get f g.reverse)) out,
  h.exact n f,
)

-- On a consistent index `affected` returns exactly the names whose graph holds a changed file.
pub member-affected :
    (g : DepGraph) (n : Text) (changed : List Text)
    → IsConsistent g
    → member n (affected g changed) ≡ touches g n changed
unfolding affected member
member-affected g n changed h = ground (arith, member-affected_from g n changed [] h)
