-- ===== src/HotReloader/Affected.antt =====
-- Which functions a flush reloads.
use tube.Common.{
  ◌≡◌, refl, Bool, false, not, ◌&&◌, ◌||◌, Option, none, some, List, [], ◌∷◌, filter, if◌then◌else◌,
  ◌==◌, text_eq, arith, text_beq_iff,
}
use tube.Common.JsMap
use tube.Common.JsMap.{JsMap}
use tube.Common.Sets.{member, add, member-add}
use tube.Common.Text.{Text}
use tube.DepGraph.{affected}
use tube.DepGraph.Affected.{IsConsistent, touches, member-affected}
use tube.FunctionHost.{FunctionHost}
use tube.HotReloader.{
  own_function, is_function_name, add_name, add_own, names_under, child_of, without_separator,
  directory_event_function_names, compute_affected, add_events, affected_names,
}

-- A name of a function, and this one.
abbrev is_name : Text → Option Text → Bool
is_name n none = false
is_name n (some m) = m == n && is_function_name m

-- One of the paths is the entry or the manifest of the function.
abbrev pub is_own_change : Text → List Text → Bool
is_own_change n [] = false
is_own_change n (p ∷ ps) = is_name n (own_function p) || is_own_change n ps

-- One of the paths is the directory of the function.
abbrev pub is_directory_event : Text → Text → List Text → Bool
is_directory_event n dir [] = false
is_directory_event n dir (p ∷ ps) = is_name n (child_of dir p) || is_directory_event n dir ps

member-add_name :
    (n : Text) (o : Option Text) (out : List Text)
    → member n (add_name o out) ≡ (is_name n o || member n out)
unfolding add_name
member-add_name n none out = refl
member-add_name n (some m) out = ground (arith, member-add n m out, text_beq_iff m n)

member-add_own :
    (n : Text) (ps out : List Text)
    → member n (add_own ps out) ≡ (is_own_change n ps || member n out)
unfolding add_own
member-add_own n [] out = refl
member-add_own n (p ∷ ps) out = ground (
  arith,
  member-add_own n ps (add_name (own_function p) out),
  member-add_name n (own_function p) out,
)

member-names_under :
    (n dir : Text) (ps out : List Text)
    → member n (names_under dir ps out) ≡ (is_directory_event n dir ps || member n out)
unfolding names_under
member-names_under n dir [] out = refl
member-names_under n dir (p ∷ ps) out = ground (
  arith,
  member-names_under n dir ps (add_name (child_of dir p) out),
  member-add_name n (child_of dir p) out,
)

member-filter :
    (f : Text → Bool) (n : Text) (ns : List Text) → member n (filter f ns) ≡ (member n ns && f n)
unfolding member
member-filter f n [] = refl
member-filter f n (m ∷ ns) = ground (arith, member-filter f n ns, text_beq_iff m n)

module _ (has_entry : Text → Bool) where
  member-add_events :
      (known : Text → Bool) (n : Text) (ns raw : List Text)
      → member n (add_events has_entry known ns raw)
        ≡ ((member n ns && (if has_entry n then not (known n) else known n)) || member n raw)
  unfolding add_events member
  member-add_events known n [] raw = refl
  member-add_events known n (m ∷ ns) raw = ground (
    arith,
    member-add_events known n ns (add m raw),
    member-add_events known n ns raw,
    member-add n m raw,
    text_beq_iff m n,
  )

  -- With a consistent dependency graph, a flush reloads a function exactly if it is loaded or has an
  -- entry on disk, and one of the changed paths is a file that its graph holds, its entry, its manifest,
  -- or its directory, where a directory counts if the function is new or gone.
  pub member-affected_names :
      (n dir : Text) (paths : List Text) (host : FunctionHost)
      → IsConsistent host.dep_graph
      → member n (affected_names has_entry dir paths host) ≡ (
          (JsMap.has n host.handles || has_entry n)
          && (touches host.dep_graph n paths
              || is_own_change n paths
              || (is_directory_event n (without_separator dir) paths
                  && not (has_entry n && JsMap.has n host.handles))))
  unfolding affected_names compute_affected directory_event_function_names
  member-affected_names n dir paths host h =
      let known : Text → Bool = λ name. JsMap.has name host.handles in
      let names = names_under (without_separator dir) paths [] in
      let raw = add_own paths (affected host.dep_graph paths) in
      ground (
        arith,
        member-filter (λ name. JsMap.has name host.handles || has_entry name) n
            (add_events has_entry known names raw),
        member-add_events known n names raw,
        member-names_under n (without_separator dir) paths [],
        member-add_own n paths (affected host.dep_graph paths),
        member-affected host.dep_graph n paths h,
      )
