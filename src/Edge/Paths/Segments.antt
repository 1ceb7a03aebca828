-- ===== src/Edge/Paths/Segments.antt =====
-- The segments of a path through its normalisation, and behind a prefix.
use tube.Common.{
  ℕ, ◌≡◌, refl, ap, ◌∙◌, true, false, Option, List, [], ◌∷◌, ◌++◌, filter, drop-append, text_eq,
  text_beq_iff, beq_self, arith, All, All-append,
}
use tube.Common.Text.{
  Text, codes, trim, is_space, drop_while, keep_end, drop_while_end, split, split_on,
}
use tube.Common.Scan.{Lacks, split_on-append, split_on-Lacks, trim-all}
use tube.Gateway.RoutePrefix.{slash, is_slash}
use tube.Edge.Paths.{
  normalize_trimmed, normalize_route_path, is_full, split_path, join_path, begins, prefix_parts,
  without_prefix, after_name, relative_path_from_parts,
}

split_path-drop_while : (s : Text) → split_path (drop_while is_slash s) ≡ split_path s
unfolding split_path split split_on drop_while
split_path-drop_while [] = refl
split_path-drop_while (c ∷ s) = ground (arith, split_path-drop_while s)

-- The same first piece, and the same others but for empty ones.
abbrev SamePieces : Text → Text → Type 0
SamePieces t s =
    ((split_on slash t).0 ≡ (split_on slash s).0)
    × (filter is_full (split_on slash t).1 ≡ filter is_full (split_on slash s).1)

keep_end-SamePieces :
    (c : ℕ) (t s : Text) → SamePieces t s → SamePieces (keep_end is_slash c t) (c ∷ s)
unfolding split_on keep_end
keep_end-SamePieces c [] s (first, rest) = ground (arith, first, rest)
keep_end-SamePieces c (d ∷ t) s (first, rest) = ground (arith, first, rest)

drop_while_end-SamePieces : (s : Text) → SamePieces (drop_while_end is_slash s) s
unfolding drop_while_end
drop_while_end-SamePieces [] = (refl, refl)
drop_while_end-SamePieces (c ∷ s) =
    keep_end-SamePieces c (drop_while_end is_slash s) s (drop_while_end-SamePieces s)

split_path-SamePieces : (t s : Text) → SamePieces t s → split_path t ≡ split_path s
unfolding split_path split
split_path-SamePieces t s (first, rest) = ground (arith, first, rest)

split_path-slash : (s : Text) → split_path (slash ∷ s) ≡ split_path s
unfolding split_path split split_on
split_path-slash s = ground arith

split_path-stripped :
    (s : Text) → split_path (slash ∷ drop_while_end is_slash (drop_while is_slash s)) ≡ split_path s
split_path-stripped s =
    split_path-slash (drop_while_end is_slash (drop_while is_slash s))
    ∙ split_path-SamePieces _ _ (drop_while_end-SamePieces (drop_while is_slash s))
    ∙ split_path-drop_while s

split_path-normalize_trimmed : (s : Text) → split_path (normalize_trimmed s) ≡ split_path s
unfolding normalize_trimmed split_path split split_on
split_path-normalize_trimmed s =
    ground (arith, split_path-stripped s, text_beq_iff s [], text_beq_iff s (codes "/"))

-- The segments of a path are those of its text without the spaces at its ends.
split_path-normalize_route_path :
    (path : Text) → split_path (normalize_route_path path) ≡ split_path (trim path)
unfolding normalize_route_path
split_path-normalize_route_path path = split_path-normalize_trimmed (trim path)

-- A segment of a request: not empty, and without a slash or a space.
abbrev pub IsSegment : Text → Type 0
IsSegment s = (is_full s ≡ true) × Lacks slash s × All (λ c. is_space c ≡ false) s

split_path-join_path :
    (parts : List Text) → All IsSegment parts → split_path (join_path parts) ≡ parts
unfolding split_path split split_on join_path
split_path-join_path [] h = refl
split_path-join_path (s ∷ []) ((full, no_slash, no_space), h) =
    rw (split_on-Lacks slash s no_slash, full) refl
split_path-join_path (s ∷ t ∷ parts) ((full, no_slash, no_space), h) =
    rw (split_on-append slash s (join_path (t ∷ parts)) no_slash, full)
      (ap (◌∷◌ s) (split_path-join_path (t ∷ parts) h))

spaces-join_path :
    (parts : List Text) → All IsSegment parts → All (λ c. is_space c ≡ false) (join_path parts)
unfolding join_path
spaces-join_path [] h = tt
spaces-join_path (s ∷ []) (p, h) = p.2
spaces-join_path (s ∷ t ∷ parts) (p, h) =
    All-append _ s (slash ∷ join_path (t ∷ parts)) p.2 (refl, spaces-join_path (t ∷ parts) h)

split_path-relative :
    (parts : List Text)
    → All IsSegment parts
    → split_path (normalize_route_path (join_path parts)) ≡ parts
split_path-relative parts h =
    split_path-normalize_route_path (join_path parts)
    ∙ ap split_path (trim-all (join_path parts) (spaces-join_path parts h))
    ∙ split_path-join_path parts h

begins-append : (prefix parts : List Text) → begins prefix (prefix ++ parts) ≡ true
unfolding begins
begins-append [] parts = refl
begins-append (p ∷ prefix) parts = ground (arith, beq_self p, begins-append prefix parts)

without_prefix-append : (prefix parts : List Text) → without_prefix prefix (prefix ++ parts) ≡ parts
unfolding without_prefix
without_prefix-append prefix parts = rw (begins-append prefix parts) (drop-append prefix parts)

after_name_self :
    (name : Text) (rest : List Text) (otherwise : Text)
    → after_name name (name ∷ rest) otherwise ≡ normalize_route_path (join_path rest)
unfolding after_name
after_name_self name rest otherwise = rw (beq_self name) refl

-- Behind the prefix of the public path and the function's name a function sees the segments of the
-- rest, exactly, and it sees the same without the prefix, if that does not itself begin with it.
pub relative_path_from_parts-segments :
    (name : Text) (path_prefix : Option Text) (rest : List Text)
    → All IsSegment rest
    → begins (prefix_parts path_prefix) (name ∷ rest) ≡ false
    → (split_path
          (relative_path_from_parts (prefix_parts path_prefix ++ (name ∷ rest)) name path_prefix)
        ≡ rest)
      × (split_path (relative_path_from_parts (name ∷ rest) name path_prefix) ≡ rest)
unfolding relative_path_from_parts
relative_path_from_parts-segments name path_prefix rest h other =
    let prefix = prefix_parts path_prefix in
    let behind : without_prefix prefix (name ∷ rest) ≡ name ∷ rest =
      unfold without_prefix in rw other refl in
    (
      rw (without_prefix-append prefix (name ∷ rest), after_name_self) (split_path-relative rest h),
      rw (behind, after_name_self) (split_path-relative rest h),
    )
