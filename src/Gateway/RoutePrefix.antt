-- ===== src/Gateway/RoutePrefix.antt =====
-- gateway/route-prefix.ts: the prefix under which functions are mounted. The process-wide `_prefix`
-- is an argument here.
pub mod Canonical
mod Tests
use tube.Common.{
  ℕ, suc, ◌+◌, Bool, Option, none, some, List, [], ◌∷◌, ◌++◌, if◌then◌else◌, eqb, length, drop,
  ◌==◌, text_eq,
}
use tube.Common.Text.{Text, codes, trim, starts_with, drop_while_end}

abbrev pub default_route_prefix : Text
default_route_prefix = codes "/functions/v1"

abbrev pub slash : ℕ
slash = b'/'

abbrev pub is_slash : ℕ → Bool
is_slash c = eqb c slash

-- `replace(/\/{2,}/g, "/")`: a slash before a slash is dropped.
squeeze_onto : ℕ → Text → Text
squeeze_onto c [] = c ∷ []
squeeze_onto c (d ∷ s) = if is_slash c then (if is_slash d then d ∷ s else c ∷ d ∷ s) else c ∷ d ∷ s

pub squeeze : Text → Text
unfolding squeeze_onto
squeeze [] = []
squeeze (c ∷ s) = squeeze_onto c (squeeze s)

-- `replace(/\/+$/, "")`
pub strip_slashes : Text → Text
unfolding drop_while_end
strip_slashes s = drop_while_end is_slash s

or_default : Text → Text
or_default [] = default_route_prefix
or_default (c ∷ s) = c ∷ s

with_slash : Text → Text
with_slash v = if starts_with (slash ∷ []) v then v else slash ∷ v

normalize_trimmed : Text → Text
unfolding with_slash squeeze strip_slashes or_default
normalize_trimmed [] = default_route_prefix
normalize_trimmed (c ∷ s) = or_default (strip_slashes (squeeze (with_slash (c ∷ s))))

text_or_empty : Option Text → Text
text_or_empty none = []
text_or_empty (some s) = s

-- `raw` is `none` for `undefined` and `null`.
unfoldable pub normalize_route_prefix : Option Text → Text
unfolding normalize_trimmed text_or_empty trim
normalize_route_prefix raw = normalize_trimmed (trim (text_or_empty raw))

unfoldable pub route_remainder : Text → Text → Text
route_remainder prefix path =
    if starts_with (prefix ++ slash ∷ []) path then drop (length prefix + 1) path else []

unfoldable pub route_wildcard : Text → Text
route_wildcard prefix = prefix ++ codes "/*"

unfoldable pub route_dispatch_pattern : Text → Text
route_dispatch_pattern prefix = prefix ++ codes "/:name{.+}"

unfoldable pub strip_route_prefix_from_pathname : Text → Text → Text
strip_route_prefix_from_pathname prefix pathname =
    if pathname == prefix
    then []
    else if starts_with (prefix ++ slash ∷ []) pathname
    then drop (length prefix) pathname
    else pathname
