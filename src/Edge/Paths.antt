-- ===== src/Edge/Paths.antt =====
-- The paths of routes and requests, as text and as segments.
pub mod Segments
pub mod Fits
use tube.Common.{
  ℕ, suc, Bool, true, false, not, ◌&&◌, ◌||◌, Option, none, some, List, [], ◌∷◌, ◌++◌, eqb, filter,
  if◌then◌else◌, length, drop, ◌==◌, text_eq,
}
use tube.Common.JsMap
use tube.Common.JsMap.{JsMap}
use tube.Common.Text.{Text, codes, starts_with, trim, drop_while, drop_while_end, split}
use tube.Gateway.RoutePrefix.{slash, is_slash}

normalize_trimmed : Text → Text
unfolding drop_while drop_while_end
normalize_trimmed s =
    if s == [] || s == codes "/"
    then codes "/"
    else slash ∷ drop_while_end is_slash (drop_while is_slash s)

pub normalize_route_path : Text → Text
unfolding trim normalize_trimmed
normalize_route_path path = normalize_trimmed (trim path)

abbrev pub is_full : Text → Bool
is_full [] = false
is_full (c ∷ s) = true

unfoldable pub split_path : Text → List Text
unfolding split
split_path path = filter is_full (split slash path)

-- `parts.join("/")`
pub join_path : List Text → Text
join_path [] = []
join_path (s ∷ []) = s
join_path (s ∷ t ∷ parts) = s ++ (slash ∷ join_path (t ∷ parts))

-- `prefixParts.every((part, index) => pathnameParts[index] === part)`
unfoldable pub begins : List Text → List Text → Bool
begins [] parts = true
begins (p ∷ prefix) [] = false
begins (p ∷ prefix) (s ∷ parts) = s == p && begins prefix parts

abbrev pub default_prefix : List Text
default_prefix = codes "functions" ∷ codes "v1" ∷ []

-- `pathPrefix ? splitPath(pathPrefix) : ["functions", "v1"]`
abbrev pub prefix_parts : Option Text → List Text
prefix_parts none = default_prefix
prefix_parts (some []) = default_prefix
prefix_parts (some (c ∷ s)) = split_path (c ∷ s)

without_prefix : List Text → List Text → List Text
unfolding begins
without_prefix prefix parts = if begins prefix parts then drop (length prefix) parts else parts

-- The path without a name in front; `else` where there is another.
after_name : Text → List Text → Text → Text
unfolding normalize_route_path join_path
after_name name [] otherwise = otherwise
after_name name (s ∷ rest) otherwise =
    if s == name then normalize_route_path (join_path rest) else otherwise

-- The path behind `functions/v1` and the name.
after_default : Text → List Text → Text → Text
unfolding after_name begins
after_default name parts otherwise =
    if begins default_prefix parts then after_name name (drop 2 parts) otherwise else otherwise

unfoldable pub relative_path_from_parts : List Text → Text → Option Text → Text
unfolding without_prefix after_name after_default normalize_route_path join_path
relative_path_from_parts pathname_parts name path_prefix =
    let parts = without_prefix (prefix_parts path_prefix) pathname_parts in
    after_name name parts
      (after_default name pathname_parts (normalize_route_path (join_path parts)))

-- A segment that begins with a colon takes any segment; another stands for itself.
pub data Matching : Type 0 where
  mismatch : Matching
  matched : JsMap Text Text → Matching
  malformed : Matching

bind_param : Text → Option Text → JsMap Text Text → Option (JsMap Text Text)
bind_param name none params = none
bind_param name (some value) params = some (JsMap.set name value params)

pub match_parts : (Text → Option Text) → List Text → List Text → JsMap Text Text → Matching
unfolding bind_param starts_with
match_parts decode [] [] params = matched params
match_parts decode [] (a ∷ actual) params = mismatch
match_parts decode (e ∷ expected) [] params = mismatch
match_parts decode (e ∷ expected) (a ∷ actual) params =
    if starts_with (codes ":") e
    then (elim (bind_param (drop 1 e) (decode a) params) [
      | none ↦ malformed
      | some params' ↦ match_parts decode expected actual params'
    ])
    else if e == a
    then match_parts decode expected actual params
    else mismatch

unfoldable pub match_route_path : (Text → Option Text) → Text → Text → Matching
unfolding match_parts split_path
match_route_path decode route_path request_path =
    if eqb (length (split_path route_path)) (length (split_path request_path))
    then match_parts decode (split_path route_path) (split_path request_path) []
    else mismatch
