-- ===== src/Compat/Specifiers.antt =====
-- compat/specifiers.ts: parsing of `npm:`, `jsr:` and `https:` specifiers.
pub mod RoundTrip
mod Tests
use tube.Common.{
  ℕ, suc, ◌+◌, Bool, true, false, ◌||◌, Option, none, some, List, [], ◌∷◌, ◌++◌, eqb, if◌then◌else◌,
  length, drop, ◌==◌, text_eq,
}
use tube.Common.Text.{Text, codes, starts_with, split}

pub data Registry : Type 0 where
  npm jsr : Registry

pub record PackageRequest : Type 0 where
  pub name : Text
  pub range : Text
  pub subpath : Text
  pub registry : Registry

pub record PackageParts : Type 0 where
  pub name : Text
  pub range : Text
  pub subpath : Text

abbrev pub at_sign : ℕ
at_sign = b'@'

abbrev pub slash : ℕ
slash = b'/'

-- The text before the first character that passes the test, and the text from there on.
unfoldable pub break_at : (ℕ → Bool) → Text → Text × Text
break_at p [] = ([], [])
break_at p (c ∷ s) =
    let (before, after) = break_at p s in if p c then ([], c ∷ s) else (c ∷ before, after)

abbrev pub is_slash : ℕ → Bool
is_slash c = eqb c slash

abbrev pub ends_name : ℕ → Bool
ends_name c = eqb c at_sign || eqb c slash

abbrev pub latest : Text
latest = codes "latest"

abbrev pub or_latest : Text → Text
or_latest [] = latest
or_latest (c ∷ s) = c ∷ s

root_or : Text → Text
root_or [] = []
root_or (c ∷ []) = if is_slash c then [] else c ∷ []
root_or (c ∷ d ∷ s) = c ∷ d ∷ s

-- The range and the subpath of what follows the name.
range_parts : Text → Text → PackageParts
unfolding root_or
range_parts name [] = record { name = name; range = latest; subpath = [] }
range_parts name (c ∷ after) =
    if eqb c at_sign
    then (let (range, subpath) = break_at is_slash after in
        record { name = name; range = or_latest range; subpath = root_or subpath })
    else record { name = name; range = latest; subpath = root_or (c ∷ after) }

-- The scope, with its `@` and its slash, and the name in it. A name that would be empty, or would
-- end in the slash of the scope, is refused.
name_parts : Text → Text × Text → Option PackageParts
unfolding range_parts
name_parts scope ([], after) = none
name_parts scope (c ∷ name, after) = some (range_parts (scope ++ c ∷ name) after)

-- The scope before the first slash: the slash must stand, at index 2 or later.
scoped_parts : Text × Text → Option PackageParts
unfolding name_parts
scoped_parts (scope, []) = none
scoped_parts ([], c ∷ rest) = none
scoped_parts (a ∷ [], c ∷ rest) = none
scoped_parts (a ∷ b ∷ scope, c ∷ rest) =
    name_parts (a ∷ b ∷ scope ++ c ∷ []) (break_at ends_name rest)

pub split_package : Text → Option PackageParts
unfolding scoped_parts name_parts
split_package [] = none
split_package (c ∷ rest) =
    if eqb c at_sign
    then scoped_parts (break_at is_slash (c ∷ rest))
    else name_parts [] (break_at ends_name (c ∷ rest))

-- `spec` without the scheme, if it has it, and without one leading slash.
strip_slash : Text → Text
strip_slash [] = []
strip_slash (c ∷ s) = if is_slash c then s else c ∷ s

strip_scheme : Text → Text → Text
unfolding strip_slash
strip_scheme scheme spec =
    strip_slash (if starts_with scheme spec then drop (length scheme) spec else spec)

request_of : Registry → PackageParts → PackageRequest
request_of registry p = record {
  name = p.name;
  range = p.range;
  subpath = p.subpath;
  registry = registry;
}

unfoldable pub parse_npm_specifier : Text → Option PackageRequest
unfolding strip_scheme split_package request_of
parse_npm_specifier spec = elim (split_package (strip_scheme (codes "npm:") spec)) [
  | none ↦ none
  | some parts ↦ some (request_of npm parts)
]

-- `parts.name.slice(1).split("/")`: the scope and the package, neither of them empty.
jsr_request : PackageParts → List Text → Option PackageRequest
jsr_request p ((a ∷ scope) ∷ (b ∷ pkg) ∷ more) = some (record {
  name = codes "@jsr/" ++ (a ∷ scope) ++ codes "__" ++ b ∷ pkg;
  range = p.range;
  subpath = p.subpath;
  registry = jsr;
})
jsr_request p pieces = none

jsr_of_parts : PackageParts → Option PackageRequest
unfolding jsr_request
jsr_of_parts p =
    if starts_with (at_sign ∷ []) p.name then jsr_request p (split slash (drop 1 p.name)) else none

unfoldable pub parse_jsr_specifier : Text → Option PackageRequest
unfolding strip_scheme split_package jsr_of_parts
parse_jsr_specifier spec = elim (split_package (strip_scheme (codes "jsr:") spec)) [
  | none ↦ none
  | some parts ↦ jsr_of_parts parts
]

unfoldable pub parse_package_specifier : Text → Option PackageRequest
unfolding parse_npm_specifier parse_jsr_specifier
parse_package_specifier spec =
    if starts_with (codes "npm:") spec
    then parse_npm_specifier spec
    else if starts_with (codes "jsr:") spec
    then parse_jsr_specifier spec
    else none

unfoldable pub is_remote_specifier : Text → Bool
is_remote_specifier spec = starts_with (codes "https://") spec || starts_with (codes "http://") spec

unfoldable pub package_key : PackageRequest → Text
package_key req = req.name ++ at_sign ∷ req.range
