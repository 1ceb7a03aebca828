-- ===== src/EnvFile.antt =====
-- env-file.ts: the parse of a dotenv document, and how its values get into the environment. What
-- `readFileSync` gives is an input; the lists of a diff are in the order before their `sort`.
pub mod Sync
pub mod Spelling
mod Tests
use tube.Common.{
  ℕ, suc, ◌+◌, Bool, true, false, not, ◌&&◌, ◌||◌, Option, none, some, is_some, List, [], ◌∷◌, ◌++◌,
  eqb, leb, ltb, if◌then◌else◌, length, take, drop, ◌==◌, text_eq, ◌-◌,
}
use tube.Common.JsMap
use tube.Common.JsMap.{JsMap}
use tube.Common.Sets.{member}
use tube.Common.Text.{
  Text, codes, starts_with, ends_with, index_of, split, trim, drop_while_end, is_space,
}

-- `out.replace(/\\b/g, c)` for one character after the backslash, with whether a backslash is held.
replace_held : ℕ → ℕ → Bool → Text → Text
replace_held b c false [] = []
replace_held b c true [] = b'\\' ∷ []
replace_held b c false (x ∷ s) =
    let rest = replace_held b c (eqb x b'\\') s in if eqb x b'\\' then rest else x ∷ rest
replace_held b c true (x ∷ s) =
    let rest = replace_held b c (not (eqb x b) && eqb x b'\\') s in
    if eqb x b then c ∷ rest else if eqb x b'\\' then b'\\' ∷ rest else b'\\' ∷ x ∷ rest

-- The five replacements of a double-quoted value, one after the other.
pub unescape : Text → Text
unfolding replace_held
unescape s = replace_held b'\\' b'\\' false (
    replace_held b'"' b'"' false
      (replace_held b't' 9 false (replace_held b'r' 13 false (replace_held b'n' 10 false s))))

abbrev is_key_start : ℕ → Bool
is_key_start c = (leb 65 c && leb c 90) || (leb 97 c && leb c 122) || eqb c b'_'

abbrev is_key_char : ℕ → Bool
is_key_char c = is_key_start c || (leb 48 c && leb c 57)

are_key_chars : Text → Bool
are_key_chars [] = true
are_key_chars (c ∷ s) = is_key_char c && are_key_chars s

-- `/^[A-Za-z_][A-Za-z0-9_]*$/`
pub is_key : Text → Bool
unfolding are_key_chars
is_key [] = false
is_key (c ∷ s) = is_key_start c && are_key_chars s

-- `value.indexOf(" #")`, `none` for -1.
index_of_comment : Text → Option ℕ
unfolding starts_with
index_of_comment [] = none
index_of_comment (c ∷ s) =
    let rest = index_of_comment s in
    if starts_with (codes " #") (c ∷ s)
    then some 0
    else (elim rest [ none ↦ none | some i ↦ some (suc i) ])

is_quoted : Text → Text → Bool
unfolding starts_with ends_with
is_quoted quote value = starts_with quote value && (ends_with quote value && leb 2 (length value))

abbrev unquoted : Text → Text
unquoted value = take (length value - 2) (drop 1 value)

bare_value : Text → Text
unfolding index_of_comment drop_while_end
bare_value value = elim (index_of_comment value) [
  | none ↦ value
  | some i ↦ drop_while_end is_space (take i value)
]

pub read_value : Text → Text
unfolding is_quoted unescape bare_value
read_value value =
    if is_quoted (codes "\"") value
    then unescape (unquoted value)
    else if is_quoted (codes "'") value
    then unquoted value
    else bare_value value

strip_export : Text → Text
unfolding starts_with trim
strip_export line = if starts_with (codes "export ") line then trim (drop 7 line) else line

-- The key of a line and the text of its value, `none` for a line that is skipped.
checked_pair : Bool → Text → Text → Option (Text × Text)
unfolding is_key
checked_pair has_key key value = if has_key && is_key key then some (key, value) else none

read_pair : Text → Option ℕ → Option (Text × Text)
unfolding trim checked_pair
read_pair body none = none
read_pair body (some i) = checked_pair (ltb 0 i) (trim (take i body)) (trim (drop (i + 1) body))

parse_body : Text → Option (Text × Text)
unfolding read_pair index_of
parse_body body = read_pair body (index_of b'=' body)

parse_trimmed : Text → Option (Text × Text)
unfolding strip_export parse_body
parse_trimmed [] = none
parse_trimmed (c ∷ s) = if eqb c b'#' then none else parse_body (strip_export (c ∷ s))

pub parse_line : Text → Option (Text × Text)
unfolding trim parse_trimmed
parse_line raw = parse_trimmed (trim raw)

add_first : Option (Text × Text) → JsMap Text Text → JsMap Text Text
unfolding read_value
add_first none out = out
add_first (some (key, value)) out =
    if JsMap.has key out then out else JsMap.set key (read_value value) out

pub parse_lines : List Text → JsMap Text Text → JsMap Text Text
unfolding parse_line add_first
parse_lines [] out = out
parse_lines (raw ∷ lines) out = parse_lines lines (add_first (parse_line raw) out)

-- The `\r` that the split takes with the `\n` goes with the `trim` of each line.
pub parse_env_file : Text → JsMap Text Text
unfolding parse_lines split
parse_env_file content = parse_lines (split 10 content) []
