-- ===== src/EnvFile/Spelling.antt =====
-- A dotenv document written line by line, and what the parse makes of it.
use mathlib.Core.List.{append_assoc}
use tube.Common.{
  ℕ, suc, ◌+◌, ◌-◌, ◌≡◌, refl, ap, sym, ◌∙◌, true, false, Option, none, some, List, [], ◌∷◌, ◌++◌,
  eqb, eqb_iff, ltb, if◌then◌else◌, length, take, drop, ◌==◌, text_eq, text_beq_iff, arith, All,
  All-append, take-append, length-append,
}
use tube.Common.JsMap
use tube.Common.JsMap.{JsMap}
use tube.Common.Text.{Text, codes, starts_with, split, split_on, trim, is_space}
use tube.Common.Scan.{
  Lacks, split_on-append, index_of-append, trim-kept, trim-all, ends_with-last, starts_with-Lacks,
}
use tube.EnvFile.{
  replace_held, unescape, is_key_char, are_key_chars, is_key, is_quoted, unquoted, read_value,
  strip_export, checked_pair, read_pair, parse_body, parse_trimmed, parse_line, add_first,
  parse_lines, parse_env_file,
}

abbrev pub in_quotes : Text → Text
in_quotes value = b'"' ∷ value ++ b'"' ∷ []

-- `KEY="value"`
abbrev pub spell_line : Text → Text → Text
spell_line key value = key ++ (b'=' ∷ in_quotes value)

pub spell_file : List (Text × Text) → Text
spell_file [] = []
spell_file ((key, value) ∷ entries) = spell_line key value ++ (10 ∷ spell_file entries)

-- What can be written so: an identifier, and a value of one line without a backslash.
abbrev pub IsPlain : List (Text × Text) → Type 0
IsPlain entries =
    All (λ (key, value). (is_key key ≡ true) × Lacks 10 value × Lacks b'\\' value) entries

replace_held-plain : (b c : ℕ) (s : Text) → Lacks b'\\' s → replace_held b c false s ≡ s
unfolding replace_held
replace_held-plain b c [] h = refl
replace_held-plain b c (x ∷ s) (ne, h) =
    ground (arith, replace_held-plain b c s h, eqb_iff x b'\\', eqb_iff b'\\' x)

unescape-plain : (s : Text) → Lacks b'\\' s → unescape s ≡ s
unfolding unescape
unescape-plain s h =
    rw
      (
        replace_held-plain b'n' 10 s h,
        replace_held-plain b'r' 13 s h,
        replace_held-plain b't' 9 s h,
        replace_held-plain b'"' b'"' s h,
      )
      (replace_held-plain b'\\' b'\\' s h)

is_quoted-in_quotes : (value : Text) → is_quoted (codes "\"") (in_quotes value) ≡ true
unfolding is_quoted starts_with
is_quoted-in_quotes value =
    ground (arith, ends_with-last b'"' (b'"' ∷ value), length-append value (b'"' ∷ []))

unquoted-in_quotes : (value : Text) → unquoted (in_quotes value) ≡ value
unquoted-in_quotes value =
    let n : suc (length (value ++ b'"' ∷ [])) - 2 ≡ length value =
      omega (arith, length-append value (b'"' ∷ [])) in
    ap (λ k. take k (value ++ b'"' ∷ [])) n ∙ take-append value (b'"' ∷ [])

read_value-in_quotes : (value : Text) → Lacks b'\\' value → read_value (in_quotes value) ≡ value
unfolding read_value
read_value-in_quotes value h =
    rw (is_quoted-in_quotes value) (ap unescape (unquoted-in_quotes value) ∙ unescape-plain value h)

-- What an identifier's characters are not.
plain_char :
    (c : ℕ)
    → is_key_char c ≡ true
    → (is_space c ≡ false)
      × (eqb b'=' c ≡ false)
      × (eqb 32 c ≡ false)
      × (eqb 10 c ≡ false)
      × (eqb c b'#' ≡ false)
plain_char c h = ground arith

plain_chars :
    (s : Text)
    → are_key_chars s ≡ true
    → All (λ c. is_space c ≡ false) s × Lacks b'=' s × Lacks 32 s × Lacks 10 s
unfolding are_key_chars
plain_chars [] h = (tt, tt, tt, tt)
plain_chars (c ∷ s) h =
    let (space, equals, blank, newline, hash) = plain_char c (ground arith) in
    let (spaces, no_equals, no_blank, no_newline) = plain_chars s (ground arith) in
    ((space, spaces), (equals, no_equals), (blank, no_blank), (newline, no_newline))

key_chars : (key : Text) → is_key key ≡ true → are_key_chars key ≡ true
unfolding is_key are_key_chars
key_chars [] h = cc
key_chars (c ∷ s) h = ground arith

drop-past : (key s : Text) → drop (length key + 1) (key ++ b'=' ∷ s) ≡ s
drop-past [] s = refl
drop-past (c ∷ key) s =
    let n : suc (length key) + 1 ≡ suc (length key + 1) = omega arith in
    ap (λ k. drop k (c ∷ key ++ b'=' ∷ s)) n ∙ drop-past key s

checked_pair-key :
    (key value : Text)
    → is_key key ≡ true
    → checked_pair (ltb 0 (length key)) key value ≡ some (key, value)
unfolding checked_pair is_key
checked_pair-key [] value h = cc
checked_pair-key (c ∷ key) value h = ground arith

-- The body of a line: its first `=` ends the key.
parse_body-spell_line :
    (key value : Text)
    → is_key key ≡ true
    → parse_body (spell_line key value) ≡ some (key, in_quotes value)
unfolding parse_body
parse_body-spell_line key value h =
    let (spaces, no_equals, no_blank, no_newline) = plain_chars key (key_chars key h) in
    let body = spell_line key value in
    let found = index_of-append b'=' key (in_quotes value) no_equals in
    let key_read : trim (take (length key) body) ≡ key =
      ap trim (take-append key (b'=' ∷ in_quotes value)) ∙ trim-all key spaces in
    let value_read : trim (drop (length key + 1) body) ≡ in_quotes value =
      ap trim (drop-past key (in_quotes value)) ∙ trim-kept b'"' b'"' value refl refl in
    ap (read_pair body) found
    ∙ ap (λ k. checked_pair (ltb 0 (length key)) k (trim (drop (length key + 1) body))) key_read
    ∙ ap (checked_pair (ltb 0 (length key)) key) value_read
    ∙ checked_pair-key key (in_quotes value) h

strip_export-spell_line :
    (key value : Text) → Lacks 32 key → strip_export (spell_line key value) ≡ spell_line key value
unfolding strip_export
strip_export-spell_line key value no_blank =
    rw
      (
        starts_with-Lacks 32 b'=' (codes "export ") key (in_quotes value) refl
            (refl, (refl, (refl, (refl, (refl, (refl, (refl, tt))))))) no_blank,
        strip_export,
      )
      refl

parse_trimmed-spell_line :
    (key value : Text)
    → is_key key ≡ true
    → parse_trimmed (spell_line key value) ≡ some (key, in_quotes value)
unfolding parse_trimmed is_key are_key_chars
parse_trimmed-spell_line [] value h = cc
parse_trimmed-spell_line (c ∷ key) value h =
    let (spaces, no_equals, no_blank, no_newline) = plain_chars (c ∷ key) (key_chars (c ∷ key) h) in
    let (space, equals, blank, newline, hash) = plain_char c (ground arith) in
    rw (hash, strip_export-spell_line (c ∷ key) value no_blank)
      (parse_body-spell_line (c ∷ key) value h)

trim-line :
    (c : ℕ) (key value : Text)
    → is_space c ≡ false
    → trim (spell_line (c ∷ key) value) ≡ spell_line (c ∷ key) value
trim-line c key value space =
    let e = append_assoc (c ∷ key) (b'=' ∷ b'"' ∷ value) (b'"' ∷ []) in
    ap trim (sym e) ∙ trim-kept c b'"' (key ++ (b'=' ∷ b'"' ∷ value)) space refl ∙ e

parse_line-spell_line :
    (key value : Text)
    → is_key key ≡ true
    → parse_line (spell_line key value) ≡ some (key, in_quotes value)
unfolding parse_line is_key are_key_chars
parse_line-spell_line [] value h = cc
parse_line-spell_line (c ∷ key) value h =
    let (space, equals, blank, newline, hash) = plain_char c (ground arith) in
    ap parse_trimmed (trim-line c key value space) ∙ parse_trimmed-spell_line (c ∷ key) value h

spell_line-Lacks :
    (key value : Text) → is_key key ≡ true → Lacks 10 value → Lacks 10 (spell_line key value)
spell_line-Lacks key value h v =
    let (spaces, no_equals, no_blank, no_newline) = plain_chars key (key_chars key h) in
    All-append _ key (b'=' ∷ in_quotes value) no_newline
      (refl, (refl, All-append _ value (b'"' ∷ []) v (refl, tt)))

lines_of : List (Text × Text) → List Text
lines_of [] = [] ∷ []
lines_of ((key, value) ∷ entries) = spell_line key value ∷ lines_of entries

split-spell_file :
    (entries : List (Text × Text))
    → IsPlain entries
    → split 10 (spell_file entries) ≡ lines_of entries
unfolding split split_on spell_file lines_of
split-spell_file [] h = refl
split-spell_file ((key, value) ∷ entries) ((k, newline, backslash), h) =
    rw
      (split_on-append 10 (spell_line key value) (spell_file entries)
        (spell_line-Lacks key value k newline))
      (ap (◌∷◌ (spell_line key value)) (split-spell_file entries h))

-- The value that a key has, else one that comes after it.
abbrev pub or_later : Option Text → Option Text → Option Text
or_later none later = later
or_later (some v) later = some v

get-add_first :
    (k key value : Text) (out : JsMap Text Text)
    → Lacks b'\\' value
    → JsMap.get k (add_first (some (key, in_quotes value)) out)
      ≡ or_later (JsMap.get k out) (if key == k then some value else none)
unfolding add_first JsMap.has
get-add_first k key value out h =
    ground (arith, read_value-in_quotes value h, JsMap.get-set key k value out, text_beq_iff key k)

get-parse_lines :
    (k : Text) (entries : List (Text × Text)) (out : JsMap Text Text)
    → IsPlain entries
    → JsMap.get k (parse_lines (lines_of entries) out)
      ≡ or_later (JsMap.get k out) (JsMap.get k entries)
unfolding parse_lines lines_of JsMap.get parse_line trim parse_trimmed add_first
get-parse_lines k [] out h = ground arith
get-parse_lines k ((key, value) ∷ entries) out ((is_key, newline, backslash), h) =
    let read = parse_line-spell_line key value is_key in
    let rest =
      get-parse_lines k entries (add_first (some (key, in_quotes value)) out) h
      ∙ ap (λ o. or_later o (JsMap.get k entries)) (get-add_first k key value out backslash) in
    ap (λ l. JsMap.get k (parse_lines (lines_of entries) (add_first l out))) read
    ∙ rest
    ∙ ground arith

-- A document of lines `KEY="value"`, with identifiers for keys and values of one line without a
-- backslash, is read back: every key gets the value of its first line, and no other key is read.
pub parse_env_file-spell_file :
    (entries : List (Text × Text)) (k : Text)
    → IsPlain entries
    → JsMap.get k (parse_env_file (spell_file entries)) ≡ JsMap.get k entries
unfolding parse_env_file JsMap.get
parse_env_file-spell_file entries k h =
    ap (λ lines. JsMap.get k (parse_lines lines [])) (split-spell_file entries h)
    ∙ get-parse_lines k entries [] h
