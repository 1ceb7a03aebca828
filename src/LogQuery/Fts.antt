-- ===== src/LogQuery/Fts.antt =====
-- The MATCH expression for a text of the user. Whether a term has a letter or a digit of Unicode is a
-- parameter.
use mathlib.Core.List.{append_assoc, append-nil}
use tube.Common.{
  ℕ, Bool, true, false, ◌≡◌, refl, ap, sym, ◌∙◌, Option, none, some, List, [], ◌∷◌, ◌++◌, ◌-◌, ◌==◌,
  text_eq, arith, map, filter, take, length, eqb, if◌then◌else◌, eqb_iff,
}
use tube.Common.Text.{Text, codes, is_space, join}

-- `input.split(/\s+/)`, where a run of white space gives empty pieces, which are skipped as the code
-- skips those at the ends.
split_from : Text → Text × List Text
split_from [] = ([], [])
split_from (c ∷ s) =
    let (first, rest) = split_from s in if is_space c then ([], first ∷ rest) else (c ∷ first, rest)

-- `term.endsWith("*")` and the term without its last star.
strip_star : Text → Text × Bool
strip_star [] = ([], false)
strip_star (c ∷ []) = if eqb c b'*' then ([], true) else (c ∷ [], false)
strip_star (c ∷ d ∷ s) = let (t, prefix) = strip_star (d ∷ s) in (c ∷ t, prefix)

-- `term.replace(/"/g, '""')`
double_quotes : Text → Text
double_quotes [] = []
double_quotes (c ∷ s) = let rest = double_quotes s in if eqb c 34 then 34 ∷ 34 ∷ rest else c ∷ rest

abbrev star : Bool → Text
star true = b'*' ∷ []
star false = []

unfoldable pub quote_term : Text × Bool → Text
unfolding double_quotes
quote_term (t, prefix) = 34 ∷ (double_quotes t ++ 34 ∷ star prefix)

module _ (has_word : Text → Bool) where
  abbrev keep_if : Bool → Text × Bool → List (Text × Bool) → List (Text × Bool)
  keep_if true term terms = term ∷ terms
  keep_if false term terms = terms

  pub terms_of : List Text → List (Text × Bool)
  unfolding strip_star
  terms_of [] = []
  terms_of ([] ∷ pieces) = terms_of pieces
  terms_of ((c ∷ s) ∷ pieces) =
      let rest = terms_of pieces in
      keep_if (has_word (strip_star (c ∷ s)).0) (strip_star (c ∷ s)) rest

  abbrev match_terms : List (Text × Bool) → Option Text
  match_terms [] = none
  match_terms (t ∷ ts) = some (join (codes " ") (map quote_term (t ∷ ts)))

  unfoldable pub input_terms : Text → List (Text × Bool)
  unfolding split_from terms_of
  input_terms input = let (first, rest) = split_from input in terms_of (first ∷ rest)

  unfoldable pub build_fts_match : Text → Option Text
  unfolding input_terms quote_term join
  build_fts_match input = match_terms (input_terms input)

-- How FTS5 reads an expression of quoted strings: a quote in a string is doubled, a star after one
-- makes it a prefix, and a blank stands between two.
data Reading : Type 0 where
  outside : Reading
  inside quoted starred : Text → Reading

abbrev put {ℓ} : {A : Type ℓ} → A → Option (List A) → Option (List A)
put a none = none
put a (some rest) = some (a ∷ rest)

read_from : Reading → Text → Option (List (Text × Bool))
read_from outside [] = none
read_from outside (c ∷ s) = let rest = read_from (inside []) s in if eqb c 34 then rest else none
read_from (inside t) [] = none
read_from (inside t) (c ∷ s) =
    let closing = read_from (quoted t) s in
    let rest = read_from (inside (t ++ c ∷ [])) s in if eqb c 34 then closing else rest
read_from (quoted t) [] = some ((t, false) ∷ [])
read_from (quoted t) (c ∷ s) =
    let doubled = read_from (inside (t ++ 34 ∷ [])) s in
    let prefix = read_from (starred t) s in
    let next = read_from outside s in
    if eqb c 34
    then doubled
    else if eqb c b'*'
    then prefix
    else if eqb c b' '
    then put (t, false) next
    else none
read_from (starred t) [] = some ((t, true) ∷ [])
read_from (starred t) (c ∷ s) =
    let next = read_from outside s in if eqb c b' ' then put (t, true) next else none

pub read_match : Text → Option (List (Text × Bool))
unfolding read_from
read_match s = read_from outside s

read-quoted_char :
    (c : ℕ) (a s rest : Text) (b : Bool)
    → eqb c 34 ≡ b
    → ((a' : Text)
        → read_from (inside a') (double_quotes s ++ (34 ∷ rest))
          ≡ read_from (quoted (a' ++ s)) rest)
    → read_from
        (inside a)
        ((if b then 34 ∷ 34 ∷ double_quotes s else c ∷ double_quotes s) ++ (34 ∷ rest))
      ≡ read_from (quoted ((a ++ c ∷ []) ++ s)) rest
unfolding read_from
read-quoted_char c a s rest true e ih =
    ih (a ++ 34 ∷ [])
    ∙ ap (λ d. read_from (quoted ((a ++ d ∷ []) ++ s)) rest) (sym ((eqb_iff c 34).0 e))
read-quoted_char c a s rest false e ih =
    ap
      (λ b.
        if b
        then read_from (quoted a) (double_quotes s ++ (34 ∷ rest))
        else read_from (inside (a ++ c ∷ [])) (double_quotes s ++ (34 ∷ rest)))
      e
    ∙ ih (a ++ c ∷ [])

read-double_quotes :
    (a t rest : Text)
    → read_from (inside a) (double_quotes t ++ (34 ∷ rest)) ≡ read_from (quoted (a ++ t)) rest
unfolding read_from double_quotes
read-double_quotes a [] rest = ap (λ t. read_from (quoted t) rest) (sym (append-nil a))
read-double_quotes a (c ∷ s) rest =
    read-quoted_char c a s rest (eqb c 34) refl (λ a'. read-double_quotes a' s rest)
    ∙ ap (λ t. read_from (quoted t) rest) (append_assoc a (c ∷ []) s)

read-quote_term :
    (t : Text) (p : Bool) (rest : Text)
    → read_from outside (quote_term (t, p) ++ rest) ≡ read_from (quoted t) (star p ++ rest)
unfolding read_from quote_term
read-quote_term t p rest =
    ap (λ s. read_from (inside []) s) (append_assoc (double_quotes t) (34 ∷ star p) rest)
    ∙ read-double_quotes [] t (star p ++ rest)

read-last : (t : Text) (p : Bool) → read_from (quoted t) (star p ++ []) ≡ some ((t, p) ∷ [])
unfolding read_from
read-last t true = refl
read-last t false = refl

read-next :
    (t : Text) (p : Bool) (more : Text)
    → read_from (quoted t) (star p ++ (b' ' ∷ more)) ≡ put (t, p) (read_from outside more)
unfolding read_from
read-next t true more = refl
read-next t false more = refl

read_match-join :
    (x : Text × Bool) (xs : List (Text × Bool))
    → read_match (join (codes " ") (map quote_term (x ∷ xs))) ≡ some (x ∷ xs)
unfolding read_match join
read_match-join (t, p) [] =
    ap (read_from outside) (sym (append-nil (quote_term (t, p))))
    ∙ read-quote_term t p []
    ∙ read-last t p
read_match-join (t, p) (y ∷ ys) =
    ap (read_from outside) (append_assoc (quote_term (t, p)) (codes " ") _)
    ∙ read-quote_term t p (b' ' ∷ join (codes " ") (map quote_term (y ∷ ys)))
    ∙ read-next t p (join (codes " ") (map quote_term (y ∷ ys)))
    ∙ ap (put (t, p)) (read_match-join y ys)

abbrev pub terms_or_none : List (Text × Bool) → Option (List (Text × Bool))
terms_or_none [] = none
terms_or_none (t ∷ ts) = some (t ∷ ts)

abbrev pub read_some : Option Text → Option (List (Text × Bool))
read_some none = none
read_some (some s) = read_match s

read_match-match_terms :
    (has_word : Text → Bool) (ts : List (Text × Bool))
    → read_some (match_terms has_word ts) ≡ terms_or_none ts
read_match-match_terms has_word [] = refl
read_match-match_terms has_word (t ∷ ts) = read_match-join t ts

-- The words of an input, with the letters of the word that has begun.
words_from : Text → Text → List Text
words_from word [] = if word == [] then [] else word ∷ []
words_from word (c ∷ s) =
    let next = words_from [] s in
    let rest = words_from (word ++ c ∷ []) s in
    if is_space c then (if word == [] then next else word ∷ next) else rest

abbrev ends_in_star : Text → Bool
ends_in_star [] = false
ends_in_star (c ∷ []) = eqb c b'*'
ends_in_star (c ∷ d ∷ s) = ends_in_star (d ∷ s)

-- A word without its last star, and whether it has one.
abbrev term_of : Text → Text × Bool
term_of word = if ends_in_star word then (take (length word - 1) word, true) else (word, false)

-- The terms of an input that have a letter or a digit.
pub usable_terms : (Text → Bool) → Text → List (Text × Bool)
unfolding words_from
usable_terms has_word input = filter (λ t. has_word t.0) (map term_of (words_from [] input))

strip_star-term_of : (s : Text) → strip_star s ≡ term_of s
unfolding strip_star
strip_star-term_of [] = refl
strip_star-term_of (c ∷ []) = ground arith
strip_star-term_of (c ∷ d ∷ s) = ground (arith, strip_star-term_of (d ∷ s))

words_of : List Text → List Text
words_of [] = []
words_of (w ∷ ws) = let rest = words_of ws in if w == [] then rest else w ∷ rest

words_from-split_from :
    (word s : Text) → words_from word s ≡ words_of ((word ++ (split_from s).0) ∷ (split_from s).1)
unfolding words_from words_of split_from
words_from-split_from word [] = ground (arith, append-nil word)
words_from-split_from word (c ∷ s) = ground (
  arith,
  append-nil word,
  append_assoc word (c ∷ []) (split_from s).0,
  words_from-split_from [] s,
  words_from-split_from (word ++ c ∷ []) s,
)

terms_of-words_of :
    (has_word : Text → Bool) (ws : List Text)
    → terms_of has_word ws ≡ filter (λ t. has_word t.0) (map term_of (words_of ws))
unfolding terms_of words_of
terms_of-words_of has_word [] = refl
terms_of-words_of has_word ([] ∷ ws) = terms_of-words_of has_word ws
terms_of-words_of has_word ((c ∷ s) ∷ ws) =
    ground (arith, terms_of-words_of has_word ws, strip_star-term_of (c ∷ s))

input_terms-usable_terms :
    (has_word : Text → Bool) (input : Text)
    → input_terms has_word input ≡ usable_terms has_word input
unfolding input_terms usable_terms
input_terms-usable_terms has_word input =
    terms_of-words_of has_word ((split_from input).0 ∷ (split_from input).1)
    ∙ ap (λ ws. filter (λ t. has_word t.0) (map term_of ws)) (sym (words_from-split_from [] input))

-- Whatever the user types, FTS5 reads the expression as exactly the words of the input, each without a
-- star at its end, that have a letter or a digit then, each as a string that ends where the word does,
-- and as a prefix exactly if it had the star; without such a word there is no expression.
pub read_match-build_fts_match :
    (has_word : Text → Bool) (input : Text)
    → read_some (build_fts_match has_word input) ≡ terms_or_none (usable_terms has_word input)
unfolding build_fts_match
read_match-build_fts_match has_word input =
    read_match-match_terms has_word (input_terms has_word input)
    ∙ ap terms_or_none (input_terms-usable_terms has_word input)
