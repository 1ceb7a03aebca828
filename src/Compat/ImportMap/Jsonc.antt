-- ===== src/Compat/ImportMap/Jsonc.antt =====
-- `stripJsonc`: the loop over the characters as a machine, and the regular expression after it.
use tube.Common.{
  ℕ, ◌≡◌, refl, Bool, true, false, not, ◌&&◌, ◌||◌, Option, none, some, List, [], ◌∷◌, ◌++◌, eqb,
  eqb_iff, if◌then◌else◌, arith,
}
use tube.Common.Text.{Text, is_space}

-- Where the loop stands: `slash` after a slash outside of strings, `block_star` after a star in a
-- block comment.
pub data Mode : Type 0 where
  outside slash line_comment block_comment block_star : Mode
  in_string escaped : ℕ → Mode

abbrev is_quote : ℕ → Bool
is_quote c = eqb c b'"' || eqb c 39

strip_from : Mode → Text → Text
strip_from outside [] = []
strip_from slash [] = b'/' ∷ []
strip_from line_comment [] = b'\n' ∷ []
strip_from block_comment [] = []
strip_from block_star [] = []
strip_from (in_string q) [] = []
strip_from (escaped q) [] = []
strip_from outside (c ∷ s) =
    let quoted = strip_from (in_string c) s in
    let after_slash = strip_from slash s in
    let rest = strip_from outside s in
    if is_quote c then c ∷ quoted else if eqb c b'/' then after_slash else c ∷ rest
strip_from slash (c ∷ s) =
    let in_line = strip_from line_comment s in
    let in_block = strip_from block_comment s in
    let quoted = strip_from (in_string c) s in
    let rest = strip_from outside s in
    if eqb c b'/'
    then in_line
    else if eqb c b'*'
    then in_block
    else b'/' ∷ c ∷ (if is_quote c then quoted else rest)
strip_from line_comment (c ∷ s) =
    let after = strip_from outside s in
    let rest = strip_from line_comment s in if eqb c b'\n' then b'\n' ∷ after else rest
strip_from block_comment (c ∷ s) =
    let star = strip_from block_star s in
    let rest = strip_from block_comment s in if eqb c b'*' then star else rest
strip_from block_star (c ∷ s) =
    let after = strip_from outside s in
    let star = strip_from block_star s in
    let rest = strip_from block_comment s in
    if eqb c b'/' then after else if eqb c b'*' then star else rest
strip_from (escaped q) (c ∷ s) = c ∷ strip_from (in_string q) s
strip_from (in_string q) (c ∷ s) =
    let escape = strip_from (escaped q) s in
    let after = strip_from outside s in
    let rest = strip_from (in_string q) s in
    c ∷ (if eqb c 92 then escape else if eqb c q then after else rest)

abbrev is_closing : ℕ → Bool
is_closing c = eqb c b'}' || eqb c b']'

-- `out.replace(/,\s*([}\]])/g, "$1")`; after a comma with the white space that has followed it.
drop_commas : Option Text → Text → Text
drop_commas none [] = []
drop_commas (some space) [] = b',' ∷ space
drop_commas none (c ∷ s) =
    let comma = drop_commas (some []) s in
    let rest = drop_commas none s in if eqb c b',' then comma else c ∷ rest
drop_commas (some space) (c ∷ s) =
    let more = drop_commas (some (space ++ c ∷ [])) s in
    let comma = drop_commas (some []) s in
    let rest = drop_commas none s in
    if is_space c
    then more
    else if is_closing c
    then c ∷ rest
    else if eqb c b','
    then b',' ∷ (space ++ comma)
    else b',' ∷ (space ++ c ∷ rest)

pub strip_comments : Text → Text
unfolding strip_from
strip_comments text = strip_from outside text

unfoldable pub strip_jsonc : Text → Text
unfolding strip_comments drop_commas
strip_jsonc text = drop_commas none (strip_comments text)

-- What a string holds between its quotes.
pub data Item : Type 0 where
  char escape : ℕ → Item

-- A text in pieces: characters outside of strings and comments, strings with their quote, and
-- comments without their marks.
pub data Piece : Type 0 where
  plain : ℕ → Piece
  string : ℕ → List Item → Piece
  line block : Text → Piece

abbrev spell_items : List Item → Text
spell_items [] = []
spell_items (char c ∷ is) = c ∷ spell_items is
spell_items (escape c ∷ is) = 92 ∷ c ∷ spell_items is

abbrev pub spell : List Piece → Text
spell [] = []
spell (plain c ∷ ps) = c ∷ spell ps
spell (string q is ∷ ps) = q ∷ (spell_items is ++ (q ∷ spell ps))
spell (line t ∷ ps) = b'/' ∷ b'/' ∷ (t ++ (b'\n' ∷ spell ps))
spell (block t ∷ ps) = b'/' ∷ b'*' ∷ (t ++ (b'*' ∷ b'/' ∷ spell ps))

-- The pieces without the comments, where a line still ends.
abbrev pub without_comments : List Piece → List Piece
without_comments [] = []
without_comments (plain c ∷ ps) = plain c ∷ without_comments ps
without_comments (string q is ∷ ps) = string q is ∷ without_comments ps
without_comments (line t ∷ ps) = plain b'\n' ∷ without_comments ps
without_comments (block t ∷ ps) = without_comments ps

abbrev are_items : ℕ → List Item → Bool
are_items q [] = true
are_items q (char c ∷ is) = not (eqb c 92) && not (eqb c q) && are_items q is
are_items q (escape c ∷ is) = are_items q is

abbrev lacks : ℕ → Text → Bool
lacks c [] = true
lacks c (d ∷ s) = not (eqb d c) && lacks c s

-- No star with a slash after it.
abbrev lacks_end : Text → Bool
lacks_end [] = true
lacks_end (c ∷ []) = true
lacks_end (c ∷ d ∷ s) = not (eqb c b'*' && eqb d b'/') && lacks_end (d ∷ s)

abbrev begins_slash : Text → Bool
begins_slash [] = false
begins_slash (c ∷ s) = eqb c b'/'

abbrev pub are_pieces : List Piece → Bool
are_pieces [] = true
are_pieces (plain c ∷ ps) = not (is_quote c) && not (eqb c b'/') && are_pieces ps
are_pieces (string q is ∷ ps) = is_quote q && not (eqb q 92) && are_items q is && are_pieces ps
are_pieces (line t ∷ ps) = lacks b'\n' t && are_pieces ps
are_pieces (block t ∷ ps) = lacks_end t && are_pieces ps

strip-items :
    (q : ℕ) (is : List Item) (rest : Text)
    → eqb q 92 ≡ false
    → are_items q is ≡ true
    → strip_from (in_string q) (spell_items is ++ (q ∷ rest))
      ≡ spell_items is ++ (q ∷ strip_from outside rest)
unfolding strip_from
strip-items q [] rest h e = ground (arith, h, eqb_iff q q)
strip-items q (char c ∷ is) rest h e = ground (arith, e, h, strip-items q is rest)
strip-items q (escape c ∷ is) rest h e = ground (arith, e, h, strip-items q is rest)

strip-line :
    (t rest : Text)
    → lacks b'\n' t ≡ true
    → strip_from line_comment (t ++ (b'\n' ∷ rest)) ≡ b'\n' ∷ strip_from outside rest
unfolding strip_from
strip-line [] rest e = refl
strip-line (c ∷ t) rest e = ground (arith, e, strip-line t rest)

strip-block :
    (t rest : Text)
    → lacks_end t ≡ true
    → (strip_from block_comment (t ++ (b'*' ∷ b'/' ∷ rest)) ≡ strip_from outside rest)
      × (begins_slash t ≡ false
          → strip_from block_star (t ++ (b'*' ∷ b'/' ∷ rest)) ≡ strip_from outside rest)
unfolding strip_from
strip-block [] rest e = (refl, λ f. refl)
strip-block (c ∷ []) rest e = (ground arith, λ f. ground (arith, f))
strip-block (c ∷ d ∷ t) rest e =
    let later = strip-block (d ∷ t) rest (ground (arith, e)) in
    (ground (arith, e, later.0, later.1), λ f. ground (arith, e, f, later.0, later.1))

strip-spell :
    (ps : List Piece)
    → are_pieces ps ≡ true
    → strip_from outside (spell ps) ≡ spell (without_comments ps)
unfolding strip_from
strip-spell [] e = refl
strip-spell (plain c ∷ ps) e = ground (arith, e, strip-spell ps)
strip-spell (string q is ∷ ps) e = ground (arith, e, strip-spell ps, strip-items q is (spell ps))
strip-spell (line t ∷ ps) e = ground (arith, e, strip-spell ps, strip-line t (spell ps))
strip-spell (block t ∷ ps) e =
    ground (arith, e, strip-spell ps, (strip-block t (spell ps) (ground (arith, e))).0)

-- In a text of characters, strings and comments, the loop takes out the comments, where the end of a
-- line stays, and leaves the rest as it is, also what looks like a comment in a string.
pub strip_comments-spell :
    (ps : List Piece)
    → are_pieces ps ≡ true
    → strip_comments (spell ps) ≡ spell (without_comments ps)
unfolding strip_comments
strip_comments-spell ps e = strip-spell ps e
