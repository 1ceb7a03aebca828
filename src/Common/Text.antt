-- ===== src/Common/Text.antt =====
-- Text as the list of its UTF-16 code units, with the string methods that the programs call.
use Prim.Native.Char.{code}
use Prim.Native.String.{String}
use mathlib.Core.List.{reverse-append, reverse}
use mathlib.Core.Option
use tube.Common.Tests.{
  ap, ◌∙◌, ltb, ℕ, suc, ◌+◌, ◌≡◌, refl, Bool, true, false, ◌&&◌, ◌||◌, Option, none, some, List, [],
  ◌∷◌, ◌++◌, map, arith, eqb, leb, if◌then◌else◌,
}
use tube.Common.Lists.{length, drop}

abbrev pub Text : Type 0
Text = List ℕ

-- A literal: its code points, which are its code units in ASCII.
abbrev pub codes : String → Text
codes String.[] = []
codes (String.◌∷◌ c s) = code c ∷ codes s

-- The characters that `trim` removes.
abbrev pub is_space : ℕ → Bool
is_space c =
    (leb 9 c && leb c 13)
    || eqb c 32
    || eqb c 0xA0
    || eqb c 0x1680
    || (leb 0x2000 c && leb c 0x200A)
    || eqb c 0x2028
    || eqb c 0x2029
    || eqb c 0x202F
    || eqb c 0x205F
    || eqb c 0x3000
    || eqb c 0xFEFF

-- `s` without its leading characters that pass the test.
unfoldable pub drop_while : (ℕ → Bool) → Text → Text
drop_while p [] = []
drop_while p (c ∷ s) = let rest = drop_while p s in if p c then rest else c ∷ s

unfoldable pub keep_end : (ℕ → Bool) → ℕ → Text → Text
keep_end p c [] = if p c then [] else c ∷ []
keep_end p c (d ∷ t) = c ∷ d ∷ t

-- `s` without its trailing characters that pass the test.
unfoldable pub drop_while_end : (ℕ → Bool) → Text → Text
unfolding keep_end
drop_while_end p [] = []
drop_while_end p (c ∷ s) = keep_end p c (drop_while_end p s)

unfoldable pub trim : Text → Text
unfolding drop_while drop_while_end
trim s = drop_while_end is_space (drop_while is_space s)

unfoldable pub starts_with : Text → Text → Bool
starts_with [] s = true
starts_with (c ∷ p) [] = false
starts_with (c ∷ p) (d ∷ s) = eqb c d && starts_with p s

unfoldable pub ends_with : Text → Text → Bool
unfolding starts_with
ends_with p s = starts_with (reverse p) (reverse s)

-- `s.indexOf(c)`, `none` for -1.
unfoldable pub index_of : ℕ → Text → Option ℕ
index_of c [] = none
index_of c (d ∷ s) = if eqb c d then some 0 else Option.map suc (index_of c s)

-- `s.split(c)`: the first piece, and the pieces after it.
unfoldable pub split_on : ℕ → Text → Text × List Text
split_on c [] = ([], [])
split_on c (d ∷ s) =
    let (first, rest) = split_on c s in if eqb c d then ([], first ∷ rest) else (d ∷ first, rest)

-- `s.split(c)`
unfoldable pub split : ℕ → Text → List Text
unfolding split_on
split c s = let (first, rest) = split_on c s in first ∷ rest

-- `parts.join(sep)`
unfoldable pub join : Text → List Text → Text
join sep [] = []
join sep (s ∷ []) = s
join sep (s ∷ t ∷ parts) = s ++ sep ++ join sep (t ∷ parts)

-- `toLowerCase`, of ASCII text.
abbrev pub lower_code : ℕ → ℕ
lower_code c = if leb 65 c && leb c 90 then c + 32 else c

unfoldable pub to_lower : Text → Text
to_lower s = map lower_code s

pub starts_with-append : (p s : Text) → starts_with p (p ++ s) ≡ true
unfolding starts_with
starts_with-append [] s = refl
starts_with-append (c ∷ p) s = ground (arith, starts_with-append p s)

pub starts_with-eq : (p s : Text) → starts_with p s ≡ true → s ≡ p ++ drop (length p) s
unfolding starts_with
starts_with-eq [] s h = refl
starts_with-eq (c ∷ p) [] h = cc
starts_with-eq (c ∷ p) (d ∷ s) h = ground (arith, starts_with-eq p s)

pub starts_with-snoc :
    (p s : Text) (c : ℕ)
    → leb (length p) (length s) ≡ true
    → starts_with p (s ++ c ∷ []) ≡ starts_with p s
unfolding starts_with
starts_with-snoc [] s c e = refl
starts_with-snoc (d ∷ p) [] c e = ground (arith, e)
starts_with-snoc (d ∷ p) (k ∷ s) c e = ground (arith, e, starts_with-snoc p s c)

length_snoc : (s : Text) (c : ℕ) → length (s ++ c ∷ []) ≡ suc (length s)
length_snoc [] c = refl
length_snoc (d ∷ s) c = ap suc (length_snoc s c)

pub length_reversed : (s : Text) → length (reverse s) ≡ length s
length_reversed [] = refl
length_reversed (c ∷ s) =
    ap length (reverse-append (c ∷ []) s) ∙ length_snoc (reverse s) c ∙ ap suc (length_reversed s)

-- A text that does not stand after the other by code units.
unfoldable pub text_leb : Text → Text → Bool
text_leb [] t = true
text_leb (c ∷ s) [] = false
text_leb (c ∷ s) (d ∷ t) = let rest = text_leb s t in if eqb c d then rest else ltb c d

unfoldable pub insert_sorted : Text → List Text → List Text
unfolding text_leb
insert_sorted s [] = s ∷ []
insert_sorted s (t ∷ ts) =
    let rest = insert_sorted s ts in if text_leb s t then s ∷ t ∷ ts else t ∷ rest

-- `sort()` of texts
unfoldable pub sort : List Text → List Text
unfolding insert_sorted
sort [] = []
sort (s ∷ ss) = insert_sorted s (sort ss)
