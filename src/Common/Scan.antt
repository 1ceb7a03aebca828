-- ===== src/Common/Scan.antt =====
-- What the scans of a text find: the pieces of a split, the index of a character, the ends of a trim.
use mathlib.Core.List.{reverse-append}
use tube.Common.Tests.{ℕ, ◌≡◌, refl, Bool, true, false, some, [], ◌∷◌, ◌++◌, arith, eqb, eqb_iff}
use tube.Common.Lists.{length, All, any}
use tube.Common.Text.{
  Text, drop_while, keep_end, drop_while_end, trim, is_space, starts_with, ends_with, index_of,
  split_on,
}

-- The character does not occur.
abbrev pub Lacks : ℕ → Text → Type 0
Lacks c s = All (λ d. eqb c d ≡ false) s

pub split_on-append :
    (c : ℕ) (s t : Text)
    → Lacks c s
    → split_on c (s ++ c ∷ t) ≡ (s, (split_on c t).0 ∷ (split_on c t).1)
unfolding split_on
split_on-append c [] t h = ground (arith, eqb_iff c c)
split_on-append c (d ∷ s) t (ne, h) = rw (split_on-append c s t h, split_on, ne) refl

pub index_of-append : (c : ℕ) (s t : Text) → Lacks c s → index_of c (s ++ c ∷ t) ≡ some (length s)
unfolding index_of
index_of-append c [] t h = ground (arith, eqb_iff c c)
index_of-append c (d ∷ s) t (ne, h) = rw (ne, index_of-append c s t h) refl

pub drop_while_end-kept :
    (p : ℕ → Bool) (s : Text) (c : ℕ) → p c ≡ false → drop_while_end p (s ++ c ∷ []) ≡ s ++ c ∷ []
unfolding drop_while_end keep_end
drop_while_end-kept p [] c h = rw h refl
drop_while_end-kept p (d ∷ []) c h = rw (drop_while_end-kept p [] c h) refl
drop_while_end-kept p (d ∷ e ∷ s) c h = rw (drop_while_end-kept p (e ∷ s) c h) refl

pub drop_while_end-all :
    (p : ℕ → Bool) (s : Text) → All (λ c. p c ≡ false) s → drop_while_end p s ≡ s
unfolding drop_while_end keep_end
drop_while_end-all p [] h = refl
drop_while_end-all p (d ∷ []) h = rw h.0 refl
drop_while_end-all p (d ∷ e ∷ s) h = rw (drop_while_end-all p (e ∷ s) h.1) refl

-- A text whose ends are no space.
pub trim-kept :
    (c d : ℕ) (s : Text)
    → is_space c ≡ false
    → is_space d ≡ false
    → trim (c ∷ s ++ d ∷ []) ≡ c ∷ s ++ d ∷ []
unfolding trim drop_while
trim-kept c d s hc hd = rw hc (drop_while_end-kept is_space (c ∷ s) d hd)

pub trim-all : (s : Text) → All (λ c. is_space c ≡ false) s → trim s ≡ s
unfolding trim drop_while
trim-all [] h = drop_while_end-all is_space [] h
trim-all (c ∷ s) h = rw h.0 (drop_while_end-all is_space (c ∷ s) h)

pub ends_with-last : (c : ℕ) (s : Text) → ends_with (c ∷ []) (s ++ c ∷ []) ≡ true
unfolding ends_with starts_with
ends_with-last c s = rw (reverse-append s (c ∷ [])) (ground (arith, eqb_iff c c))

-- A prefix with a character `c` and without `d` does not begin a text that has `d` before any `c`.
pub starts_with-Lacks :
    (c d : ℕ) (p s t : Text)
    → any (eqb c) p ≡ true
    → Lacks d p
    → Lacks c s
    → starts_with p (s ++ d ∷ t) ≡ false
unfolding starts_with
starts_with-Lacks c d [] s t has l k = cc
starts_with-Lacks c d (x ∷ p) [] t has l k = ground (arith, eqb_iff x d, eqb_iff d x)
starts_with-Lacks c d (x ∷ p) (y ∷ s) t has l k =
    ground (arith, eqb_iff c x, eqb_iff c y, eqb_iff x y, starts_with-Lacks c d p s t)

pub split_on-Lacks : (c : ℕ) (s : Text) → Lacks c s → split_on c s ≡ (s, [])
unfolding split_on
split_on-Lacks c [] h = refl
split_on-Lacks c (d ∷ s) (ne, h) = rw (split_on-Lacks c s h, split_on, ne) refl
