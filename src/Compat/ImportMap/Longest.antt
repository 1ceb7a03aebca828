-- ===== src/Compat/ImportMap/Longest.antt =====
-- Which key of a map is used: the specifier itself, else the longest prefix.
use mathlib.Core.Path.{subst}
use mathlib.Core.List.{reverse, reverse-append}
use tube.Common.{
  ◌≤◌, ◌≡◌, ◌⊎◌, inl, inr, refl, ap, sym, ◌∙◌, Bool, true, false, Bool-cases, Option-cases, Option,
  none, some, List, [], ◌∷◌, ◌++◌, ◌&&◌, ℕ, ltb, leb, eqb, eqb_iff, take, any, All, arith, length,
  drop, ◌==◌, text_eq, text_beq_iff, get_or, is_some,
}
use tube.Common.JsMap
use tube.Common.JsMap.{JsMap}
use tube.Common.Text.{Text, starts_with, ends_with, starts_with-snoc, length_reversed}
use tube.Compat.ImportMap.{
  is_prefix_key, longer_key, best_key, resolve_against, apply_prefix, apply_map,
}

abbrev pub is_in : Text → List Text → Bool
is_in k keys = any (λ j. j == k) keys

-- No longer than `k`, where there is one.
abbrev AtMost : Option Text → Text → Type 0
AtMost none k = Unit
AtMost (some b) k = length b ≤ length k

-- What the loop over the keys finds, from a key that it has.
data Chosen (s : Text) (best : Option Text) (keys : List Text) : Option Text → Type 0 where
  no_key : best ≡ none → All (λ k. is_prefix_key s k ≡ false) keys → Chosen s best keys none
  longest :
      (k : Text)
      → (best ≡ some k) ⊎ ((is_in k keys ≡ true) × (is_prefix_key s k ≡ true))
      → AtMost best k
      → All (λ j. is_prefix_key s j ≡ true → length j ≤ length k) keys
      → Chosen s best keys (some k)

longer_key-kept :
    (best : Option Text) (key : Text)
    → (l : Text) × (longer_key best key ≡ some l)
      × ((l ≡ key) ⊎ (best ≡ some l))
      × AtMost best l
      × (length key ≤ length l)
unfolding longer_key
longer_key-kept none key = (key, refl, inl refl, tt, omega arith)
longer_key-kept (some b) key = elim (Bool-cases (ltb (length b) (length key))) [
  | inl longer ↦ (key, rw longer refl, inl refl, ground arith, omega arith)
  | inr not_longer ↦ (b, rw not_longer refl, inr refl, omega arith, ground arith)
]

skip_key :
    (s key : Text) (best : Option Text) (keys : List Text) (o : Option Text)
    → is_prefix_key s key ≡ false
    → Chosen s best keys o
    → Chosen s best (key ∷ keys) o
skip_key s key best keys _ h (no_key e rest) = no_key e (h, rest)
skip_key s key best keys _ h (longest k (inl e) le rest) = longest k (inl e) le (λ t. cc, rest)
skip_key s key best keys _ h (longest k (inr (inside, p)) le rest) =
    longest k (inr (ground (arith), p)) le (λ t. cc, rest)

some-injective : {a b : Text} → some a ≡ some b → a ≡ b
some-injective {a} e = ap (λ o. get_or o a) e

AtMost-trans :
    (best : Option Text) (l k : Text) → AtMost best l → length l ≤ length k → AtMost best k
AtMost-trans none l k h le = tt
AtMost-trans (some b) l k h le = omega arith

some_is_some : {a : Text} → some a ≡ none → ⊥
some_is_some e = cc

first_of :
    (s key l k : Text) (keys : List Text)
    → is_prefix_key s key ≡ true
    → l ≡ key
    → some l ≡ some k
    → (is_in k (key ∷ keys) ≡ true) × (is_prefix_key s k ≡ true)
first_of s key l k keys p e f =
    let same = sym e ∙ some-injective f in
    (ground (arith, (text_beq_iff key k).1 same), subst (λ x. is_prefix_key s x ≡ true) same p)

take_key :
    (s key l : Text) (best : Option Text) (keys : List Text) (o : Option Text)
    → is_prefix_key s key ≡ true
    → (l ≡ key) ⊎ (best ≡ some l)
    → AtMost best l
    → length key ≤ length l
    → Chosen s (some l) keys o
    → Chosen s best (key ∷ keys) o
take_key s key l best keys _ p from bl kl (no_key e rest) = absurd (some_is_some e)
take_key s key l best keys _ p (inl e) bl kl (longest k (inl f) le rest) =
    longest k (inr (first_of s key l k keys p e f)) (AtMost-trans best l k bl le)
      (λ t. omega arith, rest)
take_key s key l best keys _ p (inr e) bl kl (longest k (inl f) le rest) =
    longest k (inl (e ∙ f)) (AtMost-trans best l k bl le) (λ t. omega arith, rest)
take_key s key l best keys _ p from bl kl (longest k (inr (inside, q)) le rest) =
    longest k (inr (ground arith, q)) (AtMost-trans best l k bl le) (λ t. omega arith, rest)

best_key-Chosen :
    (s : Text) (best : Option Text) (keys : List Text) → Chosen s best keys (best_key s best keys)
unfolding best_key
best_key-Chosen s none [] = no_key refl tt
best_key-Chosen s (some b) [] = longest b (inl refl) (omega arith) tt
best_key-Chosen s best (key ∷ keys) = elim (Bool-cases (is_prefix_key s key)) [
  | inl p ↦
      let (l, e, from, bl, kl) = longer_key-kept best key in
      rw (p, best_key, e)
        (take_key s key l best keys _ p from bl kl (best_key-Chosen s (some l) keys))
  | inr p ↦ rw (p, best_key) (skip_key s key best keys _ p (best_key-Chosen s best keys))
]

keys-get :
    {V : Type 0} (k : Text) (m : JsMap Text V) → is_in k (JsMap.keys m) ≡ is_some (JsMap.get k m)
unfolding JsMap.get
keys-get k [] = refl
keys-get k ((j, v) ∷ m) = ground (arith, keys-get k m)

abbrev ends_in_slash : Text → Bool
ends_in_slash [] = false
ends_in_slash (c ∷ []) = eqb c b'/'
ends_in_slash (c ∷ d ∷ s) = ends_in_slash (d ∷ s)

-- A key that ends in a slash and is the front of the specifier.
abbrev pub stands_for : Text → Text → Bool
stands_for specifier key = ends_in_slash key && take (length key) specifier == key

starts_with-take : (p s : Text) → starts_with p s ≡ (take (length p) s == p)
unfolding starts_with
starts_with-take [] s = refl
starts_with-take (c ∷ p) [] = refl
starts_with-take (c ∷ p) (d ∷ s) = ground (arith, starts_with-take p s, eqb_iff c d, eqb_iff d c)

ends_with-slash : (key : Text) → ends_with (b'/' ∷ []) key ≡ ends_in_slash key
unfolding ends_with starts_with
ends_with-slash [] = refl
ends_with-slash (c ∷ []) = ground (arith, eqb_iff c b'/', eqb_iff b'/' c)
ends_with-slash (c ∷ d ∷ s) =
    ap (starts_with (b'/' ∷ [])) (reverse-append (c ∷ []) (d ∷ s))
    ∙ starts_with-snoc (b'/' ∷ []) (reverse (d ∷ s)) c
        (ap (λ n. leb 1 n) (length_reversed (d ∷ s)) ∙ ground arith)
    ∙ ends_with-slash (d ∷ s)

pub is_prefix_key-stands_for :
    (specifier key : Text) → is_prefix_key specifier key ≡ stands_for specifier key
unfolding is_prefix_key
is_prefix_key-stands_for specifier key =
    ground (arith, ends_with-slash key, starts_with-take key specifier)

others-stand :
    (specifier : Text) (n : ℕ) (keys : List Text)
    → All (λ j. is_prefix_key specifier j ≡ true → length j ≤ n) keys
    → All (λ j. stands_for specifier j ≡ true → length j ≤ n) keys
others-stand specifier n [] h = tt
others-stand specifier n (k ∷ keys) h =
    (λ e. h.0 (is_prefix_key-stands_for specifier k ∙ e), others-stand specifier n keys h.1)

none-stand :
    (specifier : Text) (keys : List Text)
    → All (λ j. is_prefix_key specifier j ≡ false) keys
    → All (λ j. stands_for specifier j ≡ false) keys
none-stand specifier [] h = tt
none-stand specifier (k ∷ keys) h =
    (sym (is_prefix_key-stands_for specifier k) ∙ h.0, none-stand specifier keys h.1)

module _ (resolve_url : Text → Text → Text) where
  -- The target of a specifier in a map. An exact key decides; else the longest key that ends in a
  -- slash and begins the specifier, with the rest of the specifier after its target; and where there
  -- is none of these, there is no target.
  pub data Target (specifier : Text) (map : JsMap Text Text) (base : Text)
      : Option Text → Type 0 where
    exact :
        (target : Text)
        → JsMap.get specifier map ≡ some target
        → Target specifier map base (some (resolve_against resolve_url target base))
    prefixed :
        (key target : Text)
        → JsMap.get specifier map ≡ none
        → JsMap.get key map ≡ some target
        → stands_for specifier key ≡ true
        → All (λ j. stands_for specifier j ≡ true → length j ≤ length key) (JsMap.keys map)
        → Target specifier map base
            (some (resolve_against resolve_url (target ++ drop (length key) specifier) base))
    unmapped :
        JsMap.get specifier map ≡ none
        → All (λ k. stands_for specifier k ≡ false) (JsMap.keys map)
        → Target specifier map base none

  prefixed-Target :
      (specifier : Text) (map : JsMap Text Text) (base : Text) (o : Option Text)
      → JsMap.get specifier map ≡ none
      → Chosen specifier none (JsMap.keys map) o
      → Target specifier map base (apply_prefix resolve_url specifier map base o)
  unfolding apply_prefix
  prefixed-Target specifier map base _ absent (no_key e rest) =
      unmapped absent (none-stand specifier (JsMap.keys map) rest)
  prefixed-Target specifier map base _ absent (longest k (inl e) le rest) =
      absurd (some_is_some (sym e))
  prefixed-Target specifier map base _ absent (longest k (inr (inside, p)) le rest) =
      elim (Option-cases (JsMap.get k map)) [
        | inl no_target ↦ absurd (ground (arith, keys-get k map))
        | inr (t, found) ↦ rw found (
            prefixed k t absent found (sym (is_prefix_key-stands_for specifier k) ∙ p)
              (others-stand specifier (length k) (JsMap.keys map) rest))
      ]

  -- For a specifier that is no name of a member of `Object.prototype`, `applyMap` gives the target of an
  -- exact key for it, else, of the keys that end in a slash and begin it, the target of a longest one
  -- with the rest of the specifier after it, and nothing without such a key.
  pub apply_map-Target :
      (inherited : Text → Option Text) (specifier : Text) (map : JsMap Text Text) (base : Text)
      → inherited specifier ≡ none
      → Target specifier map base (apply_map resolve_url inherited specifier map base)
  unfolding apply_map
  apply_map-Target inherited specifier map base bare =
      elim (Option-cases (JsMap.get specifier map)) [
        | inl absent ↦
            rw (absent, bare, apply_map)
              (prefixed-Target specifier map base _ absent
                (best_key-Chosen specifier none (JsMap.keys map)))
        | inr (t, found) ↦ rw (found, apply_map) (exact t found)
      ]
