-- ===== src/Gateway/RoutePrefix/Canonical.antt =====
-- What `normalizeRoutePrefix` returns, and how the remainder of a path is cut.
use tube.Common.{
  ℕ, ◌+◌, ◌≡◌, ◌≢◌, ◌⊎◌, refl, ap, sym, ◌∙◌, true, Bool-cases, inl, inr, Option, [], ◌∷◌, ◌++◌,
  arith, length, drop, ◌==◌, text_eq, text_beq_iff, length-append, drop-append, beq_ne,
}
use mathlib.Core.List.{append_assoc, append-nil}
use tube.Common.Text.{Text, trim, starts_with, keep_end, starts_with-append, starts_with-eq}
use tube.Gateway.RoutePrefix.{
  default_route_prefix, slash, is_slash, squeeze, squeeze_onto, strip_slashes, or_default,
  normalize_trimmed, normalize_route_prefix, text_or_empty, route_remainder,
  strip_route_prefix_from_pathname,
}

-- No two slashes stand side by side.
abbrev pub NoDoubleSlash : Text → Type 0
NoDoubleSlash [] = Unit
NoDoubleSlash (c ∷ []) = Unit
NoDoubleSlash (c ∷ d ∷ s) = ((c ≢ slash) ⊎ (d ≢ slash)) × NoDoubleSlash (d ∷ s)

-- The last character, if there is one, is no slash.
abbrev pub NoTrailingSlash : Text → Type 0
NoTrailingSlash [] = Unit
NoTrailingSlash (c ∷ []) = c ≢ slash
NoTrailingSlash (c ∷ d ∷ s) = NoTrailingSlash (d ∷ s)

pub record IsCanonical (p : Text) : Type 0 where
  pub leading : starts_with (slash ∷ []) p ≡ true
  pub single : NoDoubleSlash p
  pub trailing : NoTrailingSlash p

squeeze_onto-NoDoubleSlash : (c : ℕ) (s : Text) → NoDoubleSlash s → NoDoubleSlash (squeeze_onto c s)
unfolding squeeze_onto
squeeze_onto-NoDoubleSlash c [] h = tt
squeeze_onto-NoDoubleSlash c (d ∷ s) h = ground arith

squeeze-NoDoubleSlash : (s : Text) → NoDoubleSlash (squeeze s)
unfolding squeeze
squeeze-NoDoubleSlash [] = tt
squeeze-NoDoubleSlash (c ∷ s) = squeeze_onto-NoDoubleSlash c (squeeze s) (squeeze-NoDoubleSlash s)

starts_with-slash : (c : ℕ) (s : Text) → (starts_with (slash ∷ []) (c ∷ s) ≡ true) → c ≡ slash
unfolding starts_with
starts_with-slash c s h = ground arith

squeeze_onto-leading : (s : Text) → starts_with (slash ∷ []) (squeeze_onto slash s) ≡ true
unfolding squeeze_onto starts_with
squeeze_onto-leading [] = refl
squeeze_onto-leading (d ∷ s) = ground arith

squeeze-leading : (s : Text) → starts_with (slash ∷ []) (squeeze (slash ∷ s)) ≡ true
unfolding squeeze
squeeze-leading s = squeeze_onto-leading (squeeze s)

keep_end-NoTrailingSlash :
    (c : ℕ) (s : Text) → NoTrailingSlash s → NoTrailingSlash (keep_end is_slash c s)
unfolding keep_end
keep_end-NoTrailingSlash c [] h = ground arith
keep_end-NoTrailingSlash c (d ∷ s) h = h

strip_slashes-NoTrailingSlash : (s : Text) → NoTrailingSlash (strip_slashes s)
unfolding strip_slashes
strip_slashes-NoTrailingSlash [] = tt
strip_slashes-NoTrailingSlash (c ∷ s) =
    keep_end-NoTrailingSlash c (strip_slashes s) (strip_slashes-NoTrailingSlash s)

keep_end-prefix :
    (c : ℕ) (r s t : Text) → s ≡ r ++ t → (u : Text) × (c ∷ s ≡ keep_end is_slash c r ++ u)
unfolding keep_end
keep_end-prefix c [] s t e = elim (Bool-cases (is_slash c)) [
  | inl yes_slash ↦ (c ∷ s, rw yes_slash refl)
  | inr no_slash ↦ (s, rw no_slash refl)
]
keep_end-prefix c (d ∷ r) s t e = (t, ap (◌∷◌ c) e)

strip_slashes-prefix : (s : Text) → (t : Text) × (s ≡ strip_slashes s ++ t)
unfolding strip_slashes
strip_slashes-prefix [] = ([], refl)
strip_slashes-prefix (c ∷ s) =
    let (t, e) = strip_slashes-prefix s in keep_end-prefix c (strip_slashes s) s t e

NoDoubleSlash-prefix : (s t : Text) → NoDoubleSlash (s ++ t) → NoDoubleSlash s
NoDoubleSlash-prefix [] t h = tt
NoDoubleSlash-prefix (c ∷ []) t h = tt
NoDoubleSlash-prefix (c ∷ d ∷ s) t h = (h.0, NoDoubleSlash-prefix (d ∷ s) t h.1)

leading-prefix :
    (c : ℕ) (s t : Text)
    → starts_with (slash ∷ []) ((c ∷ s) ++ t) ≡ true
    → starts_with (slash ∷ []) (c ∷ s) ≡ true
unfolding starts_with
leading-prefix c s t h = h

default-IsCanonical : IsCanonical default_route_prefix
unfolding starts_with
default-IsCanonical = record { leading = refl; single = omega arith; trailing = omega arith }

or_default-IsCanonical :
    (r s t : Text)
    → s ≡ r ++ t
    → starts_with (slash ∷ []) s ≡ true
    → NoDoubleSlash s
    → NoTrailingSlash r
    → IsCanonical (or_default r)
unfolding or_default
or_default-IsCanonical [] s t e l d n = default-IsCanonical
or_default-IsCanonical (c ∷ r) s t e l d n = record {
  leading = leading-prefix c r t (rw e at l);
  single = NoDoubleSlash-prefix (c ∷ r) t (rw e at d);
  trailing = n;
}

strip_squeeze-IsCanonical :
    (s : Text)
    → starts_with (slash ∷ []) (squeeze s) ≡ true
    → IsCanonical (or_default (strip_slashes (squeeze s)))
strip_squeeze-IsCanonical s l =
    let (t, e) = strip_slashes-prefix (squeeze s) in
    or_default-IsCanonical (strip_slashes (squeeze s)) (squeeze s) t e l (squeeze-NoDoubleSlash s)
      (strip_slashes-NoTrailingSlash (squeeze s))

normalize_trimmed-IsCanonical : (v : Text) → IsCanonical (normalize_trimmed v)
unfolding normalize_trimmed
normalize_trimmed-IsCanonical [] = default-IsCanonical
normalize_trimmed-IsCanonical (c ∷ s) = elim (Bool-cases (starts_with (slash ∷ []) (c ∷ s))) [
  | inl leading ↦
      rw leading
        (strip_squeeze-IsCanonical (c ∷ s) (rw (starts_with-slash c s leading) (squeeze-leading s)))
  | inr bare ↦ rw bare (strip_squeeze-IsCanonical (slash ∷ c ∷ s) (squeeze-leading (c ∷ s)))
]

-- Whatever the input, the prefix begins with a slash, ends with none (so it is never the bare root)
-- and has no two slashes in a row.
pub normalize_route_prefix-IsCanonical :
    (raw : Option Text) → IsCanonical (normalize_route_prefix raw)
unfolding normalize_route_prefix
normalize_route_prefix-IsCanonical raw = normalize_trimmed-IsCanonical (trim (text_or_empty raw))

-- The remainder of a path under the prefix is what follows the prefix and its slash, and a path
-- that is not under the prefix has the empty remainder.
pub route_remainder_lem :
    (prefix path : Text)
    → ((rest : Text) → route_remainder prefix ((prefix ++ slash ∷ []) ++ rest) ≡ rest)
      × ((route_remainder prefix path ≡ [])
          ⊎ (path ≡ (prefix ++ slash ∷ []) ++ route_remainder prefix path))
unfolding route_remainder
route_remainder_lem prefix path = (under, either)
  where
    size : length (prefix ++ slash ∷ []) ≡ length prefix + 1
    size = length-append prefix (slash ∷ [])

    under : (rest : Text) → route_remainder prefix ((prefix ++ slash ∷ []) ++ rest) ≡ rest
    under rest = rw (starts_with-append, ← size) (drop-append (prefix ++ slash ∷ []) rest)

    either :
        (route_remainder prefix path ≡ [])
        ⊎ (path ≡ (prefix ++ slash ∷ []) ++ route_remainder prefix path)
    either = elim (Bool-cases (starts_with (prefix ++ slash ∷ []) path)) [
      | inl starts ↦ inr (rw (starts, ← size) (starts_with-eq (prefix ++ slash ∷ []) path starts))
      | inr other ↦ inl (rw other refl)
    ]

longer-ne : (p : Text) (c : ℕ) (s : Text) → p ++ c ∷ s ≢ p
longer-ne p c s e = omega (arith, length-append p (c ∷ s), ap length e)

starts_under :
    (prefix rest : Text) → starts_with (prefix ++ slash ∷ []) (prefix ++ slash ∷ rest) ≡ true
starts_under prefix rest =
    rw (← append_assoc prefix (slash ∷ []) rest) (starts_with-append (prefix ++ slash ∷ []) rest)

strip_exact : (prefix : Text) → strip_route_prefix_from_pathname prefix prefix ≡ []
unfolding strip_route_prefix_from_pathname
strip_exact prefix = ground (arith, text_beq_iff prefix prefix)

strip_under :
    (prefix rest : Text)
    → strip_route_prefix_from_pathname prefix (prefix ++ slash ∷ rest) ≡ slash ∷ rest
unfolding strip_route_prefix_from_pathname
strip_under prefix rest =
    rw
      (
        beq_ne (prefix ++ slash ∷ rest) prefix (longer-ne prefix slash rest),
        starts_under prefix rest,
      )
      (drop-append prefix (slash ∷ rest))

strip_other :
    (prefix pathname : Text)
    → (strip_route_prefix_from_pathname prefix pathname ≡ pathname)
      ⊎ (pathname ≡ prefix ++ strip_route_prefix_from_pathname prefix pathname)
strip_other prefix pathname = elim (Bool-cases (pathname == prefix)) [
  | inl same ↦
      let e = (text_beq_iff pathname prefix).0 same in
      inr (rw (e, strip_exact) (sym (append-nil prefix)))
  | inr different ↦ elim (Bool-cases (starts_with (prefix ++ slash ∷ []) pathname)) [
    | inl starts ↦
        let t = drop (length (prefix ++ slash ∷ [])) pathname in
        let e : pathname ≡ prefix ++ slash ∷ t =
          starts_with-eq (prefix ++ slash ∷ []) pathname starts
          ∙ append_assoc prefix (slash ∷ []) t in
        inr (
          e
          ∙ sym (
              ap (λ q. prefix ++ q)
                (ap (strip_route_prefix_from_pathname prefix) e ∙ strip_under prefix t)))
    | inr outside ↦ inl (unfold strip_route_prefix_from_pathname in rw (different, outside) refl)
  ]
]

-- Stripping the prefix keeps the slash: of a path under the prefix the part from its slash on is
-- left, of the prefix itself nothing, and any path is left whole or is the prefix followed by what
-- is left.
pub strip_route_prefix-append :
    (prefix pathname : Text)
    → ((rest : Text)
        → strip_route_prefix_from_pathname prefix (prefix ++ slash ∷ rest) ≡ slash ∷ rest)
      × (strip_route_prefix_from_pathname prefix prefix ≡ [])
      × ((strip_route_prefix_from_pathname prefix pathname ≡ pathname)
          ⊎ (pathname ≡ prefix ++ strip_route_prefix_from_pathname prefix pathname))
strip_route_prefix-append prefix pathname =
    (strip_under prefix, strip_exact prefix, strip_other prefix pathname)
