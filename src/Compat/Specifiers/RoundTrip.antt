-- ===== src/Compat/Specifiers/RoundTrip.antt =====
-- A request is recovered from the specifier that its key and its subpath spell.
use tube.Common.{ℕ, ◌≡◌, ◌≢◌, refl, ap, Bool, true, false, some, [], ◌∷◌, ◌++◌, eqb, arith, All}
use mathlib.Core.List.{append_assoc, append-nil}
use tube.Common.Text.{Text, codes, starts_with-append}
use tube.Compat.Specifiers.{
  npm, at_sign, slash, break_at, is_slash, ends_name, or_latest, root_or, range_parts,
  split_package, strip_slash, strip_scheme, request_of, parse_npm_specifier, package_key,
}

abbrev pub Fails : (ℕ → Bool) → Text → Type 0
Fails p = All (λ c. p c ≡ false)

break_at-append :
    (p : ℕ → Bool) (s t : Text) (c : ℕ)
    → Fails p s
    → p c ≡ true
    → break_at p (s ++ c ∷ t) ≡ (s, c ∷ t)
unfolding break_at
break_at-append p [] t c h stop = ground arith
break_at-append p (d ∷ s) t c h stop = ground (arith, break_at-append p s t c h.1 stop)

break_at_whole : (p : ℕ → Bool) (s : Text) → Fails p s → break_at p s ≡ (s, [])
unfolding break_at
break_at_whole p [] h = refl
break_at_whole p (d ∷ s) h = ground (arith, break_at_whole p s h.1)

-- A subpath is empty, or a slash and more.
abbrev pub IsSubpath : Text → Type 0
IsSubpath [] = Unit
IsSubpath (c ∷ []) = ⊥
IsSubpath (c ∷ d ∷ s) = c ≡ slash

break_range :
    (range subpath : Text)
    → Fails is_slash range
    → IsSubpath subpath
    → break_at is_slash (range ++ subpath) ≡ (range, subpath)
break_range range [] h s = rw append-nil (break_at_whole is_slash range h)
break_range range (c ∷ []) h s = absurd s
break_range range (c ∷ d ∷ t) h s = break_at-append is_slash range (d ∷ t) c h (ground arith)

root_or-IsSubpath : (s : Text) → IsSubpath s → root_or s ≡ s
unfolding root_or
root_or-IsSubpath [] h = refl
root_or-IsSubpath (c ∷ []) h = absurd h
root_or-IsSubpath (c ∷ d ∷ s) h = refl

or_latest_ne : (s : Text) → s ≢ [] → or_latest s ≡ s
or_latest_ne [] h = absurd (h refl)
or_latest_ne (c ∷ s) h = refl

range_parts_lem :
    (name range subpath : Text)
    → range ≢ []
    → Fails is_slash range
    → IsSubpath subpath
    → range_parts name (at_sign ∷ range ++ subpath)
      ≡ record { name = name; range = range; subpath = subpath }
unfolding range_parts
range_parts_lem name range subpath full h s =
    rw (break_range range subpath h s, or_latest_ne range full, root_or-IsSubpath subpath s) refl

-- The names that a request may have: a plain name, or a scope and a name. Neither holds an `@` or a
-- slash (a scope may hold a further `@`), and neither is empty.
pub data IsName : Text → Type 0 where
  plain : (c : ℕ) (s : Text) → Fails ends_name (c ∷ s) → IsName (c ∷ s)
  scoped :
      (b : ℕ) (scope : Text) (c : ℕ) (s : Text)
      → Fails is_slash (b ∷ scope)
      → Fails ends_name (c ∷ s)
      → IsName (at_sign ∷ b ∷ scope ++ slash ∷ c ∷ s)

not_at : (c : ℕ) → ends_name c ≡ false → eqb c at_sign ≡ false
not_at c h = ground arith

split_package_lem :
    {name : Text} (range subpath : Text)
    → IsName name
    → range ≢ []
    → Fails is_slash range
    → IsSubpath subpath
    → split_package (name ++ (at_sign ∷ (range ++ subpath)))
      ≡ some (record { name = name; range = range; subpath = subpath })
unfolding split_package
split_package_lem range subpath (plain c s h) full hr hs =
    rw (not_at c h.0, break_at-append ends_name (c ∷ s) (range ++ subpath) at_sign h refl)
      (ap some (range_parts_lem (c ∷ s) range subpath full hr hs))
split_package_lem range subpath (scoped b scope c s hb h) full hr hs =
    rw
      (
        append_assoc scope (slash ∷ c ∷ s) (at_sign ∷ (range ++ subpath)),
        break_at-append is_slash (at_sign ∷ b ∷ scope) (c ∷ (s ++ (at_sign ∷ (range ++ subpath))))
            slash (refl, hb) refl,
        break_at-append ends_name (c ∷ s) (range ++ subpath) at_sign h refl,
        append_assoc scope (slash ∷ []) (c ∷ s),
      )
      (ap some (range_parts_lem (at_sign ∷ b ∷ (scope ++ slash ∷ c ∷ s)) range subpath full hr hs))

not_slash : (c : ℕ) → ends_name c ≡ false → is_slash c ≡ false
not_slash c h = ground arith

strip_slash_name : {name : Text} (t : Text) → IsName name → strip_slash (name ++ t) ≡ name ++ t
unfolding strip_slash
strip_slash_name t (plain c s h) = rw (not_slash c h.0) refl
strip_slash_name t (scoped b scope c s hb h) = refl

strip_scheme_npm : (s : Text) → strip_scheme (codes "npm:") (codes "npm:" ++ s) ≡ strip_slash s
unfolding strip_scheme
strip_scheme_npm s = rw (starts_with-append (codes "npm:") s) refl

-- The specifier `npm:` with the key of a request and its subpath is parsed back to the request: for
-- a plain or scoped name, a range that is not empty and has no slash, and a subpath that is empty or
-- a slash and more.
pub parse_npm_specifier-package_key :
    {name : Text} (range subpath : Text)
    → IsName name
    → range ≢ []
    → Fails is_slash range
    → IsSubpath subpath
    → parse_npm_specifier (
        codes "npm:"
        ++ (package_key (record { name = name; range = range; subpath = subpath; registry = npm })
            ++ subpath))
      ≡ some (record { name = name; range = range; subpath = subpath; registry = npm })
unfolding parse_npm_specifier package_key
parse_npm_specifier-package_key {name} range subpath n full hr hs =
    rw
      (
        append_assoc name (at_sign ∷ range) subpath,
        parse_npm_specifier,
        strip_scheme_npm (name ++ (at_sign ∷ (range ++ subpath))),
        strip_slash_name (at_sign ∷ (range ++ subpath)) n,
        split_package_lem range subpath n full hr hs,
        request_of,
      )
      refl
