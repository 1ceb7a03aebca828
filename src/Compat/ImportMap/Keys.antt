-- ===== src/Compat/ImportMap/Keys.antt =====
-- `importMapKeys`, the keys for the filter of the plugin.
use tube.Common.{
  ◌≡◌, refl, Bool, true, ◌||◌, Option, none, some, is_some, List, [], ◌∷◌, ◌++◌, any, ◌==◌, text_eq,
  arith, text_beq_iff,
}
use tube.Common.JsMap
use tube.Common.JsMap.{JsMap}
use tube.Common.Sets.{member, add, add_all}
use tube.Common.Text.{Text}
use tube.Compat.ImportMap.Longest.{stands_for, is_prefix_key-stands_for}
use tube.Compat.ImportMap.{
  ImportMap, is_prefix_key, longer_key, best_key, apply_prefix, apply_map, apply_scope,
  scoped_target, top_target, resolve_import_map, map_or_empty,
}

scope_keys : JsMap Text (JsMap Text Text) → List Text → List Text
unfolding add_all
scope_keys [] keys = keys
scope_keys ((raw, scoped) ∷ scopes) keys = scope_keys scopes (add_all (JsMap.keys scoped) keys)

abbrev keys_or_none : Option (JsMap Text Text) → List Text
keys_or_none none = []
keys_or_none (some m) = JsMap.keys m

abbrev scopes_or_none : Option (JsMap Text (JsMap Text Text)) → JsMap Text (JsMap Text Text)
scopes_or_none none = []
scopes_or_none (some m) = m

unfoldable pub import_map_keys : Option ImportMap → List Text
unfolding scope_keys add_all
import_map_keys none = []
import_map_keys (some map) =
    scope_keys (scopes_or_none map.scopes) (add_all (keys_or_none map.imports) [])

-- A key is the specifier or stands for a prefix of it.
abbrev pub fits : Text → Text → Bool
fits specifier key = key == specifier || stands_for specifier key

any-append : (f : Text → Bool) (xs ys : List Text) → any f (xs ++ ys) ≡ (any f xs || any f ys)
any-append f [] ys = refl
any-append f (x ∷ xs) ys = ground (arith, any-append f xs ys)

any-member :
    (f : Text → Bool) (x : Text) (xs : List Text)
    → member x xs ≡ true
    → f x ≡ true
    → any f xs ≡ true
unfolding member
any-member f x [] m e = ground (arith, m)
any-member f x (y ∷ xs) m e = ground (arith, m, e, any-member f x xs, text_beq_iff y x)

any-add : (f : Text → Bool) (x : Text) (xs : List Text) → any f (add x xs) ≡ (f x || any f xs)
unfolding add
any-add f x xs = ground (arith, any-append f xs (x ∷ []), any-member f x xs)

any-add_all : (f : Text → Bool) (xs ys : List Text) → any f (add_all xs ys) ≡ (any f xs || any f ys)
unfolding add_all
any-add_all f [] ys = refl
any-add_all f (x ∷ xs) ys = ground (arith, any-add_all f xs (add x ys), any-add f x ys)

-- The keys of a scope, and those that were there before, stay.
any-scope_keys :
    (f : Text → Bool) (scopes : JsMap Text (JsMap Text Text)) (keys : List Text)
    → any f keys ≡ true
    → any f (scope_keys scopes keys) ≡ true
unfolding scope_keys
any-scope_keys f [] keys e = e
any-scope_keys f ((raw, scoped) ∷ scopes) keys e =
    any-scope_keys f scopes _ (ground (arith, any-add_all f (JsMap.keys scoped) keys, e))

any-scope_keys_of :
    (f : Text → Bool) (key : Text) (scopes : JsMap Text (JsMap Text Text)) (keys : List Text)
    → any f (keys_or_none (JsMap.get key scopes)) ≡ true
    → any f (scope_keys scopes keys) ≡ true
unfolding scope_keys JsMap.get
any-scope_keys_of f key [] keys h = ground (arith, h)
any-scope_keys_of f key ((raw, scoped) ∷ scopes) keys h = ground (
  arith,
  h,
  any-scope_keys_of f key scopes (add_all (JsMap.keys scoped) keys),
  any-scope_keys f scopes (add_all (JsMap.keys scoped) keys),
  any-add_all f (JsMap.keys scoped) keys,
)

is_some-best_key :
    (specifier : Text) (best : Option Text) (keys : List Text)
    → is_some (best_key specifier best keys)
      ≡ (is_some best || any (λ k. is_prefix_key specifier k) keys)
unfolding best_key longer_key
is_some-best_key specifier best [] = ground arith
is_some-best_key specifier none (k ∷ keys) =
    ground (arith, is_some-best_key specifier none keys, is_some-best_key specifier (some k) keys)
is_some-best_key specifier (some b) (k ∷ keys) =
    ground
      (arith, is_some-best_key specifier (some b) keys, is_some-best_key specifier (some k) keys)

any-get :
    (f : Text → Bool) (k : Text) (m : JsMap Text Text)
    → f k ≡ true
    → is_some (JsMap.get k m) ≡ true
    → any f (JsMap.keys m) ≡ true
unfolding JsMap.get
any-get f k [] e h = ground (arith, h)
any-get f k ((j, v) ∷ m) e h = ground (arith, e, h, any-get f k m, text_beq_iff j k)

any-fits :
    (specifier : Text) (keys : List Text)
    → any (λ k. is_prefix_key specifier k) keys ≡ true
    → any (fits specifier) keys ≡ true
any-fits specifier [] e = e
any-fits specifier (k ∷ keys) e =
    ground (arith, e, any-fits specifier keys, is_prefix_key-stands_for specifier k)

module _ (resolve_url : Text → Text → Text) (inherited : Text → Option Text) (specifier : Text)
    (bare : inherited specifier ≡ none) where
  is_some-apply_prefix :
      (map : JsMap Text Text) (base : Text) (o : Option Text)
      → is_some (apply_prefix resolve_url specifier map base o) ≡ is_some o
  unfolding apply_prefix
  is_some-apply_prefix map base none = refl
  is_some-apply_prefix map base (some k) = refl

  apply_map-fits :
      (map : JsMap Text Text) (base : Text)
      → is_some (apply_map resolve_url inherited specifier map base) ≡ true
      → any (fits specifier) (JsMap.keys map) ≡ true
  unfolding apply_map
  apply_map-fits map base h = ground (
    arith,
    h,
    bare,
    any-get (fits specifier) specifier map (ground (arith, text_beq_iff specifier specifier)),
    any-fits specifier (JsMap.keys map),
    is_some-apply_prefix map base (best_key specifier none (JsMap.keys map)),
    is_some-best_key specifier none (JsMap.keys map),
  )

  apply_scope-fits :
      (base : Text) (scopes : JsMap Text (JsMap Text Text)) (best : Option (Text × Text))
      (keys : List Text)
      → is_some (apply_scope resolve_url inherited specifier base scopes best) ≡ true
      → any (fits specifier) (scope_keys scopes keys) ≡ true
  unfolding apply_scope
  apply_scope-fits base scopes none keys h = ground (arith, h)
  apply_scope-fits base scopes (some (url, key)) keys h =
      any-scope_keys_of (fits specifier) key scopes keys (scope_fits base (JsMap.get key scopes) h)
    where
      scope_fits :
          (base : Text) (scoped : Option (JsMap Text Text))
          → is_some
              (apply_map resolve_url inherited specifier (map_or_empty resolve_url scoped) base)
            ≡ true
          → any (fits specifier) (keys_or_none scoped) ≡ true
      scope_fits base none h = apply_map-fits [] base h
      scope_fits base (some scoped) h = apply_map-fits scoped base h

  scoped_target-fits :
      (referrer base : Text) (imports : Option (JsMap Text Text))
      (scopes : Option (JsMap Text (JsMap Text Text))) (keys : List Text)
      → is_some (
          scoped_target resolve_url inherited specifier referrer
            (record { imports = imports; scopes = scopes; base = base }))
        ≡ true
      → any (fits specifier) (scope_keys (scopes_or_none scopes) keys) ≡ true
  unfolding scoped_target
  scoped_target-fits referrer base imports none keys h = ground (arith, h)
  scoped_target-fits referrer base imports (some scopes) keys h =
      apply_scope-fits base scopes _ keys h

  top_target-fits :
      (base : Text) (imports : Option (JsMap Text Text))
      (scopes : Option (JsMap Text (JsMap Text Text)))
      → is_some (
          top_target resolve_url inherited specifier
            (record { imports = imports; scopes = scopes; base = base }))
        ≡ true
      → any (fits specifier) (keys_or_none imports) ≡ true
  unfolding top_target
  top_target-fits base none scopes h = ground (arith, h)
  top_target-fits base (some imports) scopes h = apply_map-fits imports base h

  -- When the map rewrites a specifier that is no name of a member of `Object.prototype`, one of the keys of the filter is the specifier or stands for
  -- a prefix of it.
  pub import_map_keys-resolve_import_map :
      (referrer : Text) (map : Option ImportMap)
      → is_some (resolve_import_map resolve_url inherited specifier referrer map) ≡ true
      → any (fits specifier) (import_map_keys map) ≡ true
  unfolding import_map_keys resolve_import_map
  import_map_keys-resolve_import_map referrer none h = ground (arith, h)
  import_map_keys-resolve_import_map referrer (some map) h = ground (
    arith,
    h,
    scoped_target-fits referrer map.base map.imports map.scopes
        (add_all (keys_or_none map.imports) []),
    top_target-fits map.base map.imports map.scopes,
    any-scope_keys (fits specifier) (scopes_or_none map.scopes)
        (add_all (keys_or_none map.imports) []),
    any-add_all (fits specifier) (keys_or_none map.imports) [],
  )
