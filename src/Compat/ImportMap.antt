-- ===== src/Compat/ImportMap.antt =====
-- compat/import-map.ts: import maps. `resolveAgainst` for a target that is not absolute (`new URL` on
-- the URL of the config file) is the parameter `resolve_url`; an object of the config is a map of
-- its own keys.
pub mod Longest
pub mod Jsonc
pub mod Keys
mod Tests
use tube.Common.{
  ℕ, ◌+◌, Bool, true, false, ◌&&◌, ◌||◌, Option, none, some, List, [], ◌∷◌, ◌++◌, ltb, leb, eqb,
  any, if◌then◌else◌, length, drop, text_eq,
}
use tube.Common.JsMap
use tube.Common.JsMap.{JsMap}
use tube.Common.Text.{Text, starts_with, ends_with}

pub record ImportMap : Type 0 where
  pub imports : Option (JsMap Text Text)
  pub scopes : Option (JsMap Text (JsMap Text Text))
  pub base : Text

between : ℕ → ℕ → ℕ → Bool
between a b c = leb a c && leb c b

is_letter : ℕ → Bool
unfolding between
is_letter c = between b'a' b'z' c || between b'A' b'Z' c

is_scheme_code : ℕ → Bool
unfolding is_letter between
is_scheme_code c = is_letter c || between b'0' b'9' c || eqb c b'+' || eqb c b'.' || eqb c b'-'

scheme_rest : Text → Bool
unfolding is_scheme_code
scheme_rest [] = false
scheme_rest (c ∷ s) =
    let rest = scheme_rest s in if eqb c b':' then true else is_scheme_code c && rest

-- `/^[a-z][a-z0-9+.-]*:/i.test(target)`
unfoldable pub is_absolute : Text → Bool
unfolding is_letter scheme_rest
is_absolute [] = false
is_absolute (c ∷ s) = is_letter c && scheme_rest s

-- A key that stands for a prefix of the specifier.
unfoldable pub is_prefix_key : Text → Text → Bool
unfolding ends_with starts_with
is_prefix_key specifier key = ends_with (b'/' ∷ []) key && starts_with key specifier

-- Of two keys the one to keep: the second only if it is longer.
unfoldable pub longer_key : Option Text → Text → Option Text
longer_key none key = some key
longer_key (some best) key = if ltb (length best) (length key) then some key else some best

-- `for (const key of Object.keys(map))`
unfoldable pub best_key : Text → Option Text → List Text → Option Text
unfolding is_prefix_key longer_key
best_key specifier best [] = best
best_key specifier best (key ∷ keys) =
    best_key specifier (if is_prefix_key specifier key then longer_key best key else best) keys

abbrev pub text_or_empty : Option Text → Text
text_or_empty none = []
text_or_empty (some s) = s

module _ (resolve_url : Text → Text → Text) where
  unfoldable pub resolve_against : Text → Text → Text
  unfolding is_absolute
  resolve_against target base = if is_absolute target then target else resolve_url target base

  apply_prefix : Text → JsMap Text Text → Text → Option Text → Option Text
  unfolding resolve_against
  apply_prefix specifier map base none = none
  apply_prefix specifier map base (some key) =
      some (resolve_against (text_or_empty (JsMap.get key map) ++ drop (length key) specifier) base)

  -- `best` of the loop over the scopes: the URL and the raw key.
  longer_scope : Option (Text × Text) → Text → Text → Option (Text × Text)
  longer_scope none url key = some (url, key)
  longer_scope (some (u, k)) url key =
      if ltb (length u) (length url) then some (url, key) else some (u, k)

  unfoldable pub best_scope : Text → Text → Option (Text × Text) → List Text → Option (Text × Text)
  unfolding resolve_against longer_scope starts_with
  best_scope referrer base best [] = best
  best_scope referrer base best (raw ∷ scopes) =
      let url = resolve_against raw base in
      best_scope referrer base
        (if starts_with url referrer then longer_scope best url raw else best) scopes

  abbrev map_or_empty : Option (JsMap Text Text) → JsMap Text Text
  map_or_empty none = []
  map_or_empty (some m) = m

-- `map[specifier]`, which finds a member of `Object.prototype` too.
abbrev pub own_or : Option Text → Option Text → Option Text
own_or none inherited = inherited
own_or (some target) inherited = some target

-- `inherited` is what an object inherits from `Object.prototype` under a name, as a text.
module _ (resolve_url : Text → Text → Text) (inherited : Text → Option Text) where
  unfoldable pub apply_map : Text → JsMap Text Text → Text → Option Text
  unfolding best_key apply_prefix resolve_against
  apply_map specifier map base = elim (own_or (JsMap.get specifier map) (inherited specifier)) [
    | none ↦ apply_prefix resolve_url specifier map base (best_key specifier none (JsMap.keys map))
    | some exact ↦ some (resolve_against resolve_url exact base)
  ]

  apply_scope : Text → Text → JsMap Text (JsMap Text Text) → Option (Text × Text) → Option Text
  unfolding apply_map
  apply_scope specifier base scopes none = none
  apply_scope specifier base scopes (some (url, key)) =
      apply_map specifier (map_or_empty resolve_url (JsMap.get key scopes)) base

  -- The target that the most specific scope of the referrer gives.
  unfoldable pub scoped_target : Text → Text → ImportMap → Option Text
  unfolding best_scope apply_scope
  scoped_target specifier referrer map = elim map.scopes [
    | none ↦ none
    | some scopes ↦
        apply_scope specifier map.base scopes
          (best_scope resolve_url referrer map.base none (JsMap.keys scopes))
  ]

  unfoldable pub top_target : Text → ImportMap → Option Text
  unfolding apply_map
  top_target specifier map = elim map.imports [
    | none ↦ none
    | some imports ↦ apply_map specifier imports map.base
  ]

  unfoldable pub resolve_import_map : Text → Text → Option ImportMap → Option Text
  unfolding scoped_target top_target
  resolve_import_map specifier referrer none = none
  resolve_import_map specifier referrer (some map) = elim (scoped_target specifier referrer map) [
    | none ↦ top_target specifier map
    | some target ↦ some target
  ]
