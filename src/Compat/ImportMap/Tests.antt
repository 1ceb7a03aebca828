-- ===== src/Compat/ImportMap/Tests.antt =====
-- An import map at concrete values.
use tube.Common.{
  ◌≡◌, refl, true, any, Option, none, some, if◌then◌else◌, ◌==◌, is_some, List, [], ◌∷◌, ◌++◌,
  text_eq,
}
use tube.Common.JsMap
use tube.Common.JsMap.{JsMap}
use tube.Common.Text.{Text, codes, starts_with, ends_with}
use tube.Compat.ImportMap.{ImportMap, apply_map, resolve_import_map}
use tube.Compat.ImportMap.Longest.{Target, apply_map-Target}
use tube.Compat.ImportMap.Jsonc.{
  char, escape, Piece, plain, string, line, block, spell, without_comments, strip_comments,
  strip_jsonc, strip_comments-spell,
}
use tube.Compat.ImportMap.Keys.{fits, import_map_keys, import_map_keys-resolve_import_map}

-- A resolver that puts the target after the base.
abbrev joined : Text → Text → Text
joined target base = base ++ target

-- What an object inherits, as far as the tests go.
abbrev bare_object : Text → Option Text
bare_object name =
    if name == codes "constructor" then some (codes "function Object() { [native code] }") else none

-- An inherited member is taken for a target, although the map has no such key.
inherited_target :
    apply_map joined bare_object (codes "constructor") [] (codes "f/")
    ≡ some (codes "f/function Object() { [native code] }")
unfolding apply_map JsMap.get
inherited_target = refl

abbrev imports_of : JsMap Text Text
imports_of =
    (codes "a/", codes "./x/")
    ∷ (codes "a/b/", codes "npm:b/")
    ∷ (codes "zod", codes "npm:zod")
    ∷ []

longest_wins :
    apply_map joined bare_object (codes "a/b/c") imports_of (codes "f/") ≡ some (codes "npm:b/c")
unfolding apply_map starts_with ends_with JsMap.get
longest_wins = refl

abbrev scoped_map : ImportMap
scoped_map = record {
  imports = some imports_of;
  scopes = some ((codes "file:s/", (codes "zod", codes "npm:zod@3") ∷ []) ∷ []);
  base = codes "f/";
}

scope_first :
    (resolve_import_map joined bare_object (codes "zod") (codes "file:s/m.ts") (some scoped_map)
      ≡ some (codes "npm:zod@3"))
    × (resolve_import_map joined bare_object (codes "a/c") (codes "file:s/m.ts") (some scoped_map)
        ≡ some (codes "f/./x/c"))
unfolding resolve_import_map starts_with ends_with JsMap.get
scope_first = (refl, refl)

apply_map-Target_example :
    Target joined
      (codes "a/b/c")
      imports_of
      (codes "f/")
      (apply_map joined bare_object (codes "a/b/c") imports_of (codes "f/"))
apply_map-Target_example =
    apply_map-Target joined bare_object (codes "a/b/c") imports_of (codes "f/") refl

-- `{"//\"": 1, /** b/c ****/ } // end`, and an end of line
abbrev config_pieces : List Piece
config_pieces =
    plain b'{'
    ∷ string b'"' (char b'/' ∷ char b'/' ∷ escape b'"' ∷ [])
    ∷ plain b':'
    ∷ plain b'1'
    ∷ plain b','
    ∷ block (codes "* b/c ***")
    ∷ plain b'}'
    ∷ line (codes " end")
    ∷ []

strip_comments-spell_example :
    strip_comments (spell config_pieces) ≡ spell (without_comments config_pieces)
strip_comments-spell_example = strip_comments-spell config_pieces refl

trailing_comma : strip_jsonc (spell config_pieces) ≡ codes "{\"//\\\"\":1}\n"
unfolding strip_jsonc
trailing_comma = refl

-- The comma before a bracket goes in a string too.
comma_in_string : strip_jsonc (codes "{\"k\": \"a, ]\"}") ≡ codes "{\"k\": \"a]\"}"
unfolding strip_jsonc
comma_in_string = refl

keys_of_all : import_map_keys (some scoped_map) ≡ codes "a/" ∷ codes "a/b/" ∷ codes "zod" ∷ []
unfolding import_map_keys
keys_of_all = refl

is_resolved :
    is_some
      (resolve_import_map joined bare_object (codes "a/c") (codes "file:s/m.ts") (some scoped_map))
    ≡ true
unfolding resolve_import_map starts_with ends_with JsMap.get
is_resolved = refl

import_map_keys-resolve_import_map_example :
    any (fits (codes "a/c")) (import_map_keys (some scoped_map)) ≡ true
import_map_keys-resolve_import_map_example =
    import_map_keys-resolve_import_map joined bare_object (codes "a/c") refl (codes "file:s/m.ts")
      (some scoped_map) is_resolved
