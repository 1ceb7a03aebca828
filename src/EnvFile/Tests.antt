-- ===== src/EnvFile/Tests.antt =====
-- Documents and what is read of them.
use tube.Common.{◌≡◌, refl, List, [], ◌∷◌, ◌++◌, text_eq}
use tube.Common.JsMap
use tube.Common.JsMap.{JsMap}
use tube.Common.Text.{Text, codes, starts_with, ends_with, index_of, split, trim}
use tube.EnvFile.{unescape, parse_env_file}

-- An escaped backslash before an `n`: the `\n` in it is replaced first.
escaped_backslash : unescape (codes "C:\\\\new") ≡ codes "C:\\" ++ 10 ∷ codes "ew"
unfolding unescape
escaped_backslash = refl

parsed :
    parse_env_file (codes "# keys\nexport A = 'x' \nA=2\nB=b # note\n9=c\n")
    ≡ (codes "A", codes "x") ∷ (codes "B", codes "b") ∷ []
unfolding parse_env_file trim split starts_with ends_with index_of JsMap.get JsMap.has JsMap.set
parsed = refl

abbrev entries : List (Text × Text)
entries = (codes "KEY_1", codes "a \"b\" # c") ∷ (codes "KEY_1", codes "d") ∷ []
