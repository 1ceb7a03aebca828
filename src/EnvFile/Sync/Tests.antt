-- ===== src/EnvFile/Sync/Tests.antt =====
-- Two files, the second of which cannot be read any more.
use tube.Common.{◌≡◌, refl, true, none, some, List, [], ◌∷◌, ltb, length, text_eq}
use tube.Common.JsMap
use tube.Common.JsMap.{JsMap}
use tube.Common.Sets.{member}
use tube.Common.Text.{codes, starts_with, ends_with, index_of, split, trim}
use tube.EnvFile.{parse_env_file}
use tube.EnvFile.Sync.{FileRead, OwnedEnv, merge_files, read_files, apply_env_files}
use tube.EnvFile.Sync.Applied.{settled, apply_env_files-settled}

abbrev files : List FileRead
files =
    record { path = codes "a"; content = some (codes "A=1") }
    ∷ record { path = codes "b"; content = none }
    ∷ []

-- `B` came from the file that cannot be read now.
abbrev before : OwnedEnv
before = record {
  env = (codes "A", codes "0") ∷ (codes "B", codes "2") ∷ (codes "HOME", codes "h") ∷ [];
  owned_keys = codes "A" ∷ codes "B" ∷ [];
}

a_is_read : ltb 0 (length (read_files files)) ≡ true
unfolding read_files
a_is_read = refl

apply_env_files-settled_example :
    JsMap.get (codes "B") (apply_env_files files before).1.env
    ≡ settled
        (JsMap.get (codes "B") (merge_files files []))
        (member (codes "B") before.owned_keys)
        (JsMap.get (codes "B") before.env)
apply_env_files-settled_example = apply_env_files-settled files before (codes "B") a_is_read

unread_file_forgotten : JsMap.get (codes "B") (apply_env_files files before).1.env ≡ none
unfolding apply_env_files JsMap.get JsMap.delete JsMap.set JsMap.has trim split starts_with
    ends_with index_of parse_env_file JsMap.set_all
unread_file_forgotten = refl
