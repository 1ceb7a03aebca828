-- ===== src/EnvFile/Sync.antt =====
-- `applyEnvFiles`: the values of the files, put into the environment, and the keys that the files
-- own.
pub mod Applied
mod Tests
use tube.Common.{
  ℕ, suc, ◌+◌, Bool, true, false, not, ◌&&◌, ◌||◌, Option, none, some, List, [], ◌∷◌, ◌++◌, ltb,
  if◌then◌else◌, length, ◌==◌, text_eq,
}
use tube.Common.JsMap
use tube.Common.JsMap.{JsMap}
use tube.Common.Text.{Text}
use tube.EnvFile.{parse_env_file}

-- A file and what reading it gives, `none` where it throws.
pub record FileRead : Type 0 where
  pub path : Text
  pub content : Option Text

-- The environment, and the keys that the watched files own.
pub record OwnedEnv : Type 0 where
  pub env : JsMap Text Text
  pub owned_keys : List Text

pub record EnvApplyDiff : Type 0 where
  pub files : List Text
  pub added : List Text
  pub updated : List Text
  pub removed : List Text
  pub changed : Bool

pub merge_files : List FileRead → JsMap Text Text → JsMap Text Text
merge_files [] merged = merged
merge_files (f ∷ files) merged = elim f.content [
  | none ↦ merge_files files merged
  | some text ↦ merge_files files (JsMap.set_all (parse_env_file text) merged)
]

pub read_files : List FileRead → List Text
read_files [] = []
read_files (f ∷ files) =
    let rest = read_files files in elim f.content [ none ↦ rest | some text ↦ f.path ∷ rest ]

-- What the loop over the merged values has done: the environment, and the keys added and updated.
abbrev Pushed : Type 0
Pushed = JsMap Text Text × List Text × List Text

push_one : Text → Text → Option Text → JsMap Text Text → Pushed
push_one key value none env = (JsMap.set key value env, key ∷ [], [])
push_one key value (some prev) env =
    if prev == value then (env, [], []) else (JsMap.set key value env, [], key ∷ [])

pub push_values : JsMap Text Text → JsMap Text Text → Pushed
unfolding push_one
push_values [] env = (env, [], [])
push_values ((key, value) ∷ merged) env =
    let (env', added, updated) = push_one key value (JsMap.get key env) env in
    let (env'', more_added, more_updated) = push_values merged env' in
    (env'', added ++ more_added, updated ++ more_updated)

-- The keys of the files until now that no file has any more, deleted.
pub drop_owned : List Text → JsMap Text Text → JsMap Text Text → JsMap Text Text × List Text
drop_owned [] merged env = (env, [])
drop_owned (key ∷ keys) merged env =
    if JsMap.has key merged
    then drop_owned keys merged env
    else let (env', removed) = drop_owned keys merged (JsMap.delete key env) in
      (env', key ∷ removed)

abbrev pub unchanged : List Text → EnvApplyDiff
unchanged files = record { files = files; added = []; updated = []; removed = []; changed = false }

-- The environment after the merged values are in it, and the diff.
pub sync_env : List Text → JsMap Text Text → OwnedEnv → EnvApplyDiff × OwnedEnv
unfolding push_values drop_owned
sync_env files merged s =
    let (env', added, updated) = push_values merged s.env in
    let (env'', removed) = drop_owned s.owned_keys merged env' in
    (
      record {
        files = files;
        added = added;
        updated = updated;
        removed = removed;
        changed = ltb 0 (length added + length updated + length removed);
      },
      record { env = env''; owned_keys = JsMap.keys merged },
    )

pub apply_env_files : List FileRead → OwnedEnv → EnvApplyDiff × OwnedEnv
unfolding sync_env merge_files read_files
apply_env_files files s =
    if ltb 0 (length files) && not (ltb 0 (length (read_files files)))
    then (unchanged [], s)
    else sync_env (read_files files) (merge_files files []) s
