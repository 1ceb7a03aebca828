-- ===== src/EnvFile/Sync/Applied.antt =====
-- What the environment holds after `applyEnvFiles`, key by key.
use tube.Common.{
  ◌≡◌, refl, sym, ◌∙◌, Bool, true, false, not, ◌&&◌, Option, none, some, List, [], ◌∷◌, ltb,
  if◌then◌else◌, length, ◌==◌, text_eq, text_beq_iff, beq_self, arith,
}
use tube.Common.JsMap
use tube.Common.JsMap.{JsMap}
use tube.Common.Sets.{member, member-keys}
use tube.Common.Text.{Text}
use tube.EnvFile.{parse_env_file}
use tube.EnvFile.Sync.{
  FileRead, OwnedEnv, unchanged, merge_files, read_files, push_one, push_values, drop_owned,
  sync_env, apply_env_files,
}

-- The value that a key has after an apply: what the files give it, nothing where only the files of
-- the last apply had it, and else what it was.
abbrev pub settled : Option Text → Bool → Option Text → Option Text
settled (some v) owned before = some v
settled none true before = none
settled none false before = before

get-push_one :
    (key value k : Text) (prev : Option Text) (env : JsMap Text Text)
    → JsMap.get key env ≡ prev
    → JsMap.get k (push_one key value prev env).0
      ≡ (if key == k then some value else JsMap.get k env)
unfolding push_one
get-push_one key value k none env h = JsMap.get-set key k value env
get-push_one key value k (some prev) env h =
    ground (arith, JsMap.get-set key k value env, text_beq_iff prev value, text_beq_iff key k)

get-push_values :
    (k : Text) (m env : JsMap Text Text)
    → JsMap.IsDistinct m
    → JsMap.get k (push_values m env).0 ≡ settled (JsMap.get k m) false (JsMap.get k env)
unfolding push_values JsMap.get
get-push_values k [] env d = refl
get-push_values k ((key, value) ∷ m) env (absent, d) = ground (
  arith,
  get-push_values k m (push_one key value (JsMap.get key env) env).0 d,
  get-push_one key value k (JsMap.get key env) env refl,
  text_beq_iff key k,
  absent,
)

get-drop_owned :
    (k : Text) (keys : List Text) (m env : JsMap Text Text)
    → JsMap.get k (drop_owned keys m env).0
      ≡ (if member k keys && not (JsMap.has k m) then none else JsMap.get k env)
unfolding drop_owned member
get-drop_owned k [] m env = refl
get-drop_owned k (key ∷ keys) m env = ground (
  arith,
  get-drop_owned k keys m env,
  get-drop_owned k keys m (JsMap.delete key env),
  JsMap.get-delete key k env,
  text_beq_iff key k,
)

merge_content-IsDistinct :
    (content : Option Text) (files : List FileRead) (path : Text) (merged : JsMap Text Text)
    → ((m : JsMap Text Text) → JsMap.IsDistinct m → JsMap.IsDistinct (merge_files files m))
    → JsMap.IsDistinct merged
    → JsMap.IsDistinct (merge_files (record { path = path; content = content } ∷ files) merged)
unfolding merge_files
merge_content-IsDistinct none files path merged ih d = ih merged d
merge_content-IsDistinct (some text) files path merged ih d =
    ih (JsMap.set_all (parse_env_file text) merged)
      (JsMap.set_all-IsDistinct (parse_env_file text) merged d)

merge_files-IsDistinct :
    (files : List FileRead) (merged : JsMap Text Text)
    → JsMap.IsDistinct merged
    → JsMap.IsDistinct (merge_files files merged)
unfolding merge_files
merge_files-IsDistinct [] merged d = d
merge_files-IsDistinct (f ∷ files) merged d =
    merge_content-IsDistinct f.content files f.path merged (merge_files-IsDistinct files) d

merged-IsDistinct : (files : List FileRead) → JsMap.IsDistinct (merge_files files [])
merged-IsDistinct files = merge_files-IsDistinct files [] tt

-- If at least one file was read, a key has after `applyEnvFiles` the value that the files give it;
-- a key that they no longer give is gone if they gave it at the last apply, and keeps its value
-- otherwise.
pub apply_env_files-settled :
    (files : List FileRead) (s : OwnedEnv) (k : Text)
    → ltb 0 (length (read_files files)) ≡ true
    → JsMap.get k (apply_env_files files s).1.env
      ≡ settled (JsMap.get k (merge_files files [])) (member k s.owned_keys) (JsMap.get k s.env)
unfolding apply_env_files sync_env JsMap.has
apply_env_files-settled files s k h = ground (
  arith,
  get-drop_owned k s.owned_keys (merge_files files []) (push_values (merge_files files []) s.env).0,
  get-push_values k (merge_files files []) s.env (merged-IsDistinct files),
)

push_values-same :
    (m env : JsMap Text Text)
    → JsMap.IsDistinct m
    → JsMap.Every (λ k v. JsMap.get k env ≡ some v) m
    → push_values m env ≡ (env, [], [])
unfolding push_values push_one JsMap.get
push_values-same [] env d e = refl
push_values-same ((key, value) ∷ m) env (absent, d) e =
    let same : JsMap.get key env ≡ some value = e key value (ground (arith, beq_self key)) in
    let rest = push_values-same m env d (λ k v h. e k v (ground (arith, text_beq_iff key k))) in
    ground (arith, beq_self value)

drop_owned-kept :
    (keys : List Text) (m env : JsMap Text Text)
    → ((k : Text) → member k keys ≡ true → JsMap.has k m ≡ true)
    → drop_owned keys m env ≡ (env, [])
unfolding drop_owned member
drop_owned-kept [] m env h = refl
drop_owned-kept (key ∷ keys) m env h =
    let kept : JsMap.has key m ≡ true = h key (ground (arith, beq_self key)) in
    let rest = drop_owned-kept keys m env (λ k i. h k (ground arith)) in rw (kept, drop_owned) rest

given :
    (files : List FileRead) (s : OwnedEnv)
    → ltb 0 (length (read_files files)) ≡ true
    → JsMap.Every
        (λ k v. JsMap.get k (apply_env_files files s).1.env ≡ some v)
        (merge_files files [])
given files s h k v e = apply_env_files-settled files s k h ∙ ground (arith, e)

owned_after :
    (files : List FileRead) (s : OwnedEnv)
    → ltb 0 (length (read_files files)) ≡ true
    → (apply_env_files files s).1.owned_keys ≡ JsMap.keys (merge_files files [])
unfolding apply_env_files sync_env
owned_after files s h = ground arith

sync_env-same :
    (files : List Text) (m : JsMap Text Text) (s : OwnedEnv)
    → JsMap.IsDistinct m
    → JsMap.Every (λ k v. JsMap.get k s.env ≡ some v) m
    → s.owned_keys ≡ JsMap.keys m
    → sync_env files m s ≡ (unchanged files, s)
unfolding sync_env
sync_env-same files m s d e o =
    let pushed = push_values-same m s.env d e in
    let kept = drop_owned-kept s.owned_keys m s.env (λ k i. sym (member-keys k m) ∙ (rw (← o) i)) in
    rw (pushed, kept, ← o) refl

-- A second `applyEnvFiles` on files with the same contents reports no change and changes nothing.
pub apply_env_files-again :
    (files : List FileRead) (s : OwnedEnv)
    → ltb 0 (length (read_files files)) ≡ true
    → apply_env_files files (apply_env_files files s).1
      ≡ (unchanged (read_files files), (apply_env_files files s).1)
apply_env_files-again files s h =
    let after = (apply_env_files files s).1 in
    let same =
      sync_env-same (read_files files) (merge_files files []) after (merged-IsDistinct files)
        (given files s h) (owned_after files s h) in
    unfold apply_env_files in ground (arith, same)
