-- ===== src/Gateway/Auth/Cache.antt =====
-- The cache of verified payloads: `cacheGet`, `cacheSet`, `getSecret`, and the setting of its size.
use tube.Common.{
  ℕ, zero, suc, ◌+◌, ◌*◌, Bool, false, Option, none, some, [], ◌∷◌, leb, ltb, if◌then◌else◌, length,
  ◌==◌, text_eq,
}
use tube.Common.JsMap
use tube.Common.JsMap.{JsMap}
use tube.Common.Text.{Text}

-- The claims that the gateway reads. `exp` is a whole number of seconds, `none` where the payload
-- has no number there.
pub record Payload : Type 0 where
  pub sub : Text
  pub email : Text
  pub role : Text
  pub exp : Option ℕ

pub record VerifiedEntry : Type 0 where
  pub payload : Payload
  pub expires_at_ms : ℕ

abbrev pub VerifyCache : Type 0
VerifyCache = JsMap Text VerifiedEntry

-- The variables of the module. `cached_secret` is `none` for `null`.
pub record AuthState (Key : Type 0) : Type 0 where
  pub cached_key : Option Key
  pub cached_secret : Option Text
  pub verify_cache : VerifyCache
  pub verify_cache_max : ℕ
  pub hits : ℕ
  pub misses : ℕ

abbrev pub same_secret : Option Text → Text → Bool
same_secret none current = false
same_secret (some s) current = s == current

-- The loop of `cacheSet`: while the map has `max` entries or more, the oldest goes. `fuel` is the
-- number of entries, since each round takes one.
unfoldable pub evict_loop : ℕ → ℕ → VerifyCache → VerifyCache
evict_loop zero max cache = cache
evict_loop (suc fuel) max [] = []
evict_loop (suc fuel) max ((k, e) ∷ cache) =
    let rest = evict_loop fuel max (JsMap.delete k ((k, e) ∷ cache)) in
    if leb max (length ((k, e) ∷ cache)) then rest else (k, e) ∷ cache

module _ {Key : Type 0} where
  -- `getSecret`: the secret of the environment, with the caches dropped when it has changed.
  unfoldable pub get_secret : Text → AuthState Key → AuthState Key
  get_secret current st =
      if same_secret st.cached_secret current
      then st
      else record st { cached_secret = some current; cached_key = none; verify_cache = [] }

  unfoldable pub cache_get : Text → ℕ → AuthState Key → Option Payload × AuthState Key
  cache_get token now st = elim (JsMap.get token st.verify_cache) [
    | none ↦ (none, st)
    | some hit ↦
        if leb hit.expires_at_ms now
        then (none, record st { verify_cache = JsMap.delete token st.verify_cache })
        else (
          some hit.payload,
          record st {
            verify_cache = JsMap.set token hit (JsMap.delete token st.verify_cache);
            hits = st.hits + 1;
          },
        )
  ]

  unfoldable pub cache_set : Text → Payload → ℕ → AuthState Key → AuthState Key
  unfolding evict_loop
  cache_set token payload exp st =
      let room = evict_loop (length st.verify_cache) st.verify_cache_max st.verify_cache in
      record st {
        verify_cache =
            JsMap.set token (record { payload = payload; expires_at_ms = exp * 1000 }) room;
      }

  -- `_setVerifyCacheMaxForTests`, for a whole number: `size > max` is `size >= max + 1`.
  unfoldable pub set_verify_cache_max : ℕ → AuthState Key → AuthState Key
  unfolding evict_loop
  set_verify_cache_max max st =
      let cap = if ltb max 1 then 1 else max in
      record st {
        verify_cache_max = cap;
        verify_cache = evict_loop (length st.verify_cache) (suc cap) st.verify_cache;
      }
