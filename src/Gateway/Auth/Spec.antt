-- ===== src/Gateway/Auth/Spec.antt =====
-- What a verification without a cache answers, and the invariant of the caches that `getSecret` and
-- `cacheGet` keep.
use mathlib.Core.Path.{subst}
use tube.Common.{
  ℕ, zero, suc, ◌*◌, ◌≡◌, ◌⊎◌, inl, inr, refl, ap, sym, ◌∙◌, true, false, Bool-cases, Option-cases,
  Option, none, some, List, [], ◌∷◌, ◌++◌, arith, leb, length, if◌then◌else◌, text_eq, text_beq_iff,
}
use tube.Common.JsMap
use tube.Common.JsMap.{JsMap}
use tube.Common.Text.{Text, split}
use tube.Gateway.Auth.{
  Payload, VerifiedEntry, VerifyCache, AuthState, same_secret, evict_loop, get_secret, cache_get,
  Crypto, pad_base64, decode_payload,
}

-- What the loop of `cacheSet` leaves was there before.
pub get-evict_loop :
    (fuel max : ℕ) (token : Text) (e : VerifiedEntry) (cache : VerifyCache)
    → JsMap.get token (evict_loop fuel max cache) ≡ some e
    → JsMap.get token cache ≡ some e
unfolding evict_loop
get-evict_loop zero max token e cache h = h
get-evict_loop (suc fuel) max token e [] h = h
get-evict_loop (suc fuel) max token e ((k, f) ∷ cache) h =
    elim (Bool-cases (leb max (length ((k, f) ∷ cache)))) [
      | inl over ↦
          from_deleted k
            (get-evict_loop fuel max token e (JsMap.delete k ((k, f) ∷ cache)) (rw over at h))
      | inr fits ↦ rw fits at h
    ]
  where
    from_deleted :
        (k : Text)
        → JsMap.get token (JsMap.delete k ((k, f) ∷ cache)) ≡ some e
        → JsMap.get token ((k, f) ∷ cache) ≡ some e
    from_deleted k d = ground (arith, sym (JsMap.get-delete k token ((k, f) ∷ cache)) ∙ d)

module _ (crypto : Crypto) where
  open crypto use {Key, import_key, verify, atob, parse_payload}

  unfoldable pub authentic_parts : Text → List Text → Option Payload
  authentic_parts secret (header ∷ payload ∷ signature ∷ []) = elim (atob (pad_base64 signature)) [
    | none ↦ none
    | some bytes ↦
        if verify (import_key secret) bytes (header ++ b'.' ∷ payload)
        then decode_payload crypto payload
        else none
  ]
  authentic_parts secret parts = none

  -- The payload that a token carries under a secret, if its signature holds.
  unfoldable pub authentic : Text → Text → Option Payload
  unfolding authentic_parts
  authentic secret token = authentic_parts secret (split b'.' token)

  unfoldable pub unexpired : ℕ → Option Payload → Option Payload
  unexpired now none = none
  unexpired now (some p) = elim p.exp [
    | none ↦ none
    | some exp ↦ if leb (exp * 1000) now then none else some p
  ]

  -- A verification with no cache: the signature under the secret of the environment, and the expiry.
  unfoldable pub verify_afresh : Text → ℕ → Text → Option Payload
  unfolding authentic unexpired
  verify_afresh [] now token = none
  verify_afresh (c ∷ secret) now token = unexpired now (authentic (c ∷ secret) token)

  -- An entry of the cache is a verified token of the secret, with the expiry of its payload.
  pub record IsVerified (secret token : Text) (e : VerifiedEntry) : Type 0 where
    pub signed : authentic secret token ≡ some e.payload
    pub expiry : (exp : ℕ) × (e.payload.exp ≡ some exp) × (e.expires_at_ms ≡ exp * 1000)

  -- The caches belong to the cached secret.
  pub record IsSound (st : AuthState Key) : Type 0 where
    pub key :
        (k : Key)
        → st.cached_key ≡ some k
        → (s : Text) × (st.cached_secret ≡ some s) × (k ≡ import_key s)
    pub entries :
        (token : Text) (e : VerifiedEntry)
        → JsMap.get token st.verify_cache ≡ some e
        → (s : Text) × (st.cached_secret ≡ some s) × IsVerified s token e

  same_secret-eq : (o : Option Text) (s : Text) → same_secret o s ≡ true → o ≡ some s
  same_secret-eq none s h = cc
  same_secret-eq (some t) s h = ap some ((text_beq_iff t s).0 h)

  pub get_secret-IsSound :
      (current : Text) (st : AuthState Key)
      → IsSound st
      → IsSound (get_secret current st) × ((get_secret current st).cached_secret ≡ some current)
  unfolding get_secret
  get_secret-IsSound current st h = elim (Bool-cases (same_secret st.cached_secret current)) [
    | inl same ↦ rw same (h, same_secret-eq st.cached_secret current same)
    | inr other ↦ rw other (record { key = λ k e. cc; entries = JsMap.Every-empty _ }, refl)
  ]

  pub live_hit :
      (secret token : Text) (now : ℕ) (hit : VerifiedEntry)
      → IsVerified secret token hit
      → leb hit.expires_at_ms now ≡ false
      → some hit.payload ≡ unexpired now (authentic secret token)
  unfolding unexpired
  live_hit secret token now hit v live = rw v.signed (ground (arith, v.expiry.1, v.expiry.2))

  pub of_secret :
      (secret token : Text) (o : Option Text) (hit : VerifiedEntry)
      → o ≡ some secret
      → ((s : Text) × (o ≡ some s) × IsVerified s token hit)
      → IsVerified secret token hit
  of_secret secret token o hit same (s, is_s, v) =
      let e : s ≡ secret = cc in subst (λ t. IsVerified t token hit) e v

  -- What the cache answers is a verified payload that has not expired.
  pub cache_get_lem :
      (secret token : Text) (now : ℕ) (st : AuthState Key)
      → IsSound st
      → st.cached_secret ≡ some secret
      → IsSound (cache_get token now st).1
        × ((cache_get token now st).1.cached_secret ≡ some secret)
        × ((cache_get token now st).1.cached_key ≡ st.cached_key)
        × (((cache_get token now st).0 ≡ none)
            ⊎ ((cache_get token now st).0 ≡ unexpired now (authentic secret token)))
  unfolding cache_get
  cache_get_lem secret token now st h same = elim (Option-cases (JsMap.get token st.verify_cache)) [
    | inl absent ↦ rw (absent, cache_get) (h, same, refl, inl refl)
    | inr (hit, found) ↦ elim (Bool-cases (leb hit.expires_at_ms now)) [
      | inl stale ↦
          rw (found, cache_get, stale)
            (
              record {
                key = h.key;
                entries = JsMap.Every-delete _ token st.verify_cache h.entries;
              },
              same,
              refl,
              inl refl,
            )
      | inr live ↦
          rw (found, cache_get, live)
            (
              record {
                key = h.key;
                entries =
                    JsMap.Every-set _ token hit _ (h.entries token hit found)
                      (JsMap.Every-delete _ token st.verify_cache h.entries);
              },
              same,
              refl,
              inr (
                  live_hit secret token now hit
                    (of_secret secret token st.cached_secret hit same (h.entries token hit found))
                    live),
            )
    ]
  ]
