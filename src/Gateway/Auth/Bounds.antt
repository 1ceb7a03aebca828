-- ===== src/Gateway/Auth/Bounds.antt =====
-- The size of the cache, and the text that is handed to `atob`.
use Prim.Native.Nat.{◌%◌}
use tube.Common.{
  ℕ, zero, suc, ◌+◌, ◌-◌, ◌*◌, ◌≤◌, ◌<◌, ◌≡◌, refl, Bool-cases, Option-cases, inl, inr, some, [],
  ◌∷◌, map, arith, leb, ltb, length, length-append, if◌then◌else◌, text_eq, lt_of_leb,
}
use tube.Common.JsMap
use tube.Common.JsMap.{IsDistinct}
use tube.Common.Text.{Text}
use tube.Gateway.Auth.{
  Payload, VerifiedEntry, VerifyCache, AuthState, evict_loop, get_secret, cache_get, cache_set,
  set_verify_cache_max, pad_base64, padding, url_code,
}

-- With as much fuel as there are entries, the loop ends below the limit (or with no entry), and
-- keeps the entries of the newest keys.
evict_loop_lem :
    (fuel max : ℕ) (cache : VerifyCache)
    → length cache ≤ fuel
    → 0 < max
    → IsDistinct cache
    → IsDistinct (evict_loop fuel max cache) × (length (evict_loop fuel max cache) < max)
unfolding evict_loop
evict_loop_lem zero max [] h pos d = (tt, pos)
evict_loop_lem zero max (e ∷ cache) h pos d = absurd (omega arith)
evict_loop_lem (suc fuel) max [] h pos d = (tt, pos)
evict_loop_lem (suc fuel) max ((k, e) ∷ cache) h pos d =
    elim (Bool-cases (leb max (length ((k, e) ∷ cache)))) [
      | inl over ↦
          rw (over, JsMap.delete_first k e cache d)
            (evict_loop_lem fuel max cache (omega arith) pos d.1)
      | inr fits ↦ rw fits (d, lt_of_leb _ _ fits)
    ]

-- The cache holds no token twice and at most its maximum, which is positive.
pub record IsBounded {Key : Type 0} (st : AuthState Key) : Type 0 where
  pub distinct : IsDistinct st.verify_cache
  pub size : length st.verify_cache ≤ st.verify_cache_max
  pub room : 0 < st.verify_cache_max

shorter :
    (token : Text) (hit : VerifiedEntry) (cache : VerifyCache)
    → JsMap.get token cache ≡ some hit
    → IsDistinct cache
    → length (JsMap.delete token cache) + 1 ≡ length cache
unfolding JsMap.has
shorter token hit cache found d = ground (arith, JsMap.length-delete token cache d)

bump_size :
    (token : Text) (hit : VerifiedEntry) (cache : VerifyCache) (max : ℕ)
    → JsMap.get token cache ≡ some hit
    → IsDistinct cache
    → length cache ≤ max
    → length (JsMap.set token hit (JsMap.delete token cache)) ≤ max
bump_size token hit cache max found d h = omega (
  arith,
  JsMap.length-set-le token hit (JsMap.delete token cache),
  shorter token hit cache found d,
)

module _ {Key : Type 0} where
  get_secret-IsBounded :
      (secret : Text) (st : AuthState Key) → IsBounded st → IsBounded (get_secret secret st)
  unfolding get_secret
  get_secret-IsBounded secret st h = ground arith

  cache_get-IsBounded :
      (token : Text) (now : ℕ) (st : AuthState Key)
      → IsBounded st
      → IsBounded (cache_get token now st).1
  unfolding cache_get
  cache_get-IsBounded token now st h = elim (Option-cases (JsMap.get token st.verify_cache)) [
    | inl absent ↦ rw (absent, cache_get) h
    | inr (hit, found) ↦
        let size = JsMap.length-delete token st.verify_cache h.distinct in
        let distinct = JsMap.delete-IsDistinct token st.verify_cache h.distinct in
        elim (Bool-cases (leb hit.expires_at_ms now)) [
          | inl stale ↦
              rw (found, cache_get, stale)
                (record { distinct = distinct; size = omega (arith, size, h.size); room = h.room })
          | inr live ↦
              rw (found, cache_get, live)
                (record {
                  distinct = JsMap.set-IsDistinct token hit _ distinct;
                  size =
                      bump_size token hit st.verify_cache st.verify_cache_max found h.distinct
                        h.size;
                  room = h.room;
                })
        ]
  ]

  cache_set-IsBounded :
      (token : Text) (p : Payload) (exp : ℕ) (st : AuthState Key)
      → IsBounded st
      → IsBounded (cache_set token p exp st)
  unfolding cache_set
  cache_set-IsBounded token p exp st h =
      let (distinct, below) =
        evict_loop_lem (length st.verify_cache) st.verify_cache_max st.verify_cache (omega arith)
          h.room h.distinct in
      record {
        distinct = JsMap.set-IsDistinct token _ _ distinct;
        size = omega (
          arith,
          below,
          JsMap.length-set-le token (record { payload = p; expires_at_ms = exp * 1000 })
              (evict_loop (length st.verify_cache) st.verify_cache_max st.verify_cache),
        );
        room = h.room;
      }

  set_verify_cache_max-IsBounded :
      (max : ℕ) (st : AuthState Key) → IsBounded st → IsBounded (set_verify_cache_max max st)
  unfolding set_verify_cache_max
  set_verify_cache_max-IsBounded max st h =
      let cap : ℕ = if ltb max 1 then 1 else max in
      let (distinct, below) =
        evict_loop_lem (length st.verify_cache) (suc cap) st.verify_cache (omega arith)
          (omega arith) h.distinct in
      record { distinct = distinct; size = omega (arith, below); room = ground arith }

  -- Every operation on the cache keeps it bounded: the rotation of the secret, a look-up, a store,
  -- and a change of the maximum.
  pub cache-IsBounded :
      (st : AuthState Key)
      → IsBounded st
      → ((secret : Text) → IsBounded (get_secret secret st))
        × ((token : Text) (now : ℕ) → IsBounded (cache_get token now st).1)
        × ((token : Text) (p : Payload) (exp : ℕ) → IsBounded (cache_set token p exp st))
        × ((max : ℕ) → IsBounded (set_verify_cache_max max st))
  cache-IsBounded st h = (
    λ secret. get_secret-IsBounded secret st h,
    λ token now. cache_get-IsBounded token now st h,
    λ token p exp. cache_set-IsBounded token p exp st h,
    λ max. set_verify_cache_max-IsBounded max st h,
  )

length-padding : (n : ℕ) → length (padding n) ≡ n
unfolding padding
length-padding zero = refl
length-padding (suc n) = omega (arith, length-padding n)

length-map : (f : ℕ → ℕ) (s : Text) → length (map f s) ≡ length s
length-map f [] = refl
length-map f (c ∷ s) = omega (arith, length-map f s)

-- `base64UrlDecode` pads every text to a multiple of four characters, by at most three.
pub length-pad_base64 :
    (s : Text)
    → (length (pad_base64 s) % 4 ≡ 0)
      × (length s ≤ length (pad_base64 s))
      × (length (pad_base64 s) ≤ length s + 3)
unfolding pad_base64
length-pad_base64 s =
    rw
      (
        length-append (map url_code s) (padding ((4 - length s % 4) % 4)),
        length-padding ((4 - length s % 4) % 4),
        length-map url_code s,
      )
      (omega arith, omega arith, omega arith)
