-- ===== src/Gateway/Auth/Sound.antt =====
-- The cache changes nothing: `verifyToken` answers what a verification without a cache would.
use tube.Common.{
  ℕ, ◌+◌, ◌*◌, ◌≡◌, ◌⊎◌, inl, inr, refl, sym, ◌∙◌, true, false, Bool-cases, Option-cases, Option,
  none, some, List, [], ◌∷◌, ◌++◌, arith, leb, length, if◌then◌else◌, text_eq,
}
use tube.Common.JsMap
use tube.Common.JsMap.{JsMap}
use tube.Common.Text.{Text, split}
use tube.Gateway.Auth.{
  Payload, AuthState, get_secret, cache_get, cache_set, Crypto, pad_base64, check_with, has_three,
  await_key, after_cache, start, resume_import, accept_payload, decode_payload, resume_check,
  finish_check, finish, verify_token,
}
use tube.Gateway.Auth.Spec.{
  authentic_parts, authentic, unexpired, verify_afresh, IsSound, get_secret-IsSound, cache_get_lem,
  get-evict_loop,
}

module _ (crypto : Crypto) where
  open crypto use {Key, import_key, verify, atob, parse_payload}

  cache_set-IsSound :
      (secret token : Text) (p : Payload) (exp : ℕ) (st : AuthState Key)
      → IsSound crypto st
      → st.cached_secret ≡ some secret
      → authentic crypto secret token ≡ some p
      → p.exp ≡ some exp
      → IsSound crypto (cache_set token p exp st)
  unfolding cache_set
  cache_set-IsSound secret token p exp st h same signed expires = record {
    key = h.key;
    entries =
        JsMap.Every-set _ token _ _
          (secret, same, record { signed = signed; expiry = (exp, expires, refl) })
          (λ t e found. h.entries t e (
            get-evict_loop (length st.verify_cache) st.verify_cache_max t e st.verify_cache found));
  }

  unexpired-none : (now : ℕ) (p : Payload) → p.exp ≡ none → unexpired crypto now (some p) ≡ none
  unfolding unexpired
  unexpired-none now p e = ground arith

  unexpired_past :
      (now exp : ℕ) (p : Payload)
      → p.exp ≡ some exp
      → leb (exp * 1000) now ≡ true
      → unexpired crypto now (some p) ≡ none
  unfolding unexpired
  unexpired_past now exp p e past = ground arith

  unexpired_live :
      (now exp : ℕ) (p : Payload)
      → p.exp ≡ some exp
      → leb (exp * 1000) now ≡ false
      → unexpired crypto now (some p) ≡ some p
  unfolding unexpired
  unexpired_live now exp p e live = ground arith

  accept_payload_lem :
      (secret token : Text) (now : ℕ) (exp : Option ℕ) (p : Payload) (st : AuthState Key)
      → p.exp ≡ exp
      → IsSound crypto st
      → st.cached_secret ≡ some secret
      → authentic crypto secret token ≡ some p
      → IsSound crypto (accept_payload crypto token now exp p st).1
        × ((accept_payload crypto token now exp p st).0 ≡ unexpired crypto now (some p))
  unfolding accept_payload
  accept_payload_lem secret token now none p st e h same signed = (h, sym (unexpired-none now p e))
  accept_payload_lem secret token now (some exp) p st e h same signed =
      elim (Bool-cases (leb (exp * 1000) now)) [
        | inl past ↦ rw past (h, sym (unexpired_past now exp p e past))
        | inr live ↦ rw live (
          cache_set-IsSound secret token p exp st h same signed e,
          sym (unexpired_live now exp p e live),
        )
      ]

  resume_check_lem :
      (secret token header payload : Text) (now : ℕ) (bytes : List ℕ) (st : AuthState Key)
      → IsSound crypto st
      → st.cached_secret ≡ some secret
      → authentic crypto secret token ≡ (
          if verify (import_key secret) bytes (header ++ b'.' ∷ payload)
          then decode_payload crypto payload
          else none)
      → IsSound crypto
          (resume_check crypto
            (import_key secret)
            bytes
            (header ++ b'.' ∷ payload)
            payload
            token
            now
            st).1
        × ((resume_check crypto
              (import_key secret)
              bytes
              (header ++ b'.' ∷ payload)
              payload
              token
              now
              st).0
            ≡ unexpired crypto now (authentic crypto secret token))
  unfolding resume_check
  resume_check_lem secret token header payload now bytes st h same signed =
      elim (Bool-cases (verify (import_key secret) bytes (header ++ b'.' ∷ payload))) [
        | inl good ↦ elim (Option-cases (decode_payload crypto payload)) [
          | inl garbled ↦
              let e : authentic crypto secret token ≡ none = signed ∙ rw (good, garbled) refl in
              rw (good, garbled, e) (h, unfold unexpired in refl)
          | inr (p, decoded) ↦
              let e : authentic crypto secret token ≡ some p = signed ∙ rw (good, decoded) refl in
              rw (good, decoded, e) (accept_payload_lem secret token now p.exp p st refl h same e)
        ]
        | inr bad ↦
            let e : authentic crypto secret token ≡ none = signed ∙ rw bad refl in
            rw (bad, e) (h, unfold unexpired in refl)
      ]

  pub malformed :
      (secret token : Text) (now : ℕ) (parts : List Text)
      → split b'.' token ≡ parts
      → authentic_parts crypto secret parts ≡ none
      → unexpired crypto now (authentic crypto secret token) ≡ none
  unfolding authentic
  malformed secret token now parts e bad = rw (e, bad) (unfold unexpired in refl)

  pub not_three_none :
      (secret : Text) (parts : List Text)
      → has_three crypto parts ≡ false
      → authentic_parts crypto secret parts ≡ none
  unfolding has_three authentic_parts
  not_three_none secret (a ∷ b ∷ c ∷ []) h = cc
  not_three_none secret parts h = refl

  pub finish_check_with :
      (secret token : Text) (now : ℕ) (parts : List Text) (st : AuthState Key)
      → split b'.' token ≡ parts
      → IsSound crypto st
      → st.cached_secret ≡ some secret
      → IsSound crypto
          (finish_check crypto (check_with crypto (import_key secret) parts token now) st).1
        × ((finish_check crypto (check_with crypto (import_key secret) parts token now) st).0
            ≡ unexpired crypto now (authentic crypto secret token))
  unfolding finish_check check_with authentic_parts
  finish_check_with secret token now (header ∷ payload ∷ signature ∷ []) st e h same =
      elim (Option-cases (atob (pad_base64 signature))) [
        | inl garbled ↦
            let none_signed : authentic crypto secret token ≡ none =
              unfold authentic in rw (e, garbled, authentic_parts) refl in
            rw (garbled, check_with, none_signed) (h, unfold unexpired in refl)
        | inr (bytes, decoded) ↦
            rw (decoded, check_with)
              (resume_check_lem secret token header payload now bytes st h same
                (unfold authentic in rw (e, decoded, authentic_parts) refl))
      ]
  finish_check_with secret token now parts st e h same =
      (h, sym (malformed secret token now parts e refl))

  pub finish-check_with :
      (key : Key) (parts : List Text) (token : Text) (now : ℕ) (st : AuthState Key)
      → finish crypto (check_with crypto key parts token now) st
        ≡ finish_check crypto (check_with crypto key parts token now) st
  unfolding finish check_with
  finish-check_with key (header ∷ payload ∷ signature ∷ []) token now st =
      elim (Option-cases (atob (pad_base64 signature))) [
        | inl garbled ↦ rw (garbled, check_with) refl
        | inr (bytes, decoded) ↦ rw (decoded, check_with) refl
      ]
  finish-check_with key parts token now st = refl

  own_key :
      (s secret : Text) (o : Option Text) (key : Key)
      → o ≡ some s
      → o ≡ some secret
      → key ≡ import_key s
      → key ≡ import_key secret
  own_key s secret o key p q k = cc

  same_key : (k : Key) {j : Key} → some j ≡ some k → k ≡ j
  same_key k e = cc

  finish-await_key :
      (secret token : Text) (now : ℕ) (o : Option Key) (st : AuthState Key)
      → st.cached_key ≡ o
      → IsSound crypto st
      → st.cached_secret ≡ some secret
      → IsSound crypto (finish crypto (await_key crypto o secret token now) st).1
        × ((finish crypto (await_key crypto o secret token now) st).0
            ≡ unexpired crypto now (authentic crypto secret token))
  unfolding await_key finish resume_import
  finish-await_key secret token now (some key) st e h same =
      let (s, is_s, k) = h.key key e in
      let own : key ≡ import_key secret = own_key s secret st.cached_secret key is_s same k in
      rw (finish-check_with, own)
        (finish_check_with secret token now (split b'.' token) st refl h same)
  finish-await_key secret token now none st e h same =
      finish_check_with secret token now (split b'.' token)
        (record st { cached_key = some (import_key secret) }) refl
        (record { key = λ k found. (secret, same, same_key k found); entries = h.entries }) same

  finish-after_cache :
      (secret token : Text) (now : ℕ) (cached : Option Payload) (st : AuthState Key)
      → IsSound crypto st
      → st.cached_secret ≡ some secret
      → (cached ≡ none) ⊎ (cached ≡ unexpired crypto now (authentic crypto secret token))
      → IsSound crypto
          (finish crypto
            (after_cache crypto cached secret token now st).0
            (after_cache crypto cached secret token now st).1).1
        × ((finish crypto
              (after_cache crypto cached secret token now st).0
              (after_cache crypto cached secret token now st).1).0
            ≡ unexpired crypto now (authentic crypto secret token))
  unfolding after_cache
  finish-after_cache secret token now (some p) st h same (inl e) = absurd (ground arith)
  finish-after_cache secret token now (some p) st h same (inr e) =
      (unfold finish finish_check in h, unfold finish finish_check in e)
  finish-after_cache secret token now none st h same answer =
      elim (Bool-cases (has_three crypto (split b'.' token))) [
        | inl three ↦ rw three (
            finish-await_key secret token now st.cached_key (record st { misses = st.misses + 1 })
              refl (record { key = h.key; entries = h.entries }) same)
        | inr odd ↦ rw odd (
            unfold finish finish_check in
            (
              record { key = h.key; entries = h.entries },
              sym (
                  malformed secret token now (split b'.' token) refl
                    (not_three_none secret (split b'.' token) odd)),
            ))
      ]

  -- With no other request between its parts, `verifyToken` keeps the cache sound and answers what a
  -- verification without a cache answers: the payload signed under the secret of the environment
  -- and not yet expired, or nothing.
  pub verify_token-verify_afresh :
      (secret token : Text) (now : ℕ) (st : AuthState Key)
      → IsSound crypto st
      → IsSound crypto (verify_token crypto secret now token st).1
        × ((verify_token crypto secret now token st).0 ≡ verify_afresh crypto secret now token)
  unfolding verify_token start verify_afresh
  verify_token-verify_afresh [] token now st h = (
    unfold finish finish_check in (get_secret-IsSound crypto [] st h).0,
    unfold finish finish_check in refl,
  )
  verify_token-verify_afresh (c ∷ secret) token now st h =
      let (sound, same) = get_secret-IsSound crypto (c ∷ secret) st h in
      let (sound', same', key, answer) =
        cache_get_lem crypto (c ∷ secret) token now (get_secret (c ∷ secret) st) sound same in
      finish-after_cache (c ∷ secret) token now (cache_get token now (get_secret (c ∷ secret) st)).0
        (cache_get token now (get_secret (c ∷ secret) st)).1 sound' same' answer
