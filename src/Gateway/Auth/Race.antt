-- ===== src/Gateway/Auth/Race.antt =====
-- What a change of `JWT_SECRET` does to a verification that is waiting. `getSecret` drops the caches
-- at the change, and the verification writes to them afterwards.
use tube.Common.{
  ℕ, ◌+◌, ◌*◌, ◌≡◌, ◌≢◌, refl, ap, sym, ◌∙◌, true, false, Bool-cases, Option-cases, inl, inr,
  Option, none, some, List, [], ◌∷◌, arith, leb, text_eq, text_beq_iff, beq_self,
}
use tube.Common.JsMap
use tube.Common.Text.{Text, split}
use tube.Gateway.Auth.{
  Payload, AuthState, get_secret, cache_get, cache_set, Crypto, Task, finished, importing, checking,
  check_with, has_three, await_key, after_cache, start, resume_import, accept_payload,
  decode_payload, resume_check, finish_check, finish, verify_token,
}
use tube.Gateway.Auth.Spec.{IsSound, verify_afresh}
use tube.Gateway.Auth.Sound.{finish_check_with, not_three_none, malformed, finish-check_with}

get_secret_kept :
    {Key : Type 0} (secret : Text) (st : AuthState Key)
    → st.cached_secret ≡ some secret
    → get_secret secret st ≡ st
unfolding get_secret
get_secret_kept secret st h = ground (arith, text_beq_iff secret secret)

get_secret_now :
    {Key : Type 0} (secret : Text) (st : AuthState Key)
    → (get_secret secret st).cached_secret ≡ some secret
unfolding get_secret
get_secret_now secret st = elim (Option-cases st.cached_secret) [
  | inl unset ↦ rw (unset, get_secret) refl
  | inr (old, set) ↦ ground (arith, text_beq_iff old secret)
]

get_secret_empties :
    {Key : Type 0} (secret old : Text) (st : AuthState Key)
    → st.cached_secret ≡ some old
    → old ≢ secret
    → (get_secret secret st).verify_cache ≡ []
unfolding get_secret
get_secret_empties secret old st was differ = ground (arith, text_beq_iff old secret)

module _ (crypto : Crypto) where
  open crypto use {Key, import_key, verify, atob, parse_payload}

  -- The state right after a token was cached answers for the token until it expires.
  cache_get-cache_set :
      (token : Text) (p : Payload) (exp later : ℕ) (st : AuthState Key)
      → leb (exp * 1000) later ≡ false
      → (cache_get token later (cache_set token p exp st)).0 ≡ some p
  unfolding cache_get cache_set
  cache_get-cache_set token p exp later st live =
      rw (JsMap.get-set, beq_self token, cache_get) (rw live refl)

  verify_token_cached :
      (c : ℕ) (secret token : Text) (p : Payload) (later : ℕ) (st : AuthState Key)
      → st.cached_secret ≡ some (c ∷ secret)
      → (cache_get token later st).0 ≡ some p
      → (verify_token crypto (c ∷ secret) later token st).0 ≡ some p
  unfolding verify_token start
  verify_token_cached c secret token p later st same hit =
      rw (get_secret_kept (c ∷ secret) st same, hit)
        (unfold after_cache finish finish_check in refl)

  accept_cached :
      (token : Text) (now exp : ℕ) (o : Option ℕ) (p : Payload) (st : AuthState Key)
      → o ≡ some exp
      → leb (exp * 1000) now ≡ false
      → (accept_payload crypto token now o p st).1 ≡ cache_set token p exp st
  unfolding accept_payload
  accept_cached token now exp none p st e live = absurd (ground arith)
  accept_cached token now exp (some x) p st e live = let same : x ≡ exp = cc in rw (same, live) refl

  accept_only :
      (token : Text) (now : ℕ) (o : Option ℕ) (p : Payload) (st st' : AuthState Key)
      → (accept_payload crypto token now o p st).0 ≡ (accept_payload crypto token now o p st').0
  unfolding accept_payload
  accept_only token now none p st st' = refl
  accept_only token now (some x) p st st' = ground arith

  resume_check_cached :
      (token payload signed : Text) (bytes : List ℕ) (p : Payload) (key : Key) (exp now : ℕ)
      (st : AuthState Key)
      → verify key bytes signed ≡ true
      → decode_payload crypto payload ≡ some p
      → p.exp ≡ some exp
      → leb (exp * 1000) now ≡ false
      → (resume_check crypto key bytes signed payload token now st).1 ≡ cache_set token p exp st
  unfolding resume_check
  resume_check_cached token payload signed bytes p key exp now st good decoded expires live =
      rw (good, decoded) (accept_cached token now exp p.exp p st expires live)

  -- A check that was waiting when the secret changed still puts its token into the cache, and the
  -- token is then accepted under the new secret, whatever a check under that secret would say.
  pub stale_token-accepted :
      (c : ℕ) (new old token payload signed : Text) (bytes : List ℕ) (p : Payload)
      (exp now later : ℕ) (st : AuthState Key)
      → verify (import_key old) bytes signed ≡ true
      → decode_payload crypto payload ≡ some p
      → p.exp ≡ some exp
      → leb (exp * 1000) now ≡ false
      → leb (exp * 1000) later ≡ false
      → (verify_token crypto
          (c ∷ new)
          later
          token
          (resume_check crypto
            (import_key old)
            bytes
            signed
            payload
            token
            now
            (get_secret (c ∷ new) st)).1).0
        ≡ some p
  stale_token-accepted c new old token payload signed bytes p exp now later st good decoded expires
        live live' =
      rw
        (resume_check_cached token payload signed bytes p (import_key old) exp now
          (get_secret (c ∷ new) st) good decoded expires live)
        (verify_token_cached c new token p later (cache_set token p exp (get_secret (c ∷ new) st))
          (unfold cache_set in get_secret_now (c ∷ new) st)
          (cache_get-cache_set token p exp later (get_secret (c ∷ new) st) live'))

  answer_only :
      (task : Task crypto) (st st' : AuthState Key)
      → (finish_check crypto task st).0 ≡ (finish_check crypto task st').0
  unfolding finish_check resume_check
  answer_only (finished r) st st' = refl
  answer_only (importing secret token now) st st' = refl
  answer_only (checking key bytes signed payload token now) st st' =
      elim (Bool-cases (verify key bytes signed)) [
        | inl good ↦ elim (Option-cases (decode_payload crypto payload)) [
          | inl garbled ↦ rw (good, garbled) refl
          | inr (p, decoded) ↦ rw (good, decoded) (accept_only token now p.exp p st st')
        ]
        | inr bad ↦ rw bad refl
      ]

  empty_state : Text → AuthState Key
  empty_state secret = record {
    cached_key = none;
    cached_secret = some secret;
    verify_cache = [];
    verify_cache_max = 1;
    hits = 0;
    misses = 0;
  }

  empty_state-IsSound : (secret : Text) → IsSound crypto (empty_state secret)
  unfolding empty_state
  empty_state-IsSound secret = record {
    key = λ k e. absurd (ground arith);
    entries = JsMap.Every-empty _;
  }

  cache_get_empty :
      (token : Text) (now : ℕ) (st : AuthState Key)
      → st.verify_cache ≡ []
      → cache_get token now st ≡ (none, st)
  unfolding cache_get
  cache_get_empty token now st e = rw (no_hit, cache_get) refl
    where
      no_hit : JsMap.get token st.verify_cache ≡ none
      no_hit = ap (JsMap.get token) e ∙ unfold JsMap.get in refl

  -- With the key of another secret and an empty cache.
  wrong_key :
      (c d : ℕ) (new old token : Text) (later : ℕ) (st : AuthState Key)
      → st.cached_secret ≡ some (c ∷ new)
      → st.cached_key ≡ some (import_key (d ∷ old))
      → st.verify_cache ≡ []
      → (verify_token crypto (c ∷ new) later token st).0
        ≡ verify_afresh crypto (d ∷ old) later token
  unfolding verify_token start verify_afresh after_cache
  wrong_key c d new old token later st same key empty =
      rw (get_secret_kept (c ∷ new) st same, cache_get_empty token later st empty)
        (elim (Bool-cases (has_three crypto (split b'.' token))) [
          | inl three ↦
              rw (three, key)
                (unfold await_key in
                  rw finish-check_with (
                    answer_only
                      (check_with crypto (import_key (d ∷ old)) (split b'.' token) token later)
                      (record st {
                        cached_key = some (import_key (d ∷ old));
                        misses = st.misses + 1;
                      })
                      (empty_state (d ∷ old))
                    ∙ (finish_check_with crypto (d ∷ old) token later (split b'.' token)
                        (empty_state (d ∷ old)) refl (empty_state-IsSound (d ∷ old))
                        (unfold empty_state in refl)).1))
          | inr odd ↦ rw odd (
              unfold finish finish_check in
              sym (
                malformed crypto (d ∷ old) token later (split b'.' token) refl
                  (not_three_none crypto (d ∷ old) (split b'.' token) odd)))
        ])

  -- An import of the key that was waiting when the secret changed stores the old key beside the new
  -- secret: from then on, with an empty cache, tokens are verified under the old secret.
  pub stale_key-verify_token :
      (c d : ℕ) (new old token waiting : Text) (now later : ℕ) (st : AuthState Key)
      → st.cached_secret ≡ some (d ∷ old)
      → d ∷ old ≢ c ∷ new
      → (verify_token crypto
          (c ∷ new)
          later
          token
          (resume_import crypto (d ∷ old) waiting now (get_secret (c ∷ new) st)).1).0
        ≡ verify_afresh crypto (d ∷ old) later token
  unfolding resume_import
  stale_key-verify_token c d new old token waiting now later st was differ =
      wrong_key c d new old token later
        (record (get_secret (c ∷ new) st) { cached_key = some (import_key (d ∷ old)) })
        (get_secret_now (c ∷ new) st) refl (get_secret_empties (c ∷ new) (d ∷ old) st was differ)
