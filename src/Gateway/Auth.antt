-- ===== src/Gateway/Auth.antt =====
-- gateway/auth.ts: bearer tokens, the HMAC check and the cache of verified tokens. The module's
-- variables are one record, and the environment (`JWT_SECRET`, `SUPABASE_SERVICE_ROLE_KEY`) and the
-- clock are arguments. Web Crypto, `atob` and the decoding of a payload are parameters.
-- `verifyToken` waits twice, for the key and for the check, and other requests run meanwhile: it is
-- cut there into `start`, `resume_import` and `resume_check`.
mod Cache
pub mod Spec
pub mod Sound
pub mod Race
pub mod Bounds
pub mod Probe
mod Tests
unfoldable pub use Cache.*
use Prim.Native.Nat.{◌%◌}
use tube.Common.{
  ℕ, zero, suc, ◌+◌, ◌-◌, ◌*◌, Bool, true, false, ◌&&◌, ◌||◌, Option, none, some, List, [], ◌∷◌,
  ◌++◌, map, ltb, leb, eqb, if◌then◌else◌, length, drop, any, ◌==◌, text_eq,
}
use tube.Common.Text.{Text, codes, split, to_lower, starts_with, is_space, drop_while}

-- What the module calls and does not implement: `crypto.subtle.importKey` and `verify`, `atob`
-- (`none` where it throws), and `JSON.parse` of the decoded bytes (`none` where it throws).
pub record Crypto : Type 1 where
  pub Key : Type 0
  pub import_key : Text → Key
  pub verify : Key → List ℕ → Text → Bool
  pub atob : Text → Option (List ℕ)
  pub parse_payload : List ℕ → Option Payload

abbrev url_code : ℕ → ℕ
url_code c = if eqb c b'-' then b'+' else if eqb c b'_' then b'/' else c

unfoldable pub padding : ℕ → Text
padding zero = []
padding (suc n) = b'=' ∷ padding n

-- The text that `base64UrlDecode` hands to `atob`.
unfoldable pub pad_base64 : Text → Text
unfolding padding
pad_base64 str = map url_code str ++ padding ((4 - length str % 4) % 4)

abbrev is_line_end : ℕ → Bool
is_line_end c = eqb c 10 || eqb c 13 || eqb c 0x2028 || eqb c 0x2029

rest_of_line : Text → Option Text
rest_of_line [] = none
rest_of_line (c ∷ s) = if any is_line_end (c ∷ s) then none else some (c ∷ s)

-- `(.+)$` after a greedy `\s+`: what follows the spaces; where nothing does, the last of two or more.
blank_token : Text → Option Text
unfolding rest_of_line
blank_token [] = none
blank_token (c ∷ []) = none
blank_token (c ∷ d ∷ []) = rest_of_line (d ∷ [])
blank_token (c ∷ d ∷ s) = blank_token (d ∷ s)

token_or_blank : Text → Text → Option Text
unfolding rest_of_line blank_token
token_or_blank spaces [] = blank_token spaces
token_or_blank spaces (c ∷ s) = rest_of_line (c ∷ s)

after_bearer : Text → Option Text
unfolding token_or_blank
after_bearer [] = none
after_bearer (c ∷ s) =
    if is_space c then token_or_blank (c ∷ s) (drop_while is_space (c ∷ s)) else none

-- `/^Bearer\s+(.+)$/i`
unfoldable pub parse_bearer : Option Text → Option Text
unfolding after_bearer to_lower drop_while
parse_bearer none = none
parse_bearer (some header) =
    if starts_with (codes "bearer") (to_lower header) then after_bearer (drop 6 header) else none

pub record AuthContext : Type 0 where
  pub user_id : Text
  pub email : Text
  pub role : Text
  pub raw_token : Text

pub data RequestAuthProbe : Type 0 where
  ok : AuthContext → RequestAuthProbe
  missing invalid unavailable : RequestAuthProbe

module _ (crypto : Crypto) where
  open crypto use {Key, import_key, verify, atob, parse_payload}

  -- A verification that has answered, or that waits for the key or for the check.
  pub data Task : Type 0 where
    finished : Option Payload → Task
    importing : Text → Text → ℕ → Task
    checking : Key → List ℕ → Text → Text → Text → ℕ → Task

  -- The synchronous part between the key and the check: the signature is decoded.
  pub check_with : Key → List Text → Text → ℕ → Task
  check_with key (header ∷ payload ∷ signature ∷ []) token now =
      elim (atob (pad_base64 signature)) [
        | none ↦ finished none
        | some bytes ↦ checking key bytes (header ++ b'.' ∷ payload) payload token now
      ]
  check_with key parts token now = finished none

  pub has_three : List Text → Bool
  has_three (a ∷ b ∷ c ∷ []) = true
  has_three parts = false

  -- `getKey`, after `getSecret` has run.
  await_key : Option Key → Text → Text → ℕ → Task
  unfolding check_with
  await_key (some key) secret token now = check_with key (split b'.' token) token now
  await_key none secret token now = importing secret token now

  after_cache : Option Payload → Text → Text → ℕ → AuthState Key → Task × AuthState Key
  unfolding await_key has_three
  after_cache (some payload) secret token now st = (finished (some payload), st)
  after_cache none secret token now st = (
    (if has_three (split b'.' token)
        then await_key st.cached_key secret token now
        else finished none),
    record st { misses = st.misses + 1 },
  )

  -- `verifyToken` up to its first wait.
  pub start : Text → ℕ → Text → AuthState Key → Task × AuthState Key
  unfolding after_cache get_secret cache_get
  start [] now token st = (finished none, get_secret [] st)
  start (c ∷ secret) now token st =
      let (cached, st') = cache_get token now (get_secret (c ∷ secret) st) in
      after_cache cached (c ∷ secret) token now st'

  -- The key is there: `getKey` stores it, whatever the secret is by now.
  pub resume_import : Text → Text → ℕ → AuthState Key → Task × AuthState Key
  unfolding check_with
  resume_import secret token now st =
      let key = import_key secret in
      (check_with key (split b'.' token) token now, record st { cached_key = some key })

  accept_payload : Text → ℕ → Option ℕ → Payload → AuthState Key → Option Payload × AuthState Key
  unfolding cache_set
  accept_payload token now none payload st = (none, st)
  accept_payload token now (some exp) payload st =
      if leb (exp * 1000) now then (none, st) else (some payload, cache_set token payload exp st)

  pub decode_payload : Text → Option Payload
  decode_payload payload = elim (atob (pad_base64 payload)) [
    | none ↦ none
    | some bytes ↦ parse_payload bytes
  ]

  -- The check is done: the payload is decoded, its expiry tested, and the result cached.
  pub resume_check :
      Key → List ℕ → Text → Text → Text → ℕ → AuthState Key → Option Payload × AuthState Key
  unfolding accept_payload decode_payload
  resume_check key bytes signed payload token now st =
      if verify key bytes signed
      then elim (decode_payload payload) [
        | none ↦ (none, st)
        | some p ↦ accept_payload token now p.exp p st
      ]
      else (none, st)

  pub finish_check : Task → AuthState Key → Option Payload × AuthState Key
  unfolding resume_check
  finish_check (finished r) st = (r, st)
  finish_check (checking key bytes signed payload token now) st =
      resume_check key bytes signed payload token now st
  finish_check (importing secret token now) st = (none, st)

  pub finish : Task → AuthState Key → Option Payload × AuthState Key
  unfolding finish_check resume_import
  finish (importing secret token now) st =
      let (task, st') = resume_import secret token now st in finish_check task st'
  finish task st = finish_check task st

  -- `verifyToken` with no other request between its parts.
  pub verify_token : Text → ℕ → Text → AuthState Key → Option Payload × AuthState Key
  unfolding start finish
  verify_token secret now token st = let (task, st') = start secret now token st in finish task st'

  context_of : Text → Payload → AuthContext
  context_of token payload = record {
    user_id = payload.sub;
    email = payload.email;
    role = payload.role;
    raw_token = token;
  }

  service_role_auth : Text → AuthContext
  service_role_auth token = record {
    user_id = [];
    email = [];
    role = codes "service_role";
    raw_token = token;
  }

  is_service : Text → Text → Bool
  is_service [] token = false
  is_service (c ∷ key) token = token == (c ∷ key)

  verdict_of : Text → Option Payload → RequestAuthProbe
  unfolding context_of
  verdict_of token none = invalid
  verdict_of token (some payload) = ok (context_of token payload)

  probe_token : Text → ℕ → Text → AuthState Key → RequestAuthProbe × AuthState Key
  unfolding verdict_of get_secret verify_token
  probe_token [] now token st = (unavailable, get_secret [] st)
  probe_token (c ∷ secret) now token st =
      let (payload, st') = verify_token (c ∷ secret) now token (get_secret (c ∷ secret) st) in
      (verdict_of token payload, st')

  -- `probeRequest`, with the service role key and the secret of the environment.
  pub probe_request :
      Text → Text → ℕ → Option Text → AuthState Key → RequestAuthProbe × AuthState Key
  unfolding probe_token is_service service_role_auth parse_bearer
  probe_request service_key secret now header st = elim (parse_bearer header) [
    | none ↦ (missing, st)
    | some token ↦
        if is_service service_key token
        then (ok (service_role_auth token), st)
        else probe_token secret now token st
  ]

  auth_of : RequestAuthProbe → Option AuthContext
  auth_of (ok auth) = some auth
  auth_of missing = none
  auth_of invalid = none
  auth_of unavailable = none

  -- `validateRequest`
  pub validate_request :
      Text → Text → ℕ → Option Text → AuthState Key → Option AuthContext × AuthState Key
  unfolding auth_of probe_request
  validate_request service_key secret now header st =
      let (probed, st') = probe_request service_key secret now header st in (auth_of probed, st')
