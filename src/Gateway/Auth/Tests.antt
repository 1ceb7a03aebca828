-- ===== src/Gateway/Auth/Tests.antt =====
-- The verification with a toy crypto: a key is its secret, a signature is valid if it is the secret,
-- and a payload is its own bytes, with the first of them for the expiry.
use tube.Common.{
  ℕ, ◌≡◌, ◌≢◌, refl, Option, none, some, List, [], ◌∷◌, arith, ◌==◌, text_eq, text_beq_iff,
}
use tube.Common.JsMap
use tube.Common.Text.{Text, codes, split}
use tube.Gateway.Auth.{
  Payload, AuthState, Crypto, verify_token, get_secret, probe_request, resume_check, resume_import,
  decode_payload, pad_base64,
}
use tube.Gateway.Auth.Spec.{IsSound, verify_afresh}
use tube.Gateway.Auth.Sound.{verify_token-verify_afresh}
use tube.Gateway.Auth.Probe.{probe_afresh, probe_request-probe_afresh}
use tube.Gateway.Auth.Race.{stale_token-accepted, stale_key-verify_token}

abbrev payload_of : List ℕ → Option Payload
payload_of [] = none
payload_of (e ∷ s) = some (record { sub = s; email = []; role = []; exp = some e })

abbrev toy : Crypto
toy = record {
  Key = Text;
  import_key = λ secret. secret;
  verify = λ key bytes signed. key == bytes;
  atob = λ s. some s;
  parse_payload = payload_of;
}

abbrev before : AuthState Text
before = record {
  cached_key = none;
  cached_secret = some (codes "abcd");
  verify_cache = [];
  verify_cache_max = 2;
  hits = 0;
  misses = 0;
}

-- header `h`, payload of code 64, signature `abcd`
abbrev token : Text
token = codes "h.@@@@.abcd"

runs :
    (verify_token toy (codes "abcd") 5 token before).0
    ≡ some (record { sub = codes "@@@"; email = []; role = []; exp = some 64 })
unfolding verify_token JsMap.get split pad_base64
runs = refl

before-IsSound : IsSound toy before
before-IsSound = record { key = λ k e. absurd (ground arith); entries = JsMap.Every-empty _ }

verify_token-verify_afresh_example :
    IsSound toy (verify_token toy (codes "abcd") 5 token before).1
    × ((verify_token toy (codes "abcd") 5 token before).0
        ≡ verify_afresh toy (codes "abcd") 5 token)
verify_token-verify_afresh_example =
    verify_token-verify_afresh toy (codes "abcd") token 5 before before-IsSound

probe_request-probe_afresh_example :
    IsSound toy
      (probe_request toy (codes "k") (codes "abcd") 5 (some (codes "Bearer h.@@@@.abcd")) before).1
    × ((probe_request toy (codes "k") (codes "abcd") 5 (some (codes "Bearer h.@@@@.abcd")) before).0
        ≡ probe_afresh toy (codes "k") (codes "abcd") 5 (some (codes "Bearer h.@@@@.abcd")))
probe_request-probe_afresh_example =
    probe_request-probe_afresh toy (codes "k") (codes "abcd") 5 (some (codes "Bearer h.@@@@.abcd"))
      before before-IsSound

abbrev claims : Payload
claims = record { sub = codes "@@@"; email = []; role = []; exp = some 64 }

stale_token-accepted_example :
    (verify_token toy
      (codes "next")
      7
      token
      (resume_check toy
        (codes "abcd")
        (codes "abcd")
        (codes "h.@@@@")
        (codes "@@@@")
        token
        5
        (get_secret (codes "next") before)).1).0
    ≡ some claims
unfolding decode_payload pad_base64
stale_token-accepted_example =
    stale_token-accepted toy b'n' (codes "ext") (codes "abcd") token (codes "@@@@") (codes "h.@@@@")
      (codes "abcd") claims 64 5 7 before refl refl refl refl refl

old_not_new : codes "abcd" ≢ codes "next"
old_not_new e = ground (arith, (text_beq_iff (codes "abcd") (codes "next")).1 e)

stale_key-verify_token_example :
    (verify_token toy
      (codes "next")
      7
      token
      (resume_import toy (codes "abcd") token 5 (get_secret (codes "next") before)).1).0
    ≡ verify_afresh toy (codes "abcd") 7 token
stale_key-verify_token_example =
    stale_key-verify_token toy b'n' b'a' (codes "ext") (codes "bcd") token token 5 7 before refl
      old_not_new
