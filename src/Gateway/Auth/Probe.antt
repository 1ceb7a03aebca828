-- ===== src/Gateway/Auth/Probe.antt =====
-- `probeRequest` and `validateRequest` against what a gateway without caches would answer.
use tube.Common.{
  ℕ, ◌≡◌, refl, ap, Bool-cases, Option-cases, inl, inr, Option, none, some, [], ◌∷◌, if◌then◌else◌,
  text_eq,
}
use tube.Common.Text.{Text}
use tube.Gateway.Auth.{
  AuthState, RequestAuthProbe, ok, missing, unavailable, Crypto, get_secret, parse_bearer,
  service_role_auth, is_service, verdict_of, probe_token, probe_request,
}
use tube.Gateway.Auth.Spec.{IsSound, verify_afresh, get_secret-IsSound}
use tube.Gateway.Auth.Sound.{verify_token-verify_afresh}

module _ (crypto : Crypto) where
  open crypto use {Key}

  token_afresh : Text → ℕ → Text → RequestAuthProbe
  token_afresh [] now token = unavailable
  token_afresh (c ∷ secret) now token =
      verdict_of crypto token (verify_afresh crypto (c ∷ secret) now token)

  -- The answer to a header with no cache: no token is `missing`, the service key is the service
  -- role, a gateway without a secret is `unavailable`, and any other token is verified.
  pub probe_afresh : Text → Text → ℕ → Option Text → RequestAuthProbe
  unfolding token_afresh
  probe_afresh service_key secret now header = elim (parse_bearer header) [
    | none ↦ missing
    | some token ↦
        if is_service crypto service_key token
        then ok (service_role_auth crypto token)
        else token_afresh secret now token
  ]

  probe_token-token_afresh :
      (secret token : Text) (now : ℕ) (st : AuthState Key)
      → IsSound crypto st
      → IsSound crypto (probe_token crypto secret now token st).1
        × ((probe_token crypto secret now token st).0 ≡ token_afresh secret now token)
  unfolding probe_token token_afresh
  probe_token-token_afresh [] token now st h = ((get_secret-IsSound crypto [] st h).0, refl)
  probe_token-token_afresh (c ∷ secret) token now st h =
      let (sound, e) =
        verify_token-verify_afresh crypto (c ∷ secret) token now (get_secret (c ∷ secret) st)
          (get_secret-IsSound crypto (c ∷ secret) st h).0 in
      (sound, ap (verdict_of crypto token) e)

  -- With no other request between its parts, `probeRequest` keeps the caches sound and classifies
  -- every header as a gateway without caches would.
  pub probe_request-probe_afresh :
      (service_key secret : Text) (now : ℕ) (header : Option Text) (st : AuthState Key)
      → IsSound crypto st
      → IsSound crypto (probe_request crypto service_key secret now header st).1
        × ((probe_request crypto service_key secret now header st).0
            ≡ probe_afresh service_key secret now header)
  unfolding probe_request probe_afresh
  probe_request-probe_afresh service_key secret now header st h =
      elim (Option-cases (parse_bearer header)) [
        | inl bare ↦ rw (bare, probe_request, probe_afresh) (h, refl)
        | inr (token, found) ↦ elim (Bool-cases (is_service crypto service_key token)) [
          | inl service ↦ rw (found, probe_request, probe_afresh, service) (h, refl)
          | inr user ↦
              rw (found, probe_request, probe_afresh, user)
                (probe_token-token_afresh secret token now st h)
        ]
      ]
