-- ===== src/Edge.antt =====
-- edge.ts: the router that a function's `serve()` config makes of its requests. The values that
-- schemas read and handlers take, and `decodeURIComponent`, belong to the platform.
pub mod Paths
pub mod Router
pub mod Fetch
mod Tests
use tube.Common.{ℕ, Option, none, some, List, [], ◌∷◌}
use tube.Common.JsMap
use tube.Common.JsMap.{JsMap}
use tube.Common.Text.{Text, codes}
use tube.Manifest.{RateLimitBy, ServeRateLimit}

-- A call that returns, or that throws an error with a message.
pub data Attempt (A : Type 0) : Type 0 where
  done : A → Attempt A
  thrown : Text → Attempt A

-- `decode_uri_component` is `none` where it throws.
pub record Platform : Type 1 where
  pub Value : Type 0
  pub undefined : Value
  pub of_strings : JsMap Text Text → Value
  pub decode_uri_component : Text → Option Text

pub data Body (Value : Type 0) : Type 0 where
  no_body : Body Value
  error_body : Text → Option Value → Body Value
  other_body : Value → Body Value

pub record Response (Value : Type 0) : Type 0 where
  pub status : ℕ
  pub headers : JsMap Text Text
  pub body : Body Value

-- What the router reads of a request: `body` is `none` where it is no JSON.
pub record Request (Value : Type 0) : Type 0 where
  pub method : Text
  pub pathname : Text
  pub query : JsMap Text Text
  pub body : Option Value

abbrev json_headers : JsMap Text Text
json_headers = (codes "Content-Type", codes "application/json") ∷ []

module _ {Value : Type 0} where
  abbrev pub json_error : ℕ → Text → Option Value → Response Value
  json_error status message details = record {
    status = status;
    headers = json_headers;
    body = error_body message details;
  }

  abbrev pub not_found : Response Value
  not_found = json_error 404 (codes "Not found") none

  abbrev pub bad_request : Text → Response Value
  bad_request message = json_error 400 message none

  abbrev pub internal_server_error : Text → Response Value
  internal_server_error message = json_error 500 message none

-- The option `rateLimit` of `serve()`, of a config whose `rpm` is a number.
pub data RateLimitOption : Type 0 where
  omitted : RateLimitOption
  enabled disabled : RateLimitOption
  per_minute : ℕ → RateLimitOption
  configured : Option ℕ → Option RateLimitBy → RateLimitOption

pub normalize_rate_limit : RateLimitOption → ServeRateLimit
normalize_rate_limit omitted = record { rpm = none; rate_limit_by = none }
normalize_rate_limit enabled = record { rpm = none; rate_limit_by = none }
normalize_rate_limit disabled = record { rpm = some 0; rate_limit_by = none }
normalize_rate_limit (per_minute n) = record { rpm = some n; rate_limit_by = none }
normalize_rate_limit (configured rpm by) = record { rpm = rpm; rate_limit_by = by }
