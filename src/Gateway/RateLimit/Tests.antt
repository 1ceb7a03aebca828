-- ===== src/Gateway/RateLimit/Tests.antt =====
-- The limiter at concrete requests.
use tube.Common.{if◌then◌else◌, ◌==◌, text_eq, ◌≡◌, refl, none, some, [], ◌∷◌, arith, text_eq}
use tube.Common.JsMap
use tube.Common.Text.{Text, codes, starts_with}
use tube.Manifest.{default_manifest}
use tube.Gateway.RateLimit.{
  Bucket, Buckets, rate_limit, RateLimitConfig, Request, too_many, draw, retry_after, bucket_key,
  fn_name, address_key,
}
use tube.Gateway.RateLimit.Double.{refill_amount}
use tube.Gateway.RateLimit.Bounds.{IsBounded, rate_limit-IsBounded}

abbrev key : Text
key = codes "ip:1:chat"

abbrev dry : Bucket
dry = record { tokens = 0; last_refill = 1000 }

-- The code lets 28 more tokens into a bucket after 17.4 seconds at 100 a minute, by its rounding.
rounded_down : refill_amount 17_400 100 ≡ 28
unfolding refill_amount
rounded_down = refl

exact : (refill_amount 60_000 30 ≡ 30) × (refill_amount 1500 120 ≡ 3) × (refill_amount 0 30 ≡ 0)
unfolding refill_amount
exact = (refl, refl, refl)

refused : (draw 10 key 30 1500 ((key, dry) ∷ [])).0 ≡ too_many (retry_after 30)
unfolding draw JsMap.get
refused = refl

abbrev config : RateLimitConfig
config = record {
  default_rpm = 120;
  overrides = (codes "ai-chat", 30) ∷ [];
  max_buckets = 1;
  manifest_for = λ name.
      if name == codes "hook" then some (record default_manifest { rpm = some 0 }) else none;
  route_prefix = codes "/functions/v1";
  trusted_proxies = codes "10.0.0.1" ∷ [];
}

abbrev request : Request
request = record {
  path = codes "/functions/v1/ai-chat/x";
  user_id = [];
  socket = some (codes "1.2.3.4");
  forwarded_for = some (codes "9.9.9.9, 8.8.8.8");
  real_ip = none;
}

keys_of :
    (bucket_key config request ≡ codes "ip:1.2.3.4:ai-chat")
    × (bucket_key config (record request { socket = some (codes "10.0.0.1") })
        ≡ codes "ip:9.9.9.9:ai-chat")
unfolding bucket_key JsMap.get fn_name starts_with address_key
keys_of = (refl, refl)

abbrev signed_in : Request
signed_in = record request { user_id = codes "u1" }

abbrev elsewhere : Request
elsewhere = record signed_in { socket = some (codes "10.0.0.1"); forwarded_for = none }

abbrev full : Buckets
full = (key, dry) ∷ []

rate_limit-IsBounded_example : IsBounded 1 (rate_limit config request 70_000 full).1
unfolding JsMap.get
rate_limit-IsBounded_example =
    rate_limit-IsBounded config request 70_000 full (omega arith)
      (record { distinct = (refl, tt); size = omega arith })
