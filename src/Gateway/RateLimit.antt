-- ===== src/Gateway/RateLimit.antt =====
-- gateway/rate-limit.ts: the token buckets. The module's bucket store and its cap are one record,
-- a request carries what the middleware reads of it, and the clock is an argument in milliseconds.
-- A clock that went back refills nothing, in the code by a negative number, here by a difference of 0.
pub mod Double
pub mod Bounds
pub mod Keys
mod Tests
use Prim.Native.Nat.{min as min_ℕ}
use tube.Common.{
  ℕ, suc, ◌+◌, ◌-◌, ◌*◌, ◌/◌, Bool, true, false, ◌||◌, Option, none, some, List, [], ◌∷◌, ◌++◌, ltb,
  leb, eqb, if◌then◌else◌, length, get_or, any, ◌==◌, text_eq,
}
use tube.Common.JsMap
use tube.Common.JsMap.{JsMap}
use tube.Common.Text.{Text, codes, split, trim, to_lower}
use tube.Gateway.RateLimit.Double.{refill_amount}
use tube.Manifest.{FunctionManifest, RateLimitBy, identity, ip, global}
use tube.Gateway.RoutePrefix.{route_remainder, slash}

pub record Bucket : Type 0 where
  pub tokens : ℕ
  pub last_refill : ℕ

pub record RateLimitConfig : Type 0 where
  pub default_rpm : ℕ
  pub overrides : JsMap Text ℕ
  pub max_buckets : ℕ
  pub manifest_for : Text → Option FunctionManifest
  pub route_prefix : Text
  pub trusted_proxies : List Text

abbrev pub Buckets : Type 0
Buckets = JsMap Text Bucket

-- What the middleware reads of a request. An empty `user_id` and an absent one are alike; `socket`
-- is `none` where the connection's address is not known.
pub record Request : Type 0 where
  pub path : Text
  pub user_id : Text
  pub socket : Option Text
  pub forwarded_for : Option Text
  pub real_ip : Option Text

pub data Verdict : Type 0 where
  pass : Verdict
  too_many : ℕ → Verdict

abbrev evict : Option Text → Buckets → Buckets
evict none bs = bs
evict (some oldest) bs = JsMap.delete oldest bs

-- The branch of `getOrCreateBucket` for a key that has no bucket.
unfoldable pub create_bucket : ℕ → Text → ℕ → ℕ → Buckets → Bucket × Buckets
create_bucket max_buckets key rpm now bs =
    let room = if leb max_buckets (length bs) then evict (JsMap.first_key bs) bs else bs in
    let bucket : Bucket = record { tokens = rpm; last_refill = now } in
    (bucket, JsMap.set key bucket room)

unfoldable pub refill : ℕ → ℕ → Bucket → Bucket
unfolding refill_amount
refill rpm now bucket =
    let amount = refill_amount (now - bucket.last_refill) rpm in
    if ltb 0 amount
    then record { tokens = min_ℕ rpm (bucket.tokens + amount); last_refill = now }
    else bucket

-- A bucket that the code mutates in the map is written back here.
unfoldable pub get_or_create_bucket : ℕ → Text → ℕ → ℕ → Buckets → Bucket × Buckets
unfolding create_bucket refill
get_or_create_bucket max_buckets key rpm now bs = elim (JsMap.get key bs) [
  | none ↦ create_bucket max_buckets key rpm now bs
  | some bucket ↦ (refill rpm now bucket, JsMap.set key (refill rpm now bucket) bs)
]

-- `a || b`, of texts
abbrev or_text : Text → Text → Text
or_text [] b = b
or_text (c ∷ a) b = c ∷ a

abbrev pub first_piece : List Text → Text
first_piece [] = []
first_piece (s ∷ l) = s

abbrev header_text : Option Text → Text
header_text none = []
header_text (some s) = s

ip_key : Text → Text
ip_key address = codes "ip:" ++ address

real_ip_key : Text → Text → Text
real_ip_key [] socket = ip_key socket
real_ip_key (c ∷ s) socket = ip_key (trim (c ∷ s))

forwarded_key : Text → Text → Text → Text
forwarded_key [] real socket = real_ip_key real socket
forwarded_key (c ∷ s) real socket = ip_key (c ∷ s)

-- The part of `resolveKey` that reads the connection and, behind a trusted proxy, the headers.
unfoldable pub address_key : List Text → Request → Text
unfolding forwarded_key real_ip_key ip_key trim split
address_key trusted r =
    let socket = or_text (header_text r.socket) (codes "unknown") in
    if any (λ t. t == socket) trusted
    then forwarded_key (trim (first_piece (split b',' (header_text r.forwarded_for))))
        (header_text r.real_ip) socket
    else ip_key socket

user_or : Text → Text → Text
user_or [] key = key
user_or (c ∷ user) key = codes "user:" ++ c ∷ user

unfoldable pub resolve_key : List Text → Request → RateLimitBy → Text
unfolding user_or
resolve_key trusted r global = codes "global"
resolve_key trusted r ip = address_key trusted r
resolve_key trusted r identity = user_or r.user_id (address_key trusted r)

unfoldable pub fn_name : RateLimitConfig → Request → Text
unfolding route_remainder split
fn_name cfg r = first_piece (split slash (route_remainder cfg.route_prefix r.path))

nonzero_or : Option ℕ → ℕ → ℕ
nonzero_or none d = d
nonzero_or (some n) d = if eqb n 0 then d else n

-- `manifest?.rpm ?? ((fnName && overrides[fnName]) || defaultRpm)`
rpm_of : RateLimitConfig → Text → Option FunctionManifest → ℕ
unfolding nonzero_or
rpm_of cfg [] manifest = cfg.default_rpm
rpm_of cfg (c ∷ name) none = nonzero_or (JsMap.get (c ∷ name) cfg.overrides) cfg.default_rpm
rpm_of cfg (c ∷ name) (some m) =
    get_or m.rpm (nonzero_or (JsMap.get (c ∷ name) cfg.overrides) cfg.default_rpm)

by_of : Text → Option FunctionManifest → RateLimitBy
by_of [] manifest = identity
by_of (c ∷ name) none = identity
by_of (c ∷ name) (some m) = get_or m.rate_limit_by identity

unfoldable pub bucket_key : RateLimitConfig → Request → Text
unfolding by_of resolve_key
bucket_key cfg r =
    let name = fn_name cfg r in
    resolve_key cfg.trusted_proxies r (by_of name (cfg.manifest_for name))
    ++ b':' ∷ or_text name (codes "global")

unfoldable pub request_rpm : RateLimitConfig → Request → ℕ
unfolding rpm_of
request_rpm cfg r = rpm_of cfg (fn_name cfg r) (cfg.manifest_for (fn_name cfg r))

-- `Math.ceil(60 / rpm)`
abbrev pub retry_after : ℕ → ℕ
retry_after rpm = (60 + rpm - 1) / rpm

-- Draw one token for a key, after the refill.
unfoldable pub draw : ℕ → Text → ℕ → ℕ → Buckets → Verdict × Buckets
unfolding get_or_create_bucket
draw max_buckets key rpm now bs =
    let (bucket, stored) = get_or_create_bucket max_buckets key rpm now bs in
    if eqb bucket.tokens 0
    then (too_many (retry_after rpm), stored)
    else (pass, JsMap.set key (record bucket { tokens = bucket.tokens - 1 }) stored)

-- The middleware: the verdict says whether `next()` is called.
unfoldable pub rate_limit : RateLimitConfig → Request → ℕ → Buckets → Verdict × Buckets
unfolding draw
rate_limit cfg r now bs =
    if eqb (request_rpm cfg r) 0
    then (pass, bs)
    else draw cfg.max_buckets (bucket_key cfg r) (request_rpm cfg r) now bs

-- `raw.split(",").map((s) => s.trim()).filter(Boolean)`
trimmed_pieces : List Text → List Text
trimmed_pieces [] = []
trimmed_pieces (s ∷ l) =
    let rest = trimmed_pieces l in elim (trim s) [ [] ↦ rest | c ∷ t ↦ (c ∷ t) ∷ rest ]

-- The trusted proxies of the value of `1TUBE_TRUSTED_PROXIES`.
pub load_trusted_proxies : Text → List Text
unfolding trimmed_pieces trim split
load_trusted_proxies raw = trimmed_pieces (split b',' (trim raw))

-- Whether the value of `1TUBE_DISABLE_RATE_LIMIT` makes the limiter one that always passes.
pub is_disabled : Text → Bool
unfolding trim to_lower
is_disabled raw = trim raw == codes "1" || to_lower (trim raw) == codes "true"

-- The middleware that `createRateLimiter` returns.
pub create_rate_limiter : Text → RateLimitConfig → Request → ℕ → Buckets → Verdict × Buckets
unfolding is_disabled rate_limit
create_rate_limiter disabled cfg r now bs =
    if is_disabled disabled then (pass, bs) else rate_limit cfg r now bs
