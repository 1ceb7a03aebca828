-- ===== src/Gateway/RateLimit/Bounds.antt =====
-- The bucket store: its size, its other keys, and when the limiter leaves it alone.
use tube.Common.{
  ℕ, ◌≤◌, ◌<◌, ◌≡◌, refl, Bool-cases, Option-cases, inl, inr, some, [], ◌∷◌, arith, leb, eqb,
  length, if◌then◌else◌, text_eq, beq_self, lt_of_leb,
}
use tube.Common.JsMap
use tube.Common.JsMap.{JsMap, IsDistinct}
use tube.Common.Text.{Text}
use tube.Gateway.RateLimit.{
  Bucket, Buckets, refill, evict, create_bucket, get_or_create_bucket, draw, RateLimitConfig,
  Request, rate_limit, request_rpm, bucket_key,
}

-- The store holds no key twice, and at most `cap` buckets (one, if `cap` is 0).
pub record IsBounded (cap : ℕ) (bs : Buckets) : Type 0 where
  pub distinct : IsDistinct bs
  pub size : length bs ≤ cap

set_present-IsBounded :
    (cap : ℕ) (key : Text) (b b' : Bucket) (bs : Buckets)
    → JsMap.get key bs ≡ some b
    → IsBounded cap bs
    → IsBounded cap (JsMap.set key b' bs)
set_present-IsBounded cap key b b' bs found h = record {
  distinct = JsMap.set-IsDistinct key b' bs h.distinct;
  size = omega (arith, h.size, JsMap.length-set_present key b b' bs found);
}

evict_first-IsBounded :
    (cap : ℕ) (bs : Buckets)
    → 0 < cap
    → IsBounded cap bs
    → IsDistinct (evict (JsMap.first_key bs) bs) × (length (evict (JsMap.first_key bs) bs) < cap)
evict_first-IsBounded cap [] pos h = (tt, pos)
evict_first-IsBounded cap ((k, b) ∷ bs) pos h =
    rw (JsMap.delete_first k b bs h.distinct) (h.distinct.1, h.size)

-- Making room leaves room for one bucket.
evict-IsBounded :
    (cap : ℕ) (bs : Buckets)
    → 0 < cap
    → IsBounded cap bs
    → IsDistinct (if leb cap (length bs) then evict (JsMap.first_key bs) bs else bs)
      × (length (if leb cap (length bs) then evict (JsMap.first_key bs) bs else bs) < cap)
evict-IsBounded cap bs pos h = elim (Bool-cases (leb cap (length bs))) [
  | inl full ↦ rw full (evict_first-IsBounded cap bs pos h)
  | inr room ↦ rw room (h.distinct, lt_of_leb _ _ room)
]

create_bucket-IsBounded :
    (cap : ℕ) (key : Text) (rpm now : ℕ) (bs : Buckets)
    → 0 < cap
    → IsBounded cap bs
    → IsBounded cap (create_bucket cap key rpm now bs).1
unfolding create_bucket
create_bucket-IsBounded cap key rpm now bs pos h =
    let (distinct, room) = evict-IsBounded cap bs pos h in
    record {
      distinct = JsMap.set-IsDistinct key _ _ distinct;
      size = omega (
        arith,
        room,
        JsMap.length-set-le key (record { tokens = rpm; last_refill = now })
            (if leb cap (length bs) then evict (JsMap.first_key bs) bs else bs),
      );
    }

get_or_create_bucket-IsBounded :
    (cap : ℕ) (key : Text) (rpm now : ℕ) (bs : Buckets)
    → 0 < cap
    → IsBounded cap bs
    → IsBounded cap (get_or_create_bucket cap key rpm now bs).1
unfolding get_or_create_bucket
get_or_create_bucket-IsBounded cap key rpm now bs pos h = elim (Option-cases (JsMap.get key bs)) [
  | inl absent ↦
      rw (absent, get_or_create_bucket) (create_bucket-IsBounded cap key rpm now bs pos h)
  | inr (b, found) ↦
      rw (found, get_or_create_bucket)
        (set_present-IsBounded cap key b (refill rpm now b) bs found h)
]

get_or_create_bucket_stored :
    (cap : ℕ) (key : Text) (rpm now : ℕ) (bs : Buckets)
    → JsMap.get key (get_or_create_bucket cap key rpm now bs).1
      ≡ some (get_or_create_bucket cap key rpm now bs).0
unfolding get_or_create_bucket create_bucket
get_or_create_bucket_stored cap key rpm now bs = elim (Option-cases (JsMap.get key bs)) [
  | inl absent ↦ rw (absent, get_or_create_bucket) (rw (JsMap.get-set, beq_self key) refl)
  | inr (b, found) ↦ rw (found, get_or_create_bucket) (rw (JsMap.get-set, beq_self key) refl)
]

draw-IsBounded :
    (cap : ℕ) (key : Text) (rpm now : ℕ) (bs : Buckets)
    → 0 < cap
    → IsBounded cap bs
    → IsBounded cap (draw cap key rpm now bs).1
unfolding draw
draw-IsBounded cap key rpm now bs pos h =
    elim (Bool-cases (eqb (get_or_create_bucket cap key rpm now bs).0.tokens 0)) [
      | inl dry ↦ rw dry (get_or_create_bucket-IsBounded cap key rpm now bs pos h)
      | inr wet ↦ rw wet (
          set_present-IsBounded cap key _ _ _ (get_or_create_bucket_stored cap key rpm now bs)
            (get_or_create_bucket-IsBounded cap key rpm now bs pos h))
    ]

-- The limiter keeps the store bounded, whatever the request: at most `maxBuckets` buckets, each key
-- once, for a positive `maxBuckets`.
pub rate_limit-IsBounded :
    (cfg : RateLimitConfig) (r : Request) (now : ℕ) (bs : Buckets)
    → 0 < cfg.max_buckets
    → IsBounded cfg.max_buckets bs
    → IsBounded cfg.max_buckets (rate_limit cfg r now bs).1
unfolding rate_limit
rate_limit-IsBounded cfg r now bs pos h = elim (Bool-cases (eqb (request_rpm cfg r) 0)) [
  | inl exempt ↦ rw exempt h
  | inr limited ↦
      rw limited
        (draw-IsBounded cfg.max_buckets (bucket_key cfg r) (request_rpm cfg r) now bs pos h)
]
