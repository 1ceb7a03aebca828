-- ===== src/Gateway/RateLimit/Double.antt =====
-- `Math.floor(((now - lastRefill) / 60000) * rpm)` in doubles: a quotient and a product that are each
-- rounded to 53 bits, to an even last bit where two are as near. Times and rates are below 2 ^ 53.
use tube.Common.{
  ℕ, zero, suc, ◌+◌, ◌*◌, ◌/◌, ◌%◌, ◌≤◌, ◌<◌, Bool-cases, inl, inr, leb, ltb, eqb, arith,
  if◌then◌else◌,
}

-- The whole number next to a quotient.
unfoldable pub round_quotient : ℕ → ℕ → ℕ
round_quotient n d =
    let twice = 2 * (n % d) in
    if ltb twice d then n / d else if ltb d twice then n / d + 1 else n / d + (n / d) % 2

abbrev minute : ℕ
minute = 60_000

-- 2 ^ 52 and 2 ^ 53.
abbrev least_significand : ℕ
least_significand = 4_503_599_627_370_496

abbrev significands : ℕ
significands = 9_007_199_254_740_992

-- A number of milliseconds, and the power of 2, both doubled until the minutes have 53 bits. A positive
-- number below 2 ^ 53 needs at most 68 rounds.
unfoldable pub scale : ℕ → ℕ → ℕ → ℕ × ℕ
scale zero ms unit = (ms, unit)
scale (suc fuel) ms unit =
    let more = scale fuel (2 * ms) (2 * unit) in
    if leb (minute * least_significand) ms then (ms, unit) else more

-- The power of 2 that a number is rounded to a multiple of. A product of two numbers below 2 ^ 54 needs
-- at most 55 rounds.
unfoldable pub last_bit : ℕ → ℕ → ℕ → ℕ
last_bit zero n bit = bit
last_bit (suc fuel) n bit =
    let more = last_bit fuel n (2 * bit) in if ltb n (significands * bit) then bit else more

unfoldable pub round_product : ℕ → ℕ
unfolding last_bit round_quotient
round_product n = round_quotient n (last_bit 64 n 1) * last_bit 64 n 1

unfoldable pub refill_amount : ℕ → ℕ → ℕ
unfolding scale round_quotient round_product
refill_amount ms rpm =
    if eqb ms 0
    then 0
    else let (scaled, unit) = scale 70 ms 1 in
      round_product (round_quotient scaled minute * rpm) / unit

-- A number doubled so often.
doubled : ℕ → ℕ → ℕ
doubled zero n = n
doubled (suc rounds) n = doubled rounds (2 * n)

doubled_mono : (rounds m n : ℕ) → m ≤ n → doubled rounds m ≤ doubled rounds n
unfolding doubled
doubled_mono zero m n h = h
doubled_mono (suc rounds) m n h = doubled_mono rounds (2 * m) (2 * n) (omega arith)

scale-doubled :
    (fuel ms unit : ℕ)
    → minute * least_significand ≤ doubled fuel ms
    → minute * least_significand ≤ (scale fuel ms unit).0
unfolding scale doubled
scale-doubled zero ms unit h = h
scale-doubled (suc fuel) ms unit h = ground (arith, scale-doubled fuel (2 * ms) (2 * unit) h)

seventy : (minute * least_significand ≤ doubled 70 1)
unfolding doubled
seventy = omega arith

-- 70 rounds are enough for every positive time.
scale_enough : (ms : ℕ) → 0 < ms → minute * least_significand ≤ (scale 70 ms 1).0
scale_enough ms pos =
    scale-doubled 70 ms 1 (omega (arith, seventy, doubled_mono 70 1 ms (omega (arith, pos))))

last_bit-doubled :
    (fuel n bit : ℕ) → n < significands * doubled fuel bit → n < significands * last_bit fuel n bit
unfolding last_bit doubled
last_bit-doubled zero n bit h = h
last_bit-doubled (suc fuel) n bit h = elim (Bool-cases (ltb n (significands * bit))) [
  | inl fits ↦ rw fits (ground arith)
  | inr more ↦ rw more (last_bit-doubled fuel n (2 * bit) h)
]

-- 64 rounds are enough for every number below 2 ^ 117, and so for every product of two below 2 ^ 54.
last_bit_enough : (n : ℕ) → n < significands * doubled 64 1 → n < significands * last_bit 64 n 1
last_bit_enough n h = last_bit-doubled 64 n 1 h
