-- ===== src/Httpx/RateLimit.antt =====
-- internal/httpx/ratelimit.go: token buckets by key, swept when they are idle. Times are in
-- nanoseconds. Tokens are in a unit of which `token` make one token and `rate` accrue per
-- nanosecond, so the arithmetic that the code does in float64 is exact here.
pub mod Isolation
pub mod Quota
use apisix_developer_portal.Common.{
  ℕ, ◌+◌, ◌-◌, ◌*◌, min, String, Bool, true, false, Option, none, some, List, [], ◌∷◌, ltb, leb,
  if◌then◌else◌,
}
use apisix_developer_portal.Apisix.{put_key}

-- `sweepEvery`, one minute, and `idleTTL`, ten.
abbrev pub sweep_every : ℕ
sweep_every = 60000000000

abbrev pub idle_ttl : ℕ
idle_ttl = 600000000000

pub record Bucket : Type 0 where
  pub tokens : ℕ
  pub last : ℕ

-- `last_sweep` is absent in a new limiter, whose Go value is the zero time.
pub record RateLimiter : Type 0 where
  pub buckets : String → Option Bucket
  pub burst : ℕ
  pub rate : ℕ
  pub token : ℕ
  pub last_sweep : Option ℕ

-- `NewRateLimiter` panics for a burst that is not positive.
unfoldable pub new_rate_limiter : ℕ → ℕ → ℕ → Option RateLimiter
new_rate_limiter burst rate token =
    if ltb 0 burst
    then some (record {
      buckets = λ _. none;
      burst = burst;
      rate = rate;
      token = token;
      last_sweep = none;
    })
    else none

abbrev pub is_idle : ℕ → Bucket → Bool
is_idle now b = leb idle_ttl (now - b.last)

abbrev pub keep_fresh : ℕ → Option Bucket → Option Bucket
keep_fresh now none = none
keep_fresh now (some b) = if is_idle now b then none else some b

-- The sweep at the head of `Allow`, which is due a minute after the last one.
abbrev pub is_due : ℕ → Option ℕ → Bool
is_due now none = true
is_due now (some last) = leb sweep_every (now - last)

unfoldable pub sweep : ℕ → RateLimiter → RateLimiter
sweep now rl =
    if is_due now rl.last_sweep
    then record rl { buckets = λ k. keep_fresh now (rl.buckets k); last_sweep = some now }
    else rl

-- The bucket of a key when a request arrives: a new one, or the old one refilled up to the burst.
unfoldable pub refill : RateLimiter → ℕ → Option Bucket → Bucket
refill rl now none = record { tokens = rl.burst; last = now }
refill rl now (some b) = record {
  tokens = min (b.tokens + rl.rate * (now - b.last)) rl.burst;
  last = now;
}

unfoldable pub spend : RateLimiter → Bucket → Bool × Bucket
spend rl b =
    if ltb b.tokens rl.token
    then (false, b)
    else (true, record { tokens = b.tokens - rl.token; last = b.last })

-- `Allow`
unfoldable pub allow : ℕ → String → RateLimiter → Bool × RateLimiter
unfolding sweep refill spend
allow now key rl =
    let rl' = sweep now rl in
    let (ok, b) = spend rl' (refill rl' now (rl'.buckets key)) in
    (ok, record rl' { buckets = put_key rl'.buckets key b })

-- The answers to requests in the order of their arrival, each with its key.
unfoldable pub serve : List (ℕ × String) → RateLimiter → List (String × Bool)
unfolding allow
serve [] rl = []
serve ((now, key) ∷ requests) rl =
    let (ok, rl') = allow now key rl in (key, ok) ∷ serve requests rl'
