-- ===== src/Tracker/RateLimit.antt =====
-- internal/tracker/ratelimit.go: the token bucket of each client address. Times are nanoseconds of a
-- monotonic clock, and tokens are counted in units of a billionth, in which `elapsed * rate` is
-- exact; the rounding of float64 is not modelled.
pub mod Bounds
mod Tests
use weightless.Prelude.{
  ℕ, ◌+◌, ◌-◌, ◌*◌, ◌^◌, Bool, true, false, Option, none, some, List, [], ◌∷◌, Bytes, ◌===◌, ltb,
  leb, if◌then◌else◌, length,
}
use weightless.Prelude.Dict
use weightless.Prelude.Dict.{Dict}

abbrev pub one_token : ℕ
one_token = 1_000_000_000

pub record Bucket : Type 0 where
  pub tokens : ℕ
  pub last_seen : ℕ

pub record RateLimiter : Type 0 where
  pub buckets : Dict Bucket
  pub rate : ℕ
  pub burst : ℕ
  pub max_ips : ℕ

pub new_rate_limiter : ℕ → ℕ → ℕ → RateLimiter
new_rate_limiter rate burst max_ips = record {
  buckets = [];
  rate = rate;
  burst = burst;
  max_ips = max_ips;
}

-- A full map is emptied.
abbrev pub evicted : RateLimiter → Dict Bucket
evicted rl = if leb rl.max_ips (length rl.buckets) then [] else rl.buckets

-- A new address starts with a full bucket, last seen at `created`.
abbrev pub bucket_or_full : RateLimiter → ℕ → Option Bucket → Bucket
bucket_or_full rl created none = record { tokens = rl.burst * one_token; last_seen = created }
bucket_or_full rl created (some b) = b

abbrev pub refilled : RateLimiter → ℕ → Bucket → ℕ
refilled rl now b =
    let tokens = b.tokens + (now - b.last_seen) * rl.rate in
    if ltb (rl.burst * one_token) tokens then rl.burst * one_token else tokens

-- One token is taken, if there is one.
pub spend : RateLimiter → ℕ → Bucket → Bucket × Bool
spend rl now b =
    if leb one_token (refilled rl now b)
    then (record { tokens = refilled rl now b - one_token; last_seen = now }, true)
    else (record { tokens = refilled rl now b; last_seen = now }, false)

-- Allow; the clock is read for a new bucket (`created`) and again for the refill (`now`).
pub allow : Bytes → ℕ → ℕ → RateLimiter → RateLimiter × Bool
unfolding spend
allow ip created now rl =
    let (bucket, admitted) = spend rl now (bucket_or_full rl created (Dict.get ip (evicted rl))) in
    (record rl { buckets = Dict.put ip bucket (evicted rl) }, admitted)
