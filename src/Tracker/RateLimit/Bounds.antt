-- ===== src/Tracker/RateLimit/Bounds.antt =====
-- What the limiter guarantees: bounded memory, and a bounded number of requests for each address.
use weightless.Prelude.{
  ℕ, ◌+◌, ◌-◌, ◌*◌, ◌≤◌, ◌<◌, ◌≡◌, refl, ap, ◌∙◌, Bool, true, false, none, some, List, [], ◌∷◌,
  Bytes, ◌===◌, ===_iff, leb, if◌then◌else◌, length, arith, Bool-cases, inl, inr,
}
use weightless.Prelude.Dict
use weightless.Prelude.Dict.{Dict, get-put, length-put-le}
use weightless.Tracker.RateLimit.{
  Bucket, RateLimiter, one_token, evicted, bucket_or_full, spend, allow,
}

-- One request: the address, and the two readings of the clock.
pub record Request : Type 0 where
  pub ip : Bytes
  pub created : ℕ
  pub now : ℕ

pub run : List Request → RateLimiter → RateLimiter
run [] rl = rl
run (r ∷ requests) rl = run requests (allow r.ip r.created r.now rl).0

abbrev pub as_count : Bool → ℕ
as_count true = 1
as_count false = 0

-- How many requests of an address are admitted.
unfoldable pub admitted : Bytes → List Request → RateLimiter → ℕ
admitted ip [] rl = 0
admitted ip (r ∷ requests) rl =
    (if r.ip === ip then as_count (allow r.ip r.created r.now rl).1 else 0)
    + admitted ip requests (allow r.ip r.created r.now rl).0

allow-max_ips :
    (ip : Bytes) (created now : ℕ) (rl : RateLimiter)
    → (allow ip created now rl).0.max_ips ≡ rl.max_ips
unfolding allow
allow-max_ips ip created now rl = refl

length-allow :
    (ip : Bytes) (created now : ℕ) (rl : RateLimiter)
    → 0 < rl.max_ips
    → length (allow ip created now rl).0.buckets ≤ rl.max_ips
unfolding allow
length-allow ip created now rl h =
    let b = (spend rl now (bucket_or_full rl created (Dict.get ip (evicted rl)))).0 in
    ground (arith, length-put-le ip b (evicted rl))

-- The limiter never tracks more addresses than its maximum, whatever requests arrive.
pub run-max_ips :
    (requests : List Request) (rl : RateLimiter)
    → 0 < rl.max_ips
    → length rl.buckets ≤ rl.max_ips
    → length (run requests rl).buckets ≤ rl.max_ips
unfolding run
run-max_ips [] rl h k = k
run-max_ips (r ∷ requests) rl h k =
    let next = (allow r.ip r.created r.now rl).0 in
    let same = allow-max_ips r.ip r.created r.now rl in
    omega (
      arith,
      same,
      run-max_ips requests next (omega (arith, same))
          (omega (arith, same, length-allow r.ip r.created r.now rl h)),
    )

-- Taking a token is paid by the refill.
spend-paid :
    (rl : RateLimiter) (now : ℕ) (b : Bucket)
    → (as_count (spend rl now b).1 * one_token + (spend rl now b).0.tokens
        ≤ b.tokens + (now - b.last_seen) * rl.rate)
      × (as_count (spend rl now b).1 * one_token + (spend rl now b).0.tokens ≤ rl.burst * one_token)
      × ((spend rl now b).0.last_seen ≡ now)
unfolding spend
spend-paid rl now b = ground arith

-- The clock does not run backwards.
abbrev pub IsTimed : ℕ → List Request → Type 0
IsTimed t [] = Unit
IsTimed t (r ∷ requests) = (t ≤ r.created) × (r.created ≤ r.now) × IsTimed r.now requests

-- When the last request is answered.
abbrev pub end_time : ℕ → List Request → ℕ
end_time t [] = t
end_time t (r ∷ requests) = end_time r.now requests

le-end_time : (t : ℕ) (requests : List Request) → IsTimed t requests → t ≤ end_time t requests
le-end_time t [] h = omega arith
le-end_time t (r ∷ requests) h = omega (arith, h.0, h.1, le-end_time r.now requests h.2)

allow-rate :
    (ip : Bytes) (created now : ℕ) (rl : RateLimiter) → (allow ip created now rl).0.rate ≡ rl.rate
unfolding allow
allow-rate ip created now rl = refl

allow-burst :
    (ip : Bytes) (created now : ℕ) (rl : RateLimiter) → (allow ip created now rl).0.burst ≡ rl.burst
unfolding allow
allow-burst ip created now rl = refl

-- Below the maximum a request changes only its own bucket.
get-allow :
    (ip j : Bytes) (created now : ℕ) (rl : RateLimiter)
    → length rl.buckets < rl.max_ips
    → Dict.get j (allow ip created now rl).0.buckets ≡ (
        if ip === j
        then some (spend rl now (bucket_or_full rl created (Dict.get ip rl.buckets))).0
        else Dict.get j rl.buckets)
unfolding allow
get-allow ip j created now rl h =
    let kept : leb rl.max_ips (length rl.buckets) ≡ false = ground arith in
    rw (
      kept,
      get-put ip j (spend rl now (bucket_or_full rl created (Dict.get ip rl.buckets))).0 rl.buckets,
    )

allow-admits :
    (ip : Bytes) (created now : ℕ) (rl : RateLimiter)
    → length rl.buckets < rl.max_ips
    → (allow ip created now rl).1
      ≡ (spend rl now (bucket_or_full rl created (Dict.get ip rl.buckets))).1
unfolding allow
allow-admits ip created now rl h =
    let kept : leb rl.max_ips (length rl.buckets) ≡ false = ground arith in rw kept

-- No request finds as many addresses tracked as there may be, so that no bucket is thrown away.
abbrev pub NeverFull : List Request → RateLimiter → Type 0
NeverFull [] rl = Unit
NeverFull (r ∷ requests) rl =
    (length rl.buckets < rl.max_ips) × NeverFull requests (allow r.ip r.created r.now rl).0

split_elapsed : (s n e r : ℕ) → s ≤ n → n ≤ e → (e - s) * r ≡ (n - s) * r + (e - n) * r
split_elapsed s n e r h k =
    let sum : e - s ≡ (n - s) + (e - n) = omega arith in ap (λ x. x * r) sum ∙ omega arith

-- One request and those behind it, in numbers.
own_step :
    (one rest tokens' seen' rate' tokens seen now end rate : ℕ)
    → seen' ≡ now
    → rate' ≡ rate
    → seen ≤ now
    → now ≤ end
    → one * one_token + tokens' ≤ tokens + (now - seen) * rate
    → rest * one_token ≤ tokens' + (end - seen') * rate'
    → (one + rest) * one_token ≤ tokens + (end - seen) * rate
own_step one rest tokens' seen' rate' tokens seen now end rate e f h k paid behind =
    let behind' : rest * one_token ≤ tokens' + (end - now) * rate = rw f at (rw e at behind) in
    omega (arith, split_elapsed seen now end rate h k, behind', paid)

other_step :
    (rest tokens elapsed rate' rate : ℕ)
    → rate' ≡ rate
    → rest * one_token ≤ tokens + elapsed * rate'
    → (0 + rest) * one_token ≤ tokens + elapsed * rate
other_step rest tokens elapsed rate' rate f behind =
    let behind' : rest * one_token ≤ tokens + elapsed * rate = rw f at behind in omega arith

later_step :
    (rest burst' burst t now end rate' rate : ℕ)
    → burst' ≡ burst
    → rate' ≡ rate
    → t ≤ now
    → now ≤ end
    → rest * one_token ≤ burst' * one_token + (end - now) * rate'
    → (0 + rest) * one_token ≤ burst * one_token + (end - t) * rate
later_step rest burst' burst t now end rate' rate e f h k behind =
    let behind' : rest * one_token ≤ burst * one_token + (end - now) * rate =
      rw f at (rw e at behind) in
    omega (arith, split_elapsed t now end rate h k, behind')

first_step :
    (one rest tokens' seen' rate' full t now end rate : ℕ)
    → seen' ≡ now
    → rate' ≡ rate
    → t ≤ now
    → now ≤ end
    → one * one_token + tokens' ≤ full
    → rest * one_token ≤ tokens' + (end - seen') * rate'
    → (one + rest) * one_token ≤ full + (end - t) * rate
first_step one rest tokens' seen' rate' full t now end rate e f h k paid behind =
    let behind' : rest * one_token ≤ tokens' + (end - now) * rate = rw f at (rw e at behind) in
    omega (arith, split_elapsed t now end rate h k, behind', paid)

module _ (ip : Bytes) where
  admitted_present :
      (requests : List Request) (rl : RateLimiter) (t : ℕ) (b : Bucket)
      → Dict.get ip rl.buckets ≡ some b
      → b.last_seen ≤ t
      → IsTimed t requests
      → NeverFull requests rl
      → admitted ip requests rl * one_token
        ≤ b.tokens + (end_time t requests - b.last_seen) * rl.rate
  unfolding admitted
  admitted_present [] rl t b here seen timed room = omega arith
  admitted_present (r ∷ requests) rl t b here seen timed room = elim (Bool-cases (r.ip === ip)) [
    | inl own ↦
        let next = (allow r.ip r.created r.now rl).0 in
        let b' = (spend rl r.now b).0 in
        let same : r.ip ≡ ip = (===_iff r.ip ip).0 own in
        let here' : Dict.get r.ip rl.buckets ≡ some b =
          ap (λ k. Dict.get k rl.buckets) same ∙ here in
        let free = room.0 in
        let found : Dict.get ip next.buckets ≡ some b' =
          get-allow r.ip ip r.created r.now rl free ∙ rw (own, here') in
        let admits : (allow r.ip r.created r.now rl).1 ≡ (spend rl r.now b).1 =
          allow-admits r.ip r.created r.now rl free ∙ rw here' in
        let (paid, _, now) = spend-paid rl r.now b in
        let rest =
          admitted_present requests next r.now b' found (omega (arith, now)) timed.2 room.1 in
        rw (own, admits)
          (own_step (as_count (spend rl r.now b).1) (admitted ip requests next) b'.tokens
            b'.last_seen next.rate b.tokens b.last_seen r.now (end_time r.now requests) rl.rate now
            (allow-rate r.ip r.created r.now rl) (omega (arith, timed.0, timed.1))
            (le-end_time r.now requests timed.2) paid rest)
    | inr other ↦
        let next = (allow r.ip r.created r.now rl).0 in
        let free = room.0 in
        let found : Dict.get ip next.buckets ≡ some b =
          get-allow r.ip ip r.created r.now rl free ∙ rw other here in
        let rest =
          admitted_present requests next r.now b found (omega (arith, timed.0, timed.1)) timed.2
            room.1 in
        rw other (
          other_step (admitted ip requests next) b.tokens (end_time r.now requests - b.last_seen)
            next.rate rl.rate (allow-rate r.ip r.created r.now rl) rest)
  ]

  -- Of an address that is not tracked: in any sequence of requests, its own and others', none of which
  -- finds the map of addresses full, and with a clock that does not run backwards, no more are
  -- admitted than the burst and the refill between the start and the last reading of the clock allow.
  pub admitted_bound :
      (requests : List Request) (rl : RateLimiter) (t : ℕ)
      → Dict.get ip rl.buckets ≡ none
      → IsTimed t requests
      → NeverFull requests rl
      → admitted ip requests rl * one_token
        ≤ rl.burst * one_token + (end_time t requests - t) * rl.rate
  unfolding admitted
  admitted_bound [] rl t absent timed room = omega arith
  admitted_bound (r ∷ requests) rl t absent timed room = elim (Bool-cases (r.ip === ip)) [
    | inl own ↦
        let next = (allow r.ip r.created r.now rl).0 in
        let full = bucket_or_full rl r.created none in
        let b' = (spend rl r.now full).0 in
        let same : r.ip ≡ ip = (===_iff r.ip ip).0 own in
        let absent' : Dict.get r.ip rl.buckets ≡ none =
          ap (λ k. Dict.get k rl.buckets) same ∙ absent in
        let free = room.0 in
        let found : Dict.get ip next.buckets ≡ some b' =
          get-allow r.ip ip r.created r.now rl free ∙ rw (own, absent') in
        let admits : (allow r.ip r.created r.now rl).1 ≡ (spend rl r.now full).1 =
          allow-admits r.ip r.created r.now rl free ∙ rw absent' in
        let (_, capped, now) = spend-paid rl r.now full in
        let rest =
          admitted_present requests next r.now b' found (omega (arith, now)) timed.2 room.1 in
        rw (own, admits)
          (first_step (as_count (spend rl r.now full).1) (admitted ip requests next) b'.tokens
            b'.last_seen next.rate (rl.burst * one_token) t r.now (end_time r.now requests) rl.rate
            now (allow-rate r.ip r.created r.now rl) (omega (arith, timed.0, timed.1))
            (le-end_time r.now requests timed.2) capped rest)
    | inr other ↦
        let next = (allow r.ip r.created r.now rl).0 in
        let free = room.0 in
        let absent' : Dict.get ip next.buckets ≡ none =
          get-allow r.ip ip r.created r.now rl free ∙ rw other absent in
        let rest = admitted_bound requests next r.now absent' timed.2 room.1 in
        rw other (
          later_step (admitted ip requests next) next.burst rl.burst t r.now
            (end_time r.now requests) next.rate rl.rate (allow-burst r.ip r.created r.now rl)
            (allow-rate r.ip r.created r.now rl) (omega (arith, timed.0, timed.1))
            (le-end_time r.now requests timed.2) rest)
  ]
