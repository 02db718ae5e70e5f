-- ===== src/Tracker/RateLimit/Tests.antt =====
-- Runs of the rate limiter.
use weightless.Prelude.{ℕ, ◌+◌, ◌-◌, ◌*◌, ◌≤◌, ◌≡◌, refl, List, [], ◌∷◌, codes, length, arith}
use weightless.Prelude.Dict
use weightless.Tracker.RateLimit.{RateLimiter, allow, spend, one_token}
use weightless.Tracker.RateLimit.Bounds.{
  Request, run, admitted, NeverFull, run-max_ips, admitted_bound,
}

-- One request a second, two at once, for two addresses
abbrev limiter : RateLimiter
limiter = record { buckets = []; rate = 1; burst = 2; max_ips = 5 }

abbrev request : ℕ → Request
request t = record { ip = codes "10.0.0.1"; created = t; now = t }

abbrev requests : List Request
requests = request 0 ∷ request 10 ∷ request 20 ∷ request 1_000_000_000 ∷ []

third_refused : admitted (codes "10.0.0.1") requests limiter ≡ 3
unfolding admitted allow spend Dict.get Dict.put
third_refused = refl

run-max_ips_example : length (run requests limiter).buckets ≤ 5
run-max_ips_example = run-max_ips requests limiter (omega arith) (omega arith)

never_full : NeverFull requests limiter
unfolding allow spend Dict.get Dict.put
never_full = (omega arith, (omega arith, (omega arith, (omega arith, tt))))

admitted_bound_example :
    admitted (codes "10.0.0.1") requests limiter * one_token
    ≤ 2 * one_token + (1_000_000_000 - 0) * 1
admitted_bound_example =
    admitted_bound (codes "10.0.0.1") requests limiter 0 (unfold Dict.get in refl)
      (
        omega arith,
        omega arith,
        (omega arith, omega arith, (omega arith, omega arith, (omega arith, omega arith, tt))),
      )
      never_full
