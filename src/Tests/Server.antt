-- ===== src/Tests/Server.antt =====
-- The two rate limiters at concrete inputs.
use havoc_forge.Base.{
  ℕ, ◌+◌, ◌-◌, ◌*◌, ◌≤◌, String, true, false, ◌≡◌, refl, List, [], ◌∷◌, arith, ltb,
}
use havoc_forge.Base.Int.{pos, ◌+ℤ◌, ◌*ℤ◌, ◌-ℤ◌}
use havoc_forge.Base.Find.{count}
use havoc_forge.Server.RateLimiter.{
  AdaptiveRateLimiter, Clock, million, new_limiter, consume, check_burst_expiration, adjust_rate,
  refill, get_stats,
}
use havoc_forge.Server.RateLimiter.Throughput.{run, Holds, run_throughput, granted-iff-le_rate}
use havoc_forge.Server.RateLimiter.Bounds.{
  IsAccounted, consume-IsAccounted, answers, all_refused, adjusted_to_zero,
}
use havoc_forge.Server.IpRateLimiter.{allow}
use havoc_forge.Server.IpRateLimiter.Bucket.{recent}
use havoc_forge.Server.IpRateLimiter.Window.{after, grants, allow_exact}

abbrev at_time : ℕ → Clock
at_time t = record { checked = t; refilled = t; sampled = t }

abbrev calls : List (Clock × ℕ)
calls = (at_time 10, 2) ∷ (at_time 500000, 3) ∷ (at_time 2500000, 3) ∷ []

abbrev ended : ℕ × AdaptiveRateLimiter
ended = run calls (new_limiter 3 false 10 0)

run_throughput_example : ended.0 * million ≤ 3 * million + (ended.1.last_refill - 0) * 3
run_throughput_example = run_throughput 3 10 0 calls (omega arith, (omega arith, (omega arith, tt)))

abbrev idle : AdaptiveRateLimiter
idle = record (new_limiter 3 false 10 0) { tokens = pos 500000 }

idle-Holds : Holds 3 0 500000 idle
idle-Holds = record {
  steady = record { no_burst = refl; no_detect = refl };
  rate_is = refl;
  last_is = refl;
  level = refl;
}

granted-iff-le_rate_example : (consume (at_time 1000000) 3 idle).0 ≡ true
granted-iff-le_rate_example =
    granted-iff-le_rate 3 0 500000 3 (at_time 1000000) idle (omega arith) idle-Holds

abbrev sampling : AdaptiveRateLimiter
sampling = record (new_limiter 5 true 2 0) {
  samples = (0, 1) ∷ (9000000, 1) ∷ [];
  total_events = 2;
}

sampling-IsAccounted : IsAccounted sampling
sampling-IsAccounted = record { total = refl; bounded = omega arith }

consume-IsAccounted_example : IsAccounted (consume (at_time 10000000) 2 sampling).1
consume-IsAccounted_example = consume-IsAccounted (at_time 10000000) 2 sampling sampling-IsAccounted

sampling_grants : (consume (at_time 10000000) 5 sampling).0 ≡ true
unfolding consume refill check_burst_expiration ◌+ℤ◌ ◌*ℤ◌ ◌-ℤ◌
sampling_grants = refl

abbrev asked : List (Clock × ℕ)
asked = (at_time 10000000, 1) ∷ (at_time 90000000, 2) ∷ []

adjusted_to_zero_example : answers asked (adjust_rate sampling) ≡ all_refused asked
adjusted_to_zero_example =
    adjusted_to_zero sampling (0, 1) (9000000, 1) [] refl refl (omega arith) (omega arith) asked
      (omega arith, (omega arith, tt))

-- Two calls in a window of 60 seconds, the newest first.
abbrev earlier : List (String × ℕ)
earlier = ("10.0.0.1", 70) ∷ ("10.0.0.2", 60) ∷ ("10.0.0.1", 55) ∷ ("10.0.0.1", 0) ∷ []

allow_exact_example :
    (allow "10.0.0.1" 80 (after 2 60 earlier)).0
    ≡ ltb (count (recent 60 80) (grants 2 60 "10.0.0.1" earlier)) 2
allow_exact_example =
    allow_exact 2 60 "10.0.0.1" 80 earlier
      (omega arith, (omega arith, (omega arith, (omega arith, tt))))

stats_of_idle : (get_stats 5 idle).tokens_available ≡ pos 0
unfolding get_stats
stats_of_idle = refl
