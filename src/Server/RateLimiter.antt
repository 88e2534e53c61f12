-- ===== src/Server/RateLimiter.antt =====
-- server/rate_limiter.py: the token bucket of the streaming endpoint.
-- Clock readings and durations are whole microseconds and tokens are counted in millionths, so a
-- refill of `elapsed * rate` is exact; the rounding of the source's floats is not modelled. Each
-- reading of the clock is an argument of its own: the clock may step back between two of them.
pub mod Bounds
pub mod Throughput
use havoc_forge.Base.{
  ℕ, ◌+◌, ◌-◌, ◌*◌, ◌/◌, Bool, true, false, ◌&&◌, Option, none, some, List, [], ◌∷◌, ◌++◌, ltb, leb,
  eqb, if◌then◌else◌, length,
}
use havoc_forge.Base.Int.{ℤ, pos, negsuc, ◌+ℤ◌, ◌-ℤ◌, ◌*ℤ◌, ltb_ℤ}
use havoc_forge.Base.Find.{last}

abbrev pub million : ℕ
million = 1000000

-- A sample is the time and the number of events of one call that was granted.
pub record AdaptiveRateLimiter : Type 0 where
  pub base_rate : ℕ
  pub current_rate : ℕ
  pub tokens : ℤ
  pub last_refill : ℕ
  pub burst_active : Bool
  pub burst_until : Option ℕ
  pub burst_rate : Option ℕ
  pub auto_detect : Bool
  pub auto_detect_sample_size : ℕ
  pub samples : List (ℕ × ℕ)
  pub total_events : ℕ

abbrev pub whole : ℕ → ℤ
whole n = pos (n * million)

abbrev pub new_limiter : ℕ → Bool → ℕ → ℕ → AdaptiveRateLimiter
new_limiter base_rate auto_detect sample_size now = record {
  base_rate = base_rate;
  current_rate = base_rate;
  tokens = whole base_rate;
  last_refill = now;
  burst_active = false;
  burst_until = none;
  burst_rate = none;
  auto_detect = auto_detect;
  auto_detect_sample_size = sample_size;
  samples = [];
  total_events = 0;
}

unfoldable pub activate_burst : ℕ → ℕ → ℕ → AdaptiveRateLimiter → AdaptiveRateLimiter
activate_burst burst_rate duration now r = record r {
  burst_active = true;
  burst_rate = some burst_rate;
  burst_until = some (now + duration);
  current_rate = burst_rate;
  tokens = whole burst_rate;
}

abbrev pub min_ℤ : ℤ → ℤ → ℤ
min_ℤ a b = if ltb_ℤ b a then b else a

-- A time of 0 counts as no time, as in the source's `self.burst_until and …`.
abbrev pub past : Option ℕ → ℕ → Bool
past none now = false
past (some t) now = if eqb t 0 then false else ltb t now

unfoldable pub check_burst_expiration : ℕ → AdaptiveRateLimiter → AdaptiveRateLimiter
check_burst_expiration now r =
    if r.burst_active && past r.burst_until now
    then record r {
      burst_active = false;
      burst_until = none;
      burst_rate = none;
      current_rate = r.base_rate;
      tokens = min_ℤ r.tokens (whole r.base_rate);
    }
    else r

abbrev pub distance : ℕ → ℕ → ℕ
distance a b = (a - b) + (b - a)

-- `int(total_events / elapsed * 0.9)` for an elapsed time in microseconds
abbrev pub safe_rate : ℕ → ℕ → ℕ
safe_rate total elapsed = total * 900000 / elapsed

-- The new rate is taken if it differs from the current one by more than a fifth of it.
unfoldable pub adopt_rate : ℕ → AdaptiveRateLimiter → AdaptiveRateLimiter
adopt_rate new_rate r =
    if ltb r.current_rate (5 * distance new_rate r.current_rate)
    then record r {
      base_rate = new_rate;
      current_rate = if r.burst_active then r.current_rate else new_rate;
      samples = [];
      total_events = 0;
    }
    else r

abbrev pub adjust_between : AdaptiveRateLimiter → ℕ × ℕ → Option (ℕ × ℕ) → AdaptiveRateLimiter
adjust_between r first none = r
adjust_between r first (some newest) =
    if ltb first.0 newest.0 then adopt_rate (safe_rate r.total_events (newest.0 - first.0)) r else r

-- One sample alone, `len(self.samples) < 2`, has no `last rest`.
abbrev pub adjust_over : AdaptiveRateLimiter → List (ℕ × ℕ) → AdaptiveRateLimiter
adjust_over r [] = r
adjust_over r (first ∷ rest) = adjust_between r first (last rest)

unfoldable pub adjust_rate : AdaptiveRateLimiter → AdaptiveRateLimiter
unfolding adopt_rate
adjust_rate r = adjust_over r r.samples

-- `samples.append(…)`, and `samples.pop(0)` where there are too many
abbrev pub drop_from : AdaptiveRateLimiter → List (ℕ × ℕ) → AdaptiveRateLimiter
drop_from r [] = r
drop_from r (oldest ∷ rest) = record r { samples = rest; total_events = r.total_events - oldest.1 }

abbrev pub drop_oldest : AdaptiveRateLimiter → AdaptiveRateLimiter
drop_oldest r = drop_from r r.samples

abbrev pub add_sample : ℕ → ℕ → AdaptiveRateLimiter → AdaptiveRateLimiter
add_sample count now r = record r {
  samples = r.samples ++ (now, count) ∷ [];
  total_events = r.total_events + count;
}

abbrev pub trim_samples : AdaptiveRateLimiter → AdaptiveRateLimiter
trim_samples r = if ltb r.auto_detect_sample_size (length r.samples) then drop_oldest r else r

unfoldable pub record_sample : ℕ → ℕ → AdaptiveRateLimiter → AdaptiveRateLimiter
record_sample count now r =
    if r.auto_detect
    then (let r' = trim_samples (add_sample count now r) in
        if leb r'.auto_detect_sample_size (length r'.samples) then adjust_rate r' else r')
    else r

unfoldable pub refill : ℕ → AdaptiveRateLimiter → AdaptiveRateLimiter
refill now r =
    let elapsed = pos now -ℤ pos r.last_refill in
    let refill_amount = elapsed *ℤ pos r.current_rate in
    record r {
      tokens = min_ℤ (whole r.current_rate) (r.tokens +ℤ refill_amount);
      last_refill = now;
    }

-- The three readings of the clock, in the order in which a call takes them.
pub record Clock : Type 0 where
  pub checked : ℕ
  pub refilled : ℕ
  pub sampled : ℕ

abbrev pub take_tokens : ℕ → ℕ → AdaptiveRateLimiter → Bool × AdaptiveRateLimiter
take_tokens count sampled r =
    if ltb_ℤ r.tokens (whole count)
    then (false, r)
    else (true, record_sample count sampled (record r { tokens = r.tokens -ℤ whole count }))

unfoldable pub consume : Clock → ℕ → AdaptiveRateLimiter → Bool × AdaptiveRateLimiter
unfolding check_burst_expiration refill record_sample
consume t count r =
    take_tokens count t.sampled (refill t.refilled (check_burst_expiration t.checked r))

pub record Stats : Type 0 where
  pub current_rate : ℕ
  pub base_rate : ℕ
  pub tokens_available : ℤ
  pub burst_active : Bool
  pub burst_rate : Option ℕ
  pub burst_expires_in : Option ℕ
  pub auto_detect_enabled : Bool
  pub samples_collected : ℕ

-- `int(tokens)`, which drops the fraction also below 0
abbrev pub whole_tokens : ℤ → ℤ
whole_tokens (pos n) = pos (n / million)
whole_tokens (negsuc n) = pos 0 -ℤ pos ((n + 1) / million)

-- `max(0, self.burst_until - time.time())`, if there is a time
abbrev pub expires_in : Option ℕ → ℕ → Option ℕ
expires_in none now = none
expires_in (some t) now = if eqb t 0 then none else some (t - now)

unfoldable pub get_stats : ℕ → AdaptiveRateLimiter → Stats
get_stats now r = record {
  current_rate = r.current_rate;
  base_rate = r.base_rate;
  tokens_available = whole_tokens r.tokens;
  burst_active = r.burst_active;
  burst_rate = r.burst_rate;
  burst_expires_in = expires_in r.burst_until now;
  auto_detect_enabled = r.auto_detect;
  samples_collected = length r.samples;
}
