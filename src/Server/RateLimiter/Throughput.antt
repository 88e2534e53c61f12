-- ===== src/Server/RateLimiter/Throughput.antt =====
-- How many events the bucket lets through in a stretch of time.

use havoc_forge.Base.{
  ℕ, ◌+◌, ◌-◌, ◌*◌, ◌≤◌, Bool, true, false, ◌≡◌, refl, ◌∙◌, List, [], ◌∷◌, if◌then◌else◌, arith,
  ltb, leb, Bool-cases, inl, inr,
}
use havoc_forge.Base.Int.{pos, ◌+ℤ◌, ◌-ℤ◌, ◌*ℤ◌, ltb_ℤ}
use havoc_forge.Server.RateLimiter.{
  AdaptiveRateLimiter, Clock, consume, refill, check_burst_expiration, record_sample, take_tokens,
  million, whole, min_ℤ, new_limiter,
}

-- A run of calls, each at its clock readings: the events granted in all, and the limiter after it.
abbrev pub granted : Bool → ℕ → ℕ
granted true count = count
granted false count = 0

pub run : List (Clock × ℕ) → AdaptiveRateLimiter → ℕ × AdaptiveRateLimiter
run [] r = (0, r)
run ((t, count) ∷ calls) r =
    let (ok, r') = consume t count r in
    let (total, r'') = run calls r' in (granted ok count + total, r'')

-- No burst is on and the rate is not adjusted.
pub record IsSteady (r : AdaptiveRateLimiter) : Type 0 where
  pub no_burst : r.burst_active ≡ false
  pub no_detect : r.auto_detect ≡ false

-- The bucket holds `a` millionths of a token.
pub record Holds (rate last a : ℕ) (r : AdaptiveRateLimiter) : Type 0 where
  pub steady : IsSteady r
  pub rate_is : r.current_rate ≡ rate
  pub last_is : r.last_refill ≡ last
  pub level : r.tokens ≡ pos a

-- What one call leaves in the bucket.
refilled : (rate last a now : ℕ) → ℕ
refilled rate last a now =
    let full = a + (now - last) * rate in if ltb (rate * million) full then rate * million else full

refilled-le : (rate last a now : ℕ) → refilled rate last a now ≤ a + (now - last) * rate
unfolding refilled
refilled-le rate last a now = ground arith

refill-level :
    (rate last a now : ℕ)
    → last ≤ now
    → min_ℤ (whole rate) (pos a +ℤ (pos now -ℤ pos last) *ℤ pos rate)
      ≡ pos (refilled rate last a now)
unfolding refilled ◌+ℤ◌ ◌-ℤ◌ ◌*ℤ◌
refill-level rate last a now h = ground arith

refill-Holds :
    (rate last a now : ℕ) (r : AdaptiveRateLimiter)
    → last ≤ now
    → Holds rate last a r
    → Holds rate now (refilled rate last a now) (refill now r)
unfolding refill
refill-Holds rate last a now r le h = record {
  steady = record { no_burst = h.steady.no_burst; no_detect = h.steady.no_detect };
  rate_is = h.rate_is;
  last_is = refl;
  level = rw (h.rate_is, h.last_is, h.level) (refill-level rate last a now le);
}

record_sample-off :
    (count sampled : ℕ) (r : AdaptiveRateLimiter)
    → r.auto_detect ≡ false
    → record_sample count sampled r ≡ r
unfolding record_sample
record_sample-off count sampled r e = rw (record_sample, e)

take-level : (a count : ℕ) → count * million ≤ a → pos a -ℤ whole count ≡ pos (a - count * million)
unfolding ◌-ℤ◌
take-level a count h = ground arith

-- What the bucket holds after a call for `count` events that found `a` in it.
abbrev rest_of : ℕ → ℕ → ℕ
rest_of a count = if ltb a (count * million) then a else a - count * million

take-Holds :
    (rate last a count sampled : ℕ) (r : AdaptiveRateLimiter)
    → Holds rate last a r
    → Holds rate last (rest_of a count) (take_tokens count sampled r).1
      × (granted (take_tokens count sampled r).0 count * million + rest_of a count ≡ a)
take-Holds rate last a count sampled r h = elim (Bool-cases (ltb a (count * million))) [
  | inl short ↦
      let test : ltb_ℤ r.tokens (whole count) ≡ true = rw h.level (ground arith) in
      rw (take_tokens, test, short) (h, omega arith)
  | inr enough ↦
      let test : ltb_ℤ r.tokens (whole count) ≡ false = rw h.level (ground arith) in
      rw
        (
          take_tokens,
          test,
          enough,
          record_sample-off count sampled (record r { tokens = r.tokens -ℤ whole count })
              h.steady.no_detect,
        )
        (
          record {
            steady = record { no_burst = h.steady.no_burst; no_detect = h.steady.no_detect };
            rate_is = h.rate_is;
            last_is = h.last_is;
            level = rw h.level (take-level a count (ground arith));
          },
          ground arith,
        )
]

take_test :
    (rate last a count sampled : ℕ) (r : AdaptiveRateLimiter)
    → Holds rate last a r
    → (take_tokens count sampled r).0 ≡ leb (count * million) a
take_test rate last a count sampled r h = rw (h.level) (ground arith)

check-steady : (now : ℕ) (r : AdaptiveRateLimiter) → IsSteady r → check_burst_expiration now r ≡ r
unfolding check_burst_expiration
check-steady now r h = rw (check_burst_expiration, h.no_burst)

consume-Holds :
    (rate last a count : ℕ) (t : Clock) (r : AdaptiveRateLimiter)
    → last ≤ t.refilled
    → Holds rate last a r
    → let b = rest_of (refilled rate last a t.refilled) count in
      Holds rate t.refilled b (consume t count r).1
      × (granted (consume t count r).0 count * million + b ≤ a + (t.refilled - last) * rate)
unfolding consume
consume-Holds rate last a count t r le h =
    let level = refilled rate last a t.refilled in
    let (h', spent) =
      take-Holds rate t.refilled level count t.sampled (refill t.refilled r)
        (refill-Holds rate last a t.refilled r le h) in
    rw (consume, check-steady t.checked r h.steady)
      (h', omega (arith, refilled-le rate last a t.refilled))

-- The readings by which the bucket is refilled do not step back.
abbrev pub IsForward : ℕ → List (Clock × ℕ) → Type 0
IsForward last [] = Unit
IsForward last ((t, count) ∷ calls) = (last ≤ t.refilled) × IsForward t.refilled calls

mul-le : (m n k : ℕ) → m ≤ n → m * k ≤ n * k
mul-le m n k h = grind arith

split_mul : (a b c k : ℕ) → a ≤ b → b ≤ c → (c - a) * k ≡ (b - a) * k + (c - b) * k
split_mul a b c k h h' = let e : c - a ≡ (b - a) + (c - b) = omega arith in rw e (omega arith)

run-Holds :
    (rate last a : ℕ) (calls : List (Clock × ℕ)) (r : AdaptiveRateLimiter)
    → IsForward last calls
    → Holds rate last a r
    → (last ≤ (run calls r).1.last_refill)
      × ((run calls r).0 * million ≤ a + ((run calls r).1.last_refill - last) * rate)
unfolding run
run-Holds rate last a [] r f h = (rw h.last_is (omega arith), omega arith)
run-Holds rate last a ((t, count) ∷ calls) r f h =
    let b = rest_of (refilled rate last a t.refilled) count in
    let (h', step) = consume-Holds rate last a count t r f.0 h in
    let (later, total) = run-Holds rate t.refilled b calls (consume t count r).1 f.1 h' in
    let end = (run calls (consume t count r).1).1.last_refill in
    let split : (end - last) * rate ≡ (t.refilled - last) * rate + (end - t.refilled) * rate =
      split_mul last t.refilled end rate f.0 later in
    (omega arith, omega arith)

new-Holds : (base size now : ℕ) → Holds base now (base * million) (new_limiter base false size now)
new-Holds base size now = record {
  steady = record { no_burst = refl; no_detect = refl };
  rate_is = refl;
  last_is = refl;
  level = refl;
}

-- A new limiter without rate detection, on any run of calls with no burst, whose refill times do
-- not step back: the events granted in all are at most the base rate times the seconds from its
-- start to the last refill, and one second's worth more.
pub run_throughput :
    (base size start : ℕ) (calls : List (Clock × ℕ))
    → IsForward start calls
    → let res = run calls (new_limiter base false size start) in
      res.0 * million ≤ base * million + (res.1.last_refill - start) * base
run_throughput base size start calls f =
    (run-Holds base start (base * million) calls _ f (new-Holds base size start)).1

refilled_full :
    (rate last a now : ℕ) → last + million ≤ now → refilled rate last a now ≡ rate * million
unfolding refilled
refilled_full rate last a now h =
    let long : million * rate ≤ (now - last) * rate =
      mul-le million (now - last) rate (omega arith) in
    ground arith

granted_exactly :
    (rate last a count : ℕ) (t : Clock) (r : AdaptiveRateLimiter)
    → last ≤ t.refilled
    → Holds rate last a r
    → (consume t count r).0 ≡ leb (count * million) (refilled rate last a t.refilled)
unfolding consume
granted_exactly rate last a count t r le h =
    let level = refilled rate last a t.refilled in
    let h' = refill-Holds rate last a t.refilled r le h in
    rw (consume, check-steady t.checked r h.steady)
      (take_test rate t.refilled level count t.sampled (refill t.refilled r) h')

-- With no burst and no detection, and at least a second after the last refill, a call is granted
-- exactly if it asks for no more events than the rate: a greater batch is refused however long the
-- caller waits.
pub granted-iff-le_rate :
    (rate last a count : ℕ) (t : Clock) (r : AdaptiveRateLimiter)
    → last + million ≤ t.refilled
    → Holds rate last a r
    → (consume t count r).0 ≡ leb count rate
granted-iff-le_rate rate last a count t r le h =
    granted_exactly rate last a count t r (omega arith) h
    ∙ rw (refilled_full rate last a t.refilled le) (ground arith)
