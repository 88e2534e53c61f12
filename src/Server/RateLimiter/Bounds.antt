-- ===== src/Server/RateLimiter/Bounds.antt =====
-- What every call keeps, whatever the clock reads: the account of the samples, and the rate in force.
use native.Mathlib.Nat.{div-eq_of_lt}
use mathlib.Core.Path.{subst, sym}
use havoc_forge.Base.Find.{last, last-append_one}
use havoc_forge.Base.{
  ℕ, Option, none, some, ◌+◌, ◌-◌, ◌*◌, ◌≤◌, ◌<◌, Bool, true, false, ◌≡◌, refl, ap, List, [], ◌∷◌,
  ◌++◌, arith, ltb, Bool-cases, if_both, ◌&&◌, inl, inr, length, length-append,
}
use havoc_forge.Base.Int.{◌-ℤ◌, ltb_ℤ, ◌≤ℤ◌}
use havoc_forge.Server.RateLimiter.{
  AdaptiveRateLimiter, Clock, consume, refill, check_burst_expiration, record_sample, take_tokens,
  whole, activate_burst, adjust_rate, adopt_rate, adjust_over, adjust_between, add_sample,
  drop_from, trim_samples, safe_rate, past, distance,
}

abbrev pub events : List (ℕ × ℕ) → ℕ
events [] = 0
events ((t, n) ∷ l) = n + events l

events-append_one : (l : List (ℕ × ℕ)) (t n : ℕ) → events (l ++ (t, n) ∷ []) ≡ events l + n
events-append_one [] t n = omega arith
events-append_one ((u, m) ∷ l) t n = omega (arith, events-append_one l t n)

-- The running total is that of the kept samples, of which there are no more than the sample size.
pub record IsAccounted (r : AdaptiveRateLimiter) : Type 0 where
  pub total : r.total_events ≡ events r.samples
  pub bounded : length r.samples ≤ r.auto_detect_sample_size

adopt_rate-IsAccounted :
    (n : ℕ) (r : AdaptiveRateLimiter) → IsAccounted r → IsAccounted (adopt_rate n r)
unfolding adopt_rate
adopt_rate-IsAccounted n r h = ground arith

adjust_over-IsAccounted :
    (r : AdaptiveRateLimiter) (l : List (ℕ × ℕ)) → IsAccounted r → IsAccounted (adjust_over r l)
adjust_over-IsAccounted r [] h = h
adjust_over-IsAccounted r (x ∷ []) h = h
adjust_over-IsAccounted r (x ∷ y ∷ l) h = go (last (y ∷ l))
  where
    go : (o : Option (ℕ × ℕ)) → IsAccounted (adjust_between r x o)
    go none = h
    go (some newest) = elim (Bool-cases (ltb x.0 newest.0)) [
      | inl e ↦ rw e (adopt_rate-IsAccounted _ r h)
      | inr e ↦ rw e h
    ]

adjust_rate-IsAccounted : (r : AdaptiveRateLimiter) → IsAccounted r → IsAccounted (adjust_rate r)
unfolding adjust_rate
adjust_rate-IsAccounted r h = adjust_over-IsAccounted r r.samples h

-- The account before the list is trimmed: it may be one sample too long.
drop_from-IsAccounted :
    (r : AdaptiveRateLimiter) (l : List (ℕ × ℕ))
    → r.total_events ≡ events l
    → length l ≤ r.auto_detect_sample_size + 1
    → 0 < length l
    → IsAccounted (drop_from r l)
drop_from-IsAccounted r [] e le pos_len = absurd (omega arith)
drop_from-IsAccounted r ((t, n) ∷ l) e le pos_len = record {
  total = omega arith;
  bounded = omega arith;
}

trim_samples-IsAccounted :
    (r : AdaptiveRateLimiter)
    → r.total_events ≡ events r.samples
    → length r.samples ≤ r.auto_detect_sample_size + 1
    → IsAccounted (trim_samples r)
trim_samples-IsAccounted r e le =
    elim (Bool-cases (ltb r.auto_detect_sample_size (length r.samples))) [
      | inl long ↦ rw long (drop_from-IsAccounted r r.samples e le (ground arith))
      | inr short ↦ rw short (record { total = e; bounded = ground arith })
    ]

record_sample-IsAccounted :
    (count now : ℕ) (r : AdaptiveRateLimiter)
    → IsAccounted r
    → IsAccounted (record_sample count now r)
unfolding record_sample
record_sample-IsAccounted count now r h =
    let h' =
      trim_samples-IsAccounted (add_sample count now r)
        (rw (events-append_one r.samples now count) (omega arith))
        (rw (length-append {0} r.samples ((now, count) ∷ [])) (omega arith)) in
    if_both IsAccounted r.auto_detect (if_both IsAccounted _ (adjust_rate-IsAccounted _ h') h') h

check-IsAccounted :
    (now : ℕ) (r : AdaptiveRateLimiter) → IsAccounted r → IsAccounted (check_burst_expiration now r)
unfolding check_burst_expiration
check-IsAccounted now r h =
    if_both IsAccounted (r.burst_active && past r.burst_until now)
      (record { total = h.total; bounded = h.bounded }) h

take-IsAccounted :
    (count sampled : ℕ) (r : AdaptiveRateLimiter)
    → IsAccounted r
    → IsAccounted (take_tokens count sampled r).1
take-IsAccounted count sampled r h =
    let r' : AdaptiveRateLimiter = record r { tokens = r.tokens -ℤ whole count } in
    if_both (λ (x : Bool × AdaptiveRateLimiter). IsAccounted x.1) (ltb_ℤ r.tokens (whole count))
      {x = (false, r)} {y = (true, record_sample count sampled r')} h
      (record_sample-IsAccounted count sampled r' (record { total = h.total; bounded = h.bounded }))

-- Every call, granted or not, at any clock readings, keeps the account of the samples: the running
-- total is that of the kept samples, and no more are kept than the sample size.
pub consume-IsAccounted :
    (t : Clock) (count : ℕ) (r : AdaptiveRateLimiter)
    → IsAccounted r
    → IsAccounted (consume t count r).1
unfolding consume refill
consume-IsAccounted t count r h =
    let c = check-IsAccounted t.checked r h in
    take-IsAccounted count t.sampled (refill t.refilled (check_burst_expiration t.checked r))
      (record { total = c.total; bounded = c.bounded })

pub activate_burst-IsAccounted :
    (rate duration now : ℕ) (r : AdaptiveRateLimiter)
    → IsAccounted r
    → IsAccounted (activate_burst rate duration now r)
unfolding activate_burst
activate_burst-IsAccounted rate duration now r h = record { total = h.total; bounded = h.bounded }

refill-le : (now : ℕ) (r : AdaptiveRateLimiter) → (refill now r).tokens ≤ℤ whole r.current_rate
unfolding refill
refill-le now r = ground arith

taken-le :
    (count sampled : ℕ) (r : AdaptiveRateLimiter)
    → (take_tokens count sampled r).0 ≡ true
    → whole count ≤ℤ r.tokens
taken-le count sampled r h = ground arith

-- A granted call asks for no more events than the rate that is in force after the burst check,
-- whatever the clock reads and whatever the limiter did before.
pub granted-le_rate :
    (t : Clock) (count : ℕ) (r : AdaptiveRateLimiter)
    → (consume t count r).0 ≡ true
    → count ≤ (check_burst_expiration t.checked r).current_rate
unfolding consume
granted-le_rate t count r h =
    let c = check_burst_expiration t.checked r in
    let low = taken-le count t.sampled (refill t.refilled c) h in
    omega (arith, low, refill-le t.refilled c)

-- No burst is on, and the rate in force is 0.
pub record IsStuck (r : AdaptiveRateLimiter) : Type 0 where
  pub no_burst : r.burst_active ≡ false
  pub zero_rate : r.current_rate ≡ 0

check-no_burst :
    (now : ℕ) (r : AdaptiveRateLimiter) → r.burst_active ≡ false → check_burst_expiration now r ≡ r
unfolding check_burst_expiration
check-no_burst now r h = rw (check_burst_expiration, h)

-- Outside a burst, a call for more than the rate is refused and only refills.
pub consume_short :
    (t : Clock) (count : ℕ) (r : AdaptiveRateLimiter)
    → r.burst_active ≡ false
    → r.current_rate < count
    → consume t count r ≡ (false, refill t.refilled r)
unfolding consume
consume_short t count r nb more =
    let low = refill-le t.refilled r in
    let short : ltb_ℤ (refill t.refilled r).tokens (whole count) ≡ true = ground arith in
    rw (consume, check-no_burst t.checked r nb, short)

consume-IsStuck :
    (t : Clock) (count : ℕ) (r : AdaptiveRateLimiter)
    → 0 < count
    → IsStuck r
    → consume t count r ≡ (false, refill t.refilled r)
consume-IsStuck t count r some_events h =
    consume_short t count r h.no_burst (omega (arith, h.zero_rate))

-- The answers of a run of calls.
pub answers : List (Clock × ℕ) → AdaptiveRateLimiter → List Bool
answers [] r = []
answers ((t, count) ∷ calls) r = (consume t count r).0 ∷ answers calls (consume t count r).1

abbrev pub AskSome : List (Clock × ℕ) → Type 0
AskSome [] = Unit
AskSome ((t, count) ∷ calls) = (0 < count) × AskSome calls

abbrev pub all_refused : List (Clock × ℕ) → List Bool
all_refused [] = []
all_refused (c ∷ calls) = false ∷ all_refused calls

answers-IsStuck :
    (calls : List (Clock × ℕ)) (r : AdaptiveRateLimiter)
    → AskSome calls
    → IsStuck r
    → answers calls r ≡ all_refused calls
unfolding answers refill
answers-IsStuck [] r a h = refl
answers-IsStuck ((t, count) ∷ calls) r a h = rw (consume-IsStuck t count r a.0 h) (
    ap (λ l. false ∷ l)
      (answers-IsStuck calls (refill t.refilled r) a.1
        (record { no_burst = h.no_burst; zero_rate = h.zero_rate })))

adopt_zero :
    (r : AdaptiveRateLimiter)
    → r.burst_active ≡ false
    → 0 < r.current_rate
    → IsStuck (adopt_rate 0 r)
unfolding adopt_rate
adopt_zero r nb rate =
    let changes : ltb r.current_rate (5 * distance 0 r.current_rate) ≡ true = ground arith in
    rw (adopt_rate, changes) (record { no_burst = nb; zero_rate = rw nb refl })

adjust_over-IsStuck :
    (r : AdaptiveRateLimiter) (first newest : ℕ × ℕ) (middle : List (ℕ × ℕ))
    → r.burst_active ≡ false
    → 0 < r.current_rate
    → r.total_events * 900000 + first.0 < newest.0
    → IsStuck (adjust_over r (first ∷ middle ++ newest ∷ []))
adjust_over-IsStuck r first newest middle nb rate slow =
    let later : ltb first.0 newest.0 ≡ true = ground arith in
    let none_left : safe_rate r.total_events (newest.0 - first.0) ≡ 0 =
      div-eq_of_lt (omega arith) in
    rw (last-append_one middle newest, later, none_left) (adopt_zero r nb rate)

-- Rate detection can set the rate to 0: outside a burst, where the kept samples span more than
-- 0.9 seconds for each of their events, the adjusted rate is 0, and from then on every call for one
-- event or more is refused, at any clock readings.
pub adjusted_to_zero :
    (r : AdaptiveRateLimiter) (first newest : ℕ × ℕ) (middle : List (ℕ × ℕ))
    → r.samples ≡ first ∷ middle ++ newest ∷ []
    → r.burst_active ≡ false
    → 0 < r.current_rate
    → r.total_events * 900000 + first.0 < newest.0
    → (calls : List (Clock × ℕ)) → AskSome calls
    → answers calls (adjust_rate r) ≡ all_refused calls
unfolding adjust_rate
adjusted_to_zero r first newest middle es nb rate slow calls a =
    answers-IsStuck calls (adjust_rate r) a (
      subst (λ l. IsStuck (adjust_over r l)) (sym es)
        (adjust_over-IsStuck r first newest middle nb rate slow))
