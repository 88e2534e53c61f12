-- ===== src/Chaos/Latency/Bounds.antt =====
-- latency.py: the delay against the cost that the op is budgeted at.
use havoc_forge.Base.{ℕ, zero, suc, ◌+◌, ◌^◌, ◌<◌, ◌≡◌, refl, ◌⊎◌, inl, inr, arith, true}
use havoc_forge.Base.Int.{
  ℤ, pos, negsuc, pos_part, neg_part, ◌+ℤ◌, ◌-ℤ◌, ◌≤ℤ◌, ltb_ℤ, +ℤ_parts, -ℤ_parts,
}
use havoc_forge.Chaos.ListShuffle.{position}
use havoc_forge.Chaos.ListShuffle.Same.{position-le}
use havoc_forge.Chaos.Latency.{LatencyOp, latency_cost, delay_in, apply}

infix 50 ◌<ℤ◌
abbrev pub ◌<ℤ◌ : ℤ → ℤ → Type 0
a <ℤ b = pos_part a + neg_part b < pos_part b + neg_part a

-- The limits are in order, and the delay is between the lower one and the cost; or they are not, and
-- it is the lower one and above the cost.
abbrev pub Delay : ℤ → ℤ → ℤ → ℤ → Type 0
Delay lo hi cost d = ((lo ≤ℤ hi) × (lo ≤ℤ d) × (d ≤ℤ cost)) ⊎ ((hi <ℤ lo) × (d ≡ lo) × (cost <ℤ d))

module _ {R : Type 0} (random : R → ℕ × R) (unit : (r : R) → (random r).0 < 2 ^ 53) where
  delay_drawn :
      (lo : ℤ) (k : ℕ) (r : R)
      → (delay_in random lo (pos (suc k)) r).0 ≡ lo +ℤ pos (position (random r).0 (suc k))
  delay_drawn lo k r = ground arith

  delay_fixed : (lo : ℤ) (k : ℕ) (r : R) → (delay_in random lo (negsuc k) r).0 ≡ lo
  delay_fixed lo k r = ground arith

  span-Delay :
      (lo span : ℤ) (n : ℕ) (r : R)
      → pos_part span + neg_part (pos n) + pos_part lo
        ≡ neg_part span + pos_part (pos n) + neg_part lo
      → Delay lo (pos n) (pos n) (delay_in random lo span r).0
  span-Delay lo (pos zero) n r e = inl (omega (arith, e), omega arith, omega (arith, e))
  span-Delay lo (pos (suc k)) n r e =
      let drawn = position (random r).0 (suc k) in
      let low = position-le (random r).0 (suc k) (unit r) in
      let parts = +ℤ_parts lo (pos drawn) in
      rw (delay_drawn lo k r)
        (inl (omega (arith, e), omega (arith, parts), omega (arith, e, parts, low)))
  span-Delay lo (negsuc k) n r e =
      rw (delay_fixed lo k r) (inr (omega (arith, e), refl, omega (arith, e)))

  delay_in-Delay :
      (lo hi : ℤ) (r : R)
      → pos 0 <ℤ hi
      → Delay lo hi (pos (pos_part hi)) (delay_in random lo (hi -ℤ lo) r).0
  delay_in-Delay lo (pos n) r h =
      span-Delay lo (pos n -ℤ lo) n r (omega (arith, -ℤ_parts (pos n) lo))
  delay_in-Delay lo (negsuc n) r h = absurd (omega (arith, h))

  -- An answer that an op with a greatest delay above 0 touches is delayed by at least min_ms and at
  -- most the cost that budget_cost names, if min_ms is at most max_ms; else by min_ms, which is above
  -- that cost. The body stays.
  pub apply-IsDelayed :
      {B : Type 0} (op : LatencyOp) (body : B) (r : R)
      → pos 0 <ℤ op.max_ms
      → Delay op.min_ms op.max_ms (latency_cost op).0 (apply random op body r).0.added_latency_ms
        × ((apply random op body r).0.body ≡ body)
  unfolding apply
  apply-IsDelayed op body r h =
      let positive : ltb_ℤ (pos 0) op.max_ms ≡ true = ground (arith, h) in
      simp positive (delay_in-Delay op.min_ms op.max_ms r h, refl)
