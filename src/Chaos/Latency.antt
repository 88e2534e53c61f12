-- ===== src/Chaos/Latency.antt =====
-- havocforge/chaos/ops/server/latency.py: the op that delays an answer, in milliseconds.
pub mod Bounds
use havoc_forge.Base.{ℕ, suc, ◌+◌, ◌*◌, ◌/◌, ◌^◌, String, Bool, List, [], ◌∷◌, leb, if◌then◌else◌}
use havoc_forge.Base.Int.{ℤ, pos, negsuc, pos_part, neg_part, ◌+ℤ◌, ◌-ℤ◌, ltb_ℤ}
use havoc_forge.Base.Text.{concat, show_ℕ}
use havoc_forge.Chaos.ListShuffle.{position}

pub record LatencyOp : Type 0 where
  pub min_ms : ℤ
  pub max_ms : ℤ

abbrev pub is_zero : ℤ → Bool
is_zero n = leb (pos_part n + neg_part n) 0

-- `int(max_ms or self.min_ms)`
abbrev pub new_latency : ℤ → ℤ → LatencyOp
new_latency min_ms max_ms = record {
  min_ms = min_ms;
  max_ms = if is_zero max_ms then min_ms else max_ms;
}

-- `budget_cost`, whose first part is max(0, max_ms).
abbrev pub latency_cost : LatencyOp → ℤ × ℕ
latency_cost op = (pos (pos_part op.max_ms), 0)

pub record LatencyResult (B : Type 0) : Type 0 where
  pub body : B
  pub descriptions : List String
  pub added_latency_ms : ℤ

abbrev pub show_ms : ℤ → String
show_ms (pos n) = show_ℕ n
show_ms (negsuc n) = concat ("-" ∷ show_ℕ (suc n) ∷ [])

abbrev pub delayed : {B R : Type 0} → B → ℤ × R → LatencyResult B × R
delayed body (delay, r) = (
  record {
    body = body;
    descriptions = concat ("latency(" ∷ show_ms delay ∷ "ms)" ∷ []) ∷ [];
    added_latency_ms = delay;
  },
  r,
)

module _ {R : Type 0} (random : R → ℕ × R) where
  -- `min_ms + int(rng.random() * (span + 1))`, with a draw only for a span above 0
  abbrev pub delay_in : ℤ → ℤ → R → ℤ × R
  delay_in min_ms span r =
      let (n, r') = random r in
      if ltb_ℤ (pos 0) span then (min_ms +ℤ pos (position n (pos_part span)), r') else (min_ms, r)

  -- What `apply` returns; the sleep, whose exceptions it ignores, changes nothing.
  unfoldable pub apply : {B : Type 0} → LatencyOp → B → R → LatencyResult B × R
  apply op body r =
      if ltb_ℤ (pos 0) op.max_ms
      then delayed body (delay_in op.min_ms (op.max_ms -ℤ op.min_ms) r)
      else (record { body = body; descriptions = []; added_latency_ms = pos 0 }, r)
