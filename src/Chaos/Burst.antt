-- ===== src/Chaos/Burst.antt =====
-- havocforge/chaos/ops/network/burst.py: the op that announces bursts of traffic and keeps the burst
-- that is on. Times are in microseconds, the duration in whole seconds; a time of 0 counts as none.
pub mod Window
use havoc_forge.Base.{
  ℕ, ◌+◌, ◌*◌, Bool, true, false, ◌&&◌, Option, none, some, leb, eqb, if◌then◌else◌,
}
use havoc_forge.Base.Int.{ℤ, pos, ltb_ℤ}
use havoc_forge.Chaos.Op.{Rng}
use mathlib.Core.Bool.{not}

pub record BurstOp : Type 0 where
  pub enabled : Bool
  pub probability : ℤ
  pub burst_rate : ℕ
  pub burst_duration : ℕ
  pub require_cache_items : Option ℕ
  pub burst_active : Bool
  pub burst_start : Option ℕ

abbrev pub new_op : Bool → ℤ → ℕ → ℕ → Option ℕ → BurstOp
new_op enabled probability burst_rate burst_duration require_cache_items = record {
  enabled = enabled;
  probability = probability;
  burst_rate = burst_rate;
  burst_duration = burst_duration;
  require_cache_items = require_cache_items;
  burst_active = false;
  burst_start = none;
}

pub record BurstMetadata : Type 0 where
  pub burst_rate : ℕ
  pub burst_duration : ℕ
  pub required_cache_items : ℕ
  pub burst_started_at : Option ℕ

-- `elapsed >= self.burst_duration`
abbrev pub over : BurstOp → ℕ → ℕ → Bool
over b started now = leb (started + b.burst_duration * 1000000) now

-- The start of a burst that is on, where it counts.
abbrev pub running : BurstOp → Option ℕ
running b =
    if b.burst_active
    then (elim b.burst_start [
      | none ↦ none
      | some started ↦ if eqb started 0 then none else some started
    ])
    else none

module _ {R : Type 0} (g : Rng R) where
  abbrev pub try_activate : ℕ → BurstOp → R → Bool × BurstOp × R
  try_activate now b r =
      let (u, r') = g.random r in
      if ltb_ℤ (pos u) b.probability
      then (true, record b { burst_active = true; burst_start = some now }, r')
      else (false, b, r')

  -- Each path of the source reads the clock once.
  unfoldable pub should_burst : ℕ → BurstOp → R → Bool × BurstOp × R
  should_burst now b r = elim (running b) [
    | none ↦ try_activate now b r
    | some started ↦
        if over b started now
        then (false, record b { burst_active = false; burst_start = none }, r)
        else (true, b, r)
  ]

  abbrev pub metadata_of : BurstOp → BurstMetadata
  metadata_of b = record {
    burst_rate = b.burst_rate;
    burst_duration = b.burst_duration;
    required_cache_items = elim b.require_cache_items [
      | none ↦ b.burst_rate * b.burst_duration
      | some n ↦ n
    ];
    burst_started_at = b.burst_start;
  }

  abbrev pub report : Bool × BurstOp × R → Option BurstMetadata × BurstOp × R
  report (bursts, b, r) = (if bursts then some (metadata_of b) else none, b, r)

  -- The body is returned as it is; `none` stands for the empty metadata.
  unfoldable pub apply : ℕ → BurstOp → R → Option BurstMetadata × BurstOp × R
  unfolding should_burst
  apply now b r = if not b.enabled then (none, b, r) else report (should_burst now b r)
