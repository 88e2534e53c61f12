-- ===== src/Tests/Latency.antt =====
-- The latency op at concrete limits.
use havoc_forge.Base.{ℕ, ◌^◌, ◌≡◌, refl, arith}
use havoc_forge.Base.Int.{pos, ◌-ℤ◌, ◌+ℤ◌}
use havoc_forge.Chaos.Latency.{latency_cost, new_latency, apply}
use havoc_forge.Chaos.Latency.Bounds.{Delay, apply-IsDelayed}

-- Always one half.
abbrev half : ℕ → ℕ × ℕ
half r = (2 ^ 52, r)

abbrev some_body : ℕ
some_body = 7

in_order : (apply half (new_latency (pos 100) (pos 200)) some_body 0).0.added_latency_ms ≡ pos 150
unfolding apply ◌-ℤ◌ ◌+ℤ◌
in_order = refl

reversed : (apply half (new_latency (pos 500) (pos 200)) some_body 0).0.added_latency_ms ≡ pos 500
unfolding apply ◌-ℤ◌ ◌+ℤ◌
reversed = refl

apply-IsDelayed_example :
    Delay
      (pos 100)
      (pos 200)
      (latency_cost (new_latency (pos 100) (pos 200))).0
      (apply half (new_latency (pos 100) (pos 200)) some_body 0).0.added_latency_ms
    × ((apply half (new_latency (pos 100) (pos 200)) some_body 0).0.body ≡ some_body)
apply-IsDelayed_example =
    apply-IsDelayed half (λ r. omega arith) (new_latency (pos 100) (pos 200)) some_body 0
      (omega arith)
