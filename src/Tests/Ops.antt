-- ===== src/Tests/Ops.antt =====
-- Bursts and late timestamps at concrete inputs.
use havoc_forge.Base.{ℕ, ◌+◌, true, false, ◌≡◌, refl, none, some, List, [], ◌∷◌, arith}
use havoc_forge.Base.Int.{ℤ, pos}
use havoc_forge.Base.Dict
use havoc_forge.Base.Dict.{Dict}
use havoc_forge.Chaos.Burst.{BurstOp, new_op, metadata_of, apply}
use havoc_forge.Chaos.Burst.Window.{reports, same_reports, started_at, burst-lasts}
use havoc_forge.Chaos.Temporal.{TemporalTracker, new_tracker, update_timeline}
use havoc_forge.Chaos.LateArrival as LateArrival
use havoc_forge.Chaos.LateArrival.{
  Kind, epoch_micro, Stamps, Item, rec_of, other, Body, LateArrivalOp,
}
use havoc_forge.Tests.Rng.{counter}

abbrev burst : BurstOp
burst = new_op true (pos 5) 10000 10 none

burst-lasts_example :
    let (m, b, r) = apply counter 7000000 burst 0 in
    let (ms, b', r') = reports counter (8000000 ∷ 16999999 ∷ []) b r in
    (m ≡ some (metadata_of counter (started_at burst 7000000)))
    × (ms
        ≡ same_reports counter
            (metadata_of counter (started_at burst 7000000))
            (8000000 ∷ 16999999 ∷ []))
    × (apply counter 17000000 b' r'
        ≡ (none, record burst { burst_active = false; burst_start = none }, 1))
burst-lasts_example =
    burst-lasts counter burst 7000000 (8000000 ∷ 16999999 ∷ []) 17000000 0 refl refl (omega arith)
      refl (omega arith, (omega arith, tt)) (omega arith)

-- Values are numbers, each a timestamp.
abbrev stamps : Stamps ℤ
stamps = record {
  parse_timestamp = λ v. some epoch_micro;
  number = λ t. t;
  seconds = λ t. t;
  iso_z = λ t. t;
  plain = λ t. t;
  text_with_z = λ v. false;
}

abbrev earliest : ℤ → ℤ → ℕ → ℤ × ℕ
earliest lo hi r = (lo, r + 1)

abbrev op : LateArrivalOp
op = record { min_elapsed_seconds = 3; late_window_seconds = 2; schema_name = none }

abbrev tracked : TemporalTracker
tracked = update_timeline "ga4" (pos 9000000) (update_timeline "ga4" (pos 1000000) new_tracker)

abbrev items : List (Item ℤ)
items = rec_of (("ts", pos 9000000) ∷ []) ∷ other (pos 4) ∷ rec_of (("id", pos 1) ∷ []) ∷ []
