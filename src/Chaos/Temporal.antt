-- ===== src/Chaos/Temporal.antt =====
-- havocforge/chaos/trackers/temporal_tracker.py: the first and the newest timestamp of each schema,
-- in microseconds. Each method is atomic under the lock. What the tracker writes to the gauges and
-- to the counter of havocforge/observability is kept in order, in `metrics`.
pub mod Range
use havoc_forge.Base.{zero, String, Option, none, some, List, [], ◌∷◌, ◌++◌, if◌then◌else◌}
use havoc_forge.Base.Int.{ℤ, pos, negsuc, ◌-ℤ◌, ltb_ℤ}
use havoc_forge.Base.Dict
use havoc_forge.Base.Dict.{Dict}

pub record TimelineState : Type 0 where
  pub schema_name : String
  pub first_timestamp : Option ℤ
  pub current_timestamp : Option ℤ

-- The elapsed gauge is set to this number of microseconds, divided by a million.
pub data Metric : Type 0 where
  elapsed_micros : String → ℤ → Metric
  current_value : String → ℤ → Metric
  resets_inc : String → Metric

pub record TemporalTracker : Type 0 where
  pub timelines : Dict TimelineState
  pub metrics : List Metric

abbrev pub new_tracker : TemporalTracker
new_tracker = record { timelines = []; metrics = [] }

abbrev pub starting : String → ℤ → TimelineState
starting name t = record {
  schema_name = name;
  first_timestamp = some t;
  current_timestamp = some t;
}

unfoldable pub get_or_init : String → ℤ → TemporalTracker → TimelineState × TemporalTracker
get_or_init name t tr = elim (Dict.get tr.timelines name) [
  | some st ↦ (st, tr)
  | none ↦ (starting name t, record tr { timelines = Dict.set tr.timelines name (starting name t) })
]

-- `timestamp > state.current_timestamp`, and the first branch of that `elif`
abbrev pub advance : ℤ → TimelineState → TimelineState
advance t st = elim st.current_timestamp [
  | none ↦ record st { current_timestamp = some t }
  | some now ↦ if ltb_ℤ now t then record st { current_timestamp = some t } else st
]

abbrev truthy : Option ℤ → Option ℤ
truthy none = none
truthy (some (pos zero)) = none
truthy (some t) = some t

-- The gauges are set if neither timestamp is `None` or 0.
abbrev pub gauges : String → TimelineState → List Metric
gauges name st = elim (truthy st.first_timestamp) [
  | none ↦ []
  | some first ↦ elim (truthy st.current_timestamp) [
    | none ↦ []
    | some now ↦ elapsed_micros name (now -ℤ first) ∷ current_value name now ∷ []
  ]
]

abbrev pub updated : String → ℤ → Option TimelineState → TimelineState
updated name t none = starting name t
updated name t (some st) = advance t st

unfoldable pub update_timeline : String → ℤ → TemporalTracker → TemporalTracker
update_timeline name t tr =
    let st = updated name t (Dict.get tr.timelines name) in
    record { timelines = Dict.set tr.timelines name st; metrics = tr.metrics ++ gauges name st }

unfoldable pub get_range : String → TemporalTracker → Option ℤ × Option ℤ
get_range name tr = elim (Dict.get tr.timelines name) [
  | none ↦ (none, none)
  | some st ↦ (st.first_timestamp, st.current_timestamp)
]

unfoldable pub get_state : String → TemporalTracker → Option TimelineState
get_state name tr = Dict.get tr.timelines name

unfoldable pub reset : String → TemporalTracker → TemporalTracker
reset name tr = elim (Dict.get tr.timelines name) [
  | none ↦ tr
  | some st ↦ record {
    timelines = Dict.pop tr.timelines name;
    metrics = tr.metrics ++ resets_inc name ∷ [];
  }
]

unfoldable pub clear_all : TemporalTracker → TemporalTracker
clear_all tr = record tr { timelines = [] }

unfoldable pub list_schemas : TemporalTracker → List String
list_schemas tr = Dict.keys tr.timelines
