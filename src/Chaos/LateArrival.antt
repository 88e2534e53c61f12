-- ===== src/Chaos/LateArrival.antt =====
-- havocforge/chaos/ops/body/late_arrival.py: the op that moves timestamps back within the time that
-- the tracker has seen. Timestamps are microseconds, the
-- op's two durations whole seconds that are not negative. Of a body stand its items and its schema name.
pub mod Window
use havoc_forge.Base.{
  ℕ, ◌*◌, String, Bool, true, false, ◌||◌, Option, none, some, List, [], ◌∷◌, if◌then◌else◌, ◌==◌,
}
use havoc_forge.Base.Int.{ℤ, pos, ◌-ℤ◌, ltb_ℤ}
use havoc_forge.Base.Dict
use havoc_forge.Base.Dict.{Dict}
use havoc_forge.Chaos.Temporal.{TemporalTracker, get_range}

pub data Kind : Type 0 where
  epoch_micro epoch written : Kind

-- What `parse_timestamp` (havocforge/chaos/utils.py) and Python's `datetime` make of values.
pub record Stamps (V : Type 0) : Type 0 where
  pub parse_timestamp : V → Option Kind
  pub number : ℤ → V
  pub seconds : ℤ → ℤ
  pub iso_z : ℤ → V
  pub plain : ℤ → V
  pub text_with_z : V → Bool

pub data Item (V : Type 0) : Type 0 where
  rec_of : Dict V → Item V
  other : V → Item V

pub data Body (V : Type 0) : Type 0 where
  not_dict : V → Body V
  dict : Option (List (Item V)) → Option String → Body V

pub record LateArrivalOp : Type 0 where
  pub min_elapsed_seconds : ℕ
  pub late_window_seconds : ℕ
  pub schema_name : Option String

-- `a or b` of names that may be missing or empty
abbrev pub or_name : Option String → Option String → Option String
or_name none b = b
or_name (some s) b = if s == "" then b else some s

abbrev pub chosen_name : LateArrivalOp → Option String → Option String → Option String
chosen_name op of_body of_response =
    or_name op.schema_name (or_name of_body (or_name of_response none))

abbrev pub micros : ℕ → ℤ
micros seconds = pos (seconds * 1000000)

abbrev pub late_start : LateArrivalOp → ℤ → ℤ → ℤ
late_start op first current =
    let window = micros op.late_window_seconds in
    let elapsed = current -ℤ first in current -ℤ (if ltb_ℤ elapsed window then elapsed else window)

-- The earliest late timestamp and the current one, if enough time has passed.
unfoldable pub late_range : LateArrivalOp → Option ℤ × Option ℤ → Option (ℤ × ℤ)
late_range op (some first, some current) =
    if ltb_ℤ (current -ℤ first) (micros op.min_elapsed_seconds)
    then none
    else some (late_start op first current, current)
late_range op _ = none

module _ {V : Type 0} (s : Stamps V) where
  unfoldable pub timestamp_keys : Dict V → List String
  timestamp_keys [] = []
  timestamp_keys ((key, val) ∷ rec) =
      let rest = timestamp_keys rec in
      elim (s.parse_timestamp val) [ none ↦ rest | some kind ↦ key ∷ rest ]

  abbrev pub discover_stateful_fields : List (Item V) → List String
  discover_stateful_fields [] = []
  discover_stateful_fields (other v ∷ items) = []
  discover_stateful_fields (rec_of rec ∷ items) = timestamp_keys rec

  abbrev pub late_value : Kind → V → ℤ → V
  late_value epoch_micro val late_ts = s.number late_ts
  late_value epoch val late_ts = s.number (s.seconds late_ts)
  late_value written val late_ts = if s.text_with_z val then s.iso_z late_ts else s.plain late_ts

  abbrev pub stamp_field : ℤ → String → Dict V → Dict V × Bool
  stamp_field late_ts field rec = elim (Dict.get rec field) [
    | none ↦ (rec, false)
    | some val ↦ elim (s.parse_timestamp val) [
      | none ↦ (rec, false)
      | some kind ↦ (Dict.set rec field (late_value kind val late_ts), true)
    ]
  ]

  unfoldable pub stamp_fields : ℤ → List String → Dict V → Dict V × Bool
  stamp_fields late_ts [] rec = (rec, false)
  stamp_fields late_ts (field ∷ fields) rec =
      let (rec', one) = stamp_field late_ts field rec in
      let (rec'', more) = stamp_fields late_ts fields rec' in (rec'', one || more)

  module _ {R : Type 0} (randint : ℤ → ℤ → R → ℤ × R) where
    -- One draw for each record; what is no record stays.
    unfoldable pub stamp_items : ℤ → ℤ → List String → List (Item V) → R → List (Item V) × Bool × R
    unfolding stamp_fields
    stamp_items lo hi fields [] r = ([], false, r)
    stamp_items lo hi fields (other v ∷ items) r =
        let (items', more, r') = stamp_items lo hi fields items r in (other v ∷ items', more, r')
    stamp_items lo hi fields (rec_of rec ∷ items) r =
        let (late_ts, r') = randint lo hi r in
        let (rec', one) = stamp_fields late_ts fields rec in
        let (items', more, r'') = stamp_items lo hi fields items r' in
        (rec_of rec' ∷ items', one || more, r'')

    abbrev pub described : Bool → List String
    described applied = if applied then "late_arrival" ∷ [] else []

    abbrev pub stamp_body :
        List (Item V) → Option String → List String → Option (ℤ × ℤ) → R → Body V × List String × R
    stamp_body items name fields none r = (dict (some items) name, [], r)
    stamp_body items name [] (some range) r = (dict (some items) name, [], r)
    stamp_body items name (field ∷ fields) (some (lo, hi)) r =
        let (items', applied, r') = stamp_items lo hi (field ∷ fields) items r in
        (dict (some items') name, described applied, r')

    -- An empty list of items has no stateful fields, so it stays as well.
    unfoldable pub apply :
        LateArrivalOp → TemporalTracker → Option String → Body V → R → Body V × List String × R
    unfolding late_range timestamp_keys stamp_items get_range
    apply op tracker of_response (not_dict v) r = (not_dict v, [], r)
    apply op tracker of_response (dict none name) r = (dict none name, [], r)
    apply op tracker of_response (dict (some items) name) r =
        elim (chosen_name op name of_response) [
          | none ↦ (dict (some items) name, [], r)
          | some schema_name ↦
              stamp_body items name (discover_stateful_fields items)
                (late_range op (get_range schema_name tracker)) r
        ]
