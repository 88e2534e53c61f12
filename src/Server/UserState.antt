-- ===== src/Server/UserState.antt =====
-- server/routers/streaming/state.py: the stateful fields of a user's stream. Times are microseconds.
-- Redis, and the text that `datetime` makes of a time, an offset and a format, are parameters.
pub mod Sequence
use havoc_forge.Base.{
  ℕ, zero, suc, ◌/◌, String, Bool, Option, none, some, List, [], ◌∷◌, if◌then◌else◌,
}
use havoc_forge.Base.Int.{ℤ, pos, negsuc, ◌+ℤ◌, ◌-ℤ◌, ◌*ℤ◌}
use havoc_forge.Base.Dict
use havoc_forge.Base.Dict.{Dict}
use mathlib.Core.Option.{get_or}

pub record FieldMeta : Type 0 where
  pub field : String
  pub start : ℤ
  pub increment : ℤ
  pub is_datetime : Bool
  pub format : Option String
  pub tz : Option String

pub record Meta : Type 0 where
  pub fields : List FieldMeta
  pub worker_start_time : Option ℤ

pub data Mode : Type 0 where
  sequential wallclock : Mode

-- The values of a payload: a number, or the text of a time, none where `fromtimestamp`, the shift by
-- the offset or `strftime` raises, as for a time that is out of their range.
pub record Values (V : Type 0) : Type 0 where
  pub number : ℤ → V
  pub strftime : ℤ → Option String → Option String → Option V

abbrev negated : ℤ → ℤ
negated (pos zero) = pos zero
negated (pos (suc n)) = negsuc n
negated (negsuc n) = pos (suc n)

-- Python's `//`, for a positive divisor, and for any: `none` where it raises.
abbrev pub div_by : ℤ → ℕ → ℤ
div_by (pos a) d = pos (a / suc d)
div_by (negsuc a) d = negsuc (a / suc d)

abbrev pub floor_div : ℤ → ℤ → Option ℤ
floor_div a (pos zero) = none
floor_div a (pos (suc d)) = some (div_by a d)
floor_div a (negsuc d) = some (div_by (negated a) d)

-- The value that the worker's clock gives: the start and the whole increments since.
abbrev pub clock_value : FieldMeta → ℤ → Option ℤ
clock_value f elapsed = elim (floor_div elapsed f.increment) [
  | none ↦ none
  | some increments_passed ↦ some (f.start +ℤ increments_passed *ℤ f.increment)
]

-- The elapsed time where the mode is `wallclock` and the worker's start is known.
abbrev pub elapsed_of : Mode → Meta → ℤ → Option ℤ
elapsed_of sequential m now = none
elapsed_of wallclock m now = elim m.worker_start_time [
  | none ↦ none
  | some started ↦ some (now -ℤ started)
]

abbrev pub last_value : FieldMeta → Dict ℤ → ℤ
last_value f state = get_or (Dict.get state f.field) f.start

-- The field's new value and the state that it leaves.
abbrev pub new_value : FieldMeta → Option ℤ → Dict ℤ → Option (ℤ × Dict ℤ)
new_value f none state =
    let v = last_value f state +ℤ f.increment in some (v, Dict.set state f.field v)
new_value f (some elapsed) state = elim (clock_value f elapsed) [
  | none ↦ none
  | some v ↦ some (v, state)
]

module _ {V : Type 0} (values : Values V) where
  abbrev pub shown : FieldMeta → ℤ → Option V
  shown f v = if f.is_datetime then values.strftime v f.tz f.format else some (values.number v)

  -- The loop over the fields of one item; `none` where a division or the text of a time raises.
  unfoldable pub apply_fields :
      Option ℤ → List FieldMeta → Dict V → Dict ℤ → Option (Dict V × Dict ℤ)
  apply_fields elapsed [] payload state = some (payload, state)
  apply_fields elapsed (f ∷ fields) payload state = elim (new_value f elapsed state) [
    | none ↦ none
    | some p ↦
        let (v, state') = p in
        elim (shown f v) [
          | none ↦ none
          | some x ↦ apply_fields elapsed fields (Dict.set payload f.field x) state'
        ]
  ]

  unfoldable pub apply_items :
      Option ℤ → List FieldMeta → List (Dict V) → Dict ℤ → Option (List (Dict V) × Dict ℤ)
  unfolding apply_fields
  apply_items elapsed fields [] state = some ([], state)
  apply_items elapsed fields (item ∷ items) state = elim (apply_fields elapsed fields item state) [
    | none ↦ none
    | some p ↦
        let (payload, state') = p in
        elim (apply_items elapsed fields items state') [
          | none ↦ none
          | some q ↦ let (out, state'') = q in some (payload ∷ out, state'')
        ]
  ]

  -- Without stateful fields the loop over the items gives them back as they are.
  unfoldable pub apply_stateful_user_batch :
      List (Dict V) → Dict ℤ → Meta → Mode → ℤ → Option (List (Dict V) × Dict ℤ)
  unfolding apply_items
  apply_stateful_user_batch items user_state m mode now = elim m.fields [
    | [] ↦ some (items, user_state)
    | f ∷ fields ↦ apply_items (elapsed_of mode m now) (f ∷ fields) items user_state
  ]

-- The commands of Redis that the endpoint uses for a user's state. The numbers of a hash are read
-- back as they were written.
pub record Redis (R : Type 0) : Type 0 where
  pub hgetall : String → R → Dict ℤ
  pub hset : String → Dict ℤ → R → R
  pub expire : String → ℕ → R → R

abbrev pub seeded : List FieldMeta → Dict ℤ → Dict ℤ
seeded [] state = state
seeded (f ∷ fields) state = seeded fields (Dict.set state f.field f.start)

module _ {R : Type 0} (redis : Redis R) where
  -- An empty state is not written.
  unfoldable pub save_user_state : String → ℕ → Dict ℤ → R → R
  save_user_state key ttl [] db = db
  save_user_state key ttl (e ∷ state) db = redis.expire key ttl (redis.hset key (e ∷ state) db)

  unfoldable pub get_or_create_user_state : String → ℕ → Meta → R → Dict ℤ × R
  unfolding save_user_state
  get_or_create_user_state key ttl m db = elim (redis.hgetall key db) [
    | [] ↦ let initial = seeded m.fields [] in (initial, save_user_state key ttl initial db)
    | e ∷ existing ↦ (e ∷ existing, redis.expire key ttl db)
  ]
