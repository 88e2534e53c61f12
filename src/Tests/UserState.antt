-- ===== src/Tests/UserState.antt =====
-- A user's stream at concrete inputs.
use havoc_forge.Base.{String, false, ◌≡◌, ◌⊎◌, refl, none, some, List, [], ◌∷◌}
use havoc_forge.Base.Int.{ℤ, pos, ◌+ℤ◌}
use havoc_forge.Base.Dict
use havoc_forge.Base.Dict.{Dict}
use havoc_forge.Server.UserState.{
  FieldMeta, Values, sequential, apply_stateful_user_batch, apply_items, apply_fields,
}
use havoc_forge.Server.UserState.Sequence.{Raised, Runs, sequential-Runs}

abbrev numbers : Values ℤ
numbers = record { number = λ t. t; strftime = λ t tz format. some t }

abbrev counting : String → ℤ → FieldMeta
counting name increment = record {
  field = name;
  start = pos 100;
  increment = increment;
  is_datetime = false;
  format = none;
  tz = none;
}

abbrev items : List (Dict ℤ)
items = (("id", pos 1) ∷ []) ∷ (("ts", pos 0) ∷ []) ∷ []

batch :
    apply_stateful_user_batch numbers items
      (("ts", pos 500) ∷ [])
      (record { fields = counting "ts" (pos 10) ∷ []; worker_start_time = none })
      sequential
      (pos 0)
    ≡ some
        ((("id", pos 1) ∷ ("ts", pos 510) ∷ []) ∷ (("ts", pos 520) ∷ []) ∷ [], ("ts", pos 520) ∷ [])
unfolding apply_stateful_user_batch apply_items apply_fields Dict.get Dict.set ◌+ℤ◌
batch = refl

abbrev three_fields : List FieldMeta
three_fields = counting "seq" (pos 1) ∷ counting "ts" (pos 10) ∷ counting "day" (pos 7) ∷ []

sequential-Runs_example :
    let res =
      apply_stateful_user_batch numbers items
        (("ts", pos 500) ∷ [])
        (record { fields = three_fields; worker_start_time = some (pos 3) })
        sequential
        (pos 8) in
    Raised numbers three_fields res
    ⊎ Runs numbers (counting "ts" (pos 10)) items (("ts", pos 500) ∷ []) res
sequential-Runs_example =
    sequential-Runs numbers (counting "seq" (pos 1) ∷ []) (counting "ts" (pos 10))
      (counting "day" (pos 7) ∷ []) (some (pos 3)) (pos 8) items (("ts", pos 500) ∷ []) (refl, tt)
      (refl, tt)
