-- ===== src/Tests/Pregeneration.antt =====
-- The queue of a schema at concrete inputs: items are numbers, made one after the other.
use havoc_forge.Base.{ℕ, ◌+◌, true, false, ◌≡◌, refl, none, some, [], ◌∷◌, arith, take}
use havoc_forge.Base.Dict
use havoc_forge.Base.Int.{pos, ◌-ℤ◌, ◌+ℤ◌}
use havoc_forge.Base.Text.{concat}
use havoc_forge.Pregeneration.Worker.{
  PregenConfig, Redis, new_worker, answered, unanswered, Answers, Loop, Source, queue, lpush,
  add_item, round, rounds, items_generated_total, make_item, begin_batch, push_batch, push_counted,
  push_items, waits, incrby, ltrim, report,
}
use havoc_forge.Pregeneration.Worker.Bounds.{Fits}
use havoc_forge.Pregeneration.Worker.Progress.{IsCalm, IsMade, rounds-makes}
use havoc_forge.Pregeneration.Worker.Repeats.{add_item-repeats}
use havoc_forge.Pregeneration.Cache.{
  start, by_round, by_stream, by_request, by_put_back, push_returned, nudged, request_pop, lpop,
  stream_pop,
}
use havoc_forge.Pregeneration.Cache.Full.{Run, returned, Reach-Fits}
use havoc_forge.Pregeneration.Cache.Starved.{IsOver, IsOver-starves}

abbrev three_items : PregenConfig
three_items = record {
  queue_size = 4;
  batch_size = 2;
  max_items = some 3;
  global_max_items = none;
  record_metrics = true;
  key_prefix = "pregen";
}

abbrev one_for_all : PregenConfig
one_for_all = record three_items { batch_size = 1; max_items = none; global_max_items = some 1 }

abbrev source : Source ℕ ℕ
source = record { generate = λ c. (some c, c + 1); chaos = λ c. c }

abbrev calm : Answers
calm = record {
  len_raises = false;
  count_raises = false;
  first = answered;
  second = answered;
  report_raises = false;
  meta_raises = false;
  at_elapsed = 0;
  at_update = 0;
  at_restart = 0;
}

abbrev empty_redis : Redis ℕ (Unit {0})
empty_redis = record { lists = []; counters = []; metas = [] }

abbrev first_loop : Loop ℕ (Unit {0}) ℕ
first_loop = record { worker = new_worker 0; redis = empty_redis; context = 10; metrics = [] }

pushed_two :
    let t = rounds three_items "ga4" source (calm ∷ calm ∷ calm ∷ calm ∷ []) first_loop in
    (queue three_items "ga4" t.redis ≡ 11 ∷ 10 ∷ []) × (t.worker.batch ≡ 12 ∷ [])
unfolding rounds round make_item begin_batch add_item push_batch push_items waits ltrim lpush report
    Dict.get Dict.set concat ◌-ℤ◌
pushed_two = (refl, refl)

calm-IsCalm : IsCalm calm
calm-IsCalm = record { asked = refl; pushed = refl; reported = refl }

rounds-makes_example :
    let t = rounds three_items "ga4" source (calm ∷ calm ∷ calm ∷ calm ∷ []) first_loop in
    IsMade three_items "ga4" 0 3 t
    × ((a : Answers) → round three_items "ga4" source a t ≡ (false, t))
unfolding Dict.get
rounds-makes_example =
    rounds-makes three_items "ga4" source 0 3 refl refl (omega arith) (λ c. (c, refl))
      (calm ∷ calm ∷ calm ∷ calm ∷ []) first_loop (omega arith)
      (calm-IsCalm, (calm-IsCalm, (calm-IsCalm, (calm-IsCalm, tt))))
      (record { items = refl; split = refl; part = omega arith; queued = refl })

-- A push whose reply is lost, and two consumers.
abbrev after_calls : Loop ℕ (Unit {0}) ℕ
after_calls =
    let s = (round three_items "ga4" source calm first_loop).1 in
    let s' = (round three_items "ga4" source (record calm { first = unanswered }) s).1 in
    let t = record s' { redis = (stream_pop three_items "ga4" 1 nudged s'.redis).1 } in
    let u = record t { redis = (request_pop "ga4" 1 t.redis).1 } in
    record u { redis = push_returned three_items "ga4" (1 ∷ []) u.redis }

-- Two rounds, a pop of a stream and of a request, and an item that comes back.
abbrev calls :
    Run three_items "ga4" source (λ a. Unit {0}) (λ unsent. Unit {0}) first_loop after_calls
calls = by_put_back (1 ∷ []) tt (
    by_request 1 (
      by_stream 1 nudged
        (by_round (record calm { first = unanswered }) tt (by_round calm tt start))))

Reach-Fits_example :
    Fits three_items "ga4"
      (returned three_items "ga4" source (λ a. Unit) (λ unsent. Unit) calls)
      after_calls.redis
unfolding Dict.get
Reach-Fits_example =
    Reach-Fits three_items "ga4" source (λ a. Unit) (λ unsent. Unit) first_loop after_calls refl
      (omega arith) calls

-- One item is made and counted, and a request takes it.
abbrev drained : Loop ℕ (Unit {0}) ℕ
drained = record {
  worker = record (new_worker 0) { batch_count = 1; generated_total = 1; rate_tracking_count = 1 };
  redis = record {
    lists = ("pregen:ga4:queue", []) ∷ [];
    counters = ("pregen:global:count", pos 1) ∷ ("pregen:ga4:count", pos 1) ∷ [];
    metas = [];
  };
  context = 11;
  metrics = items_generated_total 1 ∷ [];
}

drained_by_request :
    let t = (round one_for_all "ga4" source calm first_loop).1 in
    record t { redis = (request_pop "ga4" 1 t.redis).1 } ≡ drained
unfolding round make_item begin_batch add_item push_batch push_counted push_items waits ltrim lpush
    report incrby request_pop lpop Dict.get Dict.set concat ◌-ℤ◌ ◌+ℤ◌
drained_by_request = refl

IsOver-starves_example :
    ((round one_for_all "ga4" source calm drained).1.worker ≡ drained.worker)
    × IsOver one_for_all "ga4" 1 (round one_for_all "ga4" source calm drained).1.redis
unfolding IsOver Dict.get concat
IsOver-starves_example =
    IsOver-starves one_for_all "ga4" source 1 drained
      (round one_for_all "ga4" source calm drained).1 refl refl refl (omega arith)
      (by_round calm refl start)

abbrev nine_batches : Loop ℕ (Unit {0}) ℕ
nine_batches = record first_loop {
  worker = record (new_worker 0) { batch = 8 ∷ []; batch_count = 9 };
}

add_item-repeats_example :
    let a = record calm { report_raises = true } in
    let t = add_item three_items "ga4" a (some 9) nine_batches in
    let u = add_item three_items "ga4" calm (some 10) t in
    (queue three_items "ga4" t.redis ≡ take 4 (lpush (8 ∷ 9 ∷ []) []))
    × (queue three_items "ga4" u.redis
        ≡ take 4 (lpush (8 ∷ 9 ∷ 10 ∷ []) (take 4 (lpush (8 ∷ 9 ∷ []) []))))
unfolding Dict.get
add_item-repeats_example =
    add_item-repeats three_items "ga4" source refl (omega arith)
      (record calm { report_raises = true }) calm 9 10 nine_batches refl refl refl refl refl
