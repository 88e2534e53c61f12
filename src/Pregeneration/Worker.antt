-- ===== src/Pregeneration/Worker.antt =====
-- havocforge/pregeneration/worker.py: `generate_and_push`, which fills the queue of a schema in
-- Redis. A round is one pass of its endless loop; `Answers` says which calls of it raise and what the
-- clock shows. Times are microseconds.

pub mod Bounds
pub mod Progress
pub mod Repeats
use havoc_forge.Base.{
  ℕ, suc, ◌+◌, ◌-◌, ◌*◌, ◌/◌, ◌%◌, String, Bool, true, false, ◌||◌, not, Option, none, some, List,
  [], ◌∷◌, ◌++◌, leb, ltb, eqb, if◌then◌else◌, length, take,
}
use havoc_forge.Base.Dict
use havoc_forge.Base.Dict.{Dict}
use havoc_forge.Base.Int.{ℤ, pos, negsuc, ◌+ℤ◌, ◌-ℤ◌, ltb_ℤ}
use havoc_forge.Base.Text.{concat}
use mathlib.Core.Option.{get_or}

-- `_load_pregen_config`
pub record PregenConfig : Type 0 where
  pub queue_size : ℕ
  pub batch_size : ℕ
  pub max_items : Option ℕ
  pub global_max_items : Option ℕ
  pub record_metrics : Bool
  pub key_prefix : String

-- What stands under the `meta` key of a schema: `rest` is what the worker passes on.
pub record Meta (X : Type 0) : Type 0 where
  pub rest : X
  pub actual_generation_rate : Option ℕ
  pub rate_updated_at : Option ℕ

-- The lists, counters and JSON texts of the database: their keys end differently.
pub record Redis (A X : Type 0) : Type 0 where
  pub lists : Dict (List A)
  pub counters : Dict ℤ
  pub metas : Dict (Meta X)

-- A pipeline is one transaction. It raises where nothing was done or where the reply got lost.
pub data Sent : Type 0 where
  answered refused unanswered : Sent

pub record Answers : Type 0 where
  pub len_raises : Bool
  pub count_raises : Bool
  pub first : Sent
  pub second : Sent
  pub report_raises : Bool
  pub meta_raises : Bool
  pub at_elapsed : ℕ
  pub at_update : ℕ
  pub at_restart : ℕ

-- The Prometheus calls.
pub data Metric : Type 0 where
  items_generated_total pregen_queue_size pregen_generation_rate : ℕ → Metric

-- The local variables of the loop.
pub record Worker (A : Type 0) : Type 0 where
  pub batch : List A
  pub batch_count : ℕ
  pub generated_total : ℕ
  pub rate_tracking_start : ℕ
  pub rate_tracking_count : ℕ

abbrev pub new_worker : {A : Type 0} → ℕ → Worker A
new_worker now = record {
  batch = [];
  batch_count = 0;
  generated_total = 0;
  rate_tracking_start = now;
  rate_tracking_count = 0;
}

-- The generator with its serializer, which may raise, and the chaos that is applied before a batch.
-- Both change the state of the context, whatever becomes of the call.
pub record Source (A G : Type 0) : Type 0 where
  pub generate : G → Option A × G
  pub chaos : G → G

pub record Loop (A X G : Type 0) : Type 0 where
  pub worker : Worker A
  pub redis : Redis A X
  pub context : G
  pub metrics : List Metric

-- `LPUSH`: each item goes to the front.
unfoldable pub lpush {ℓ} : {A : Type ℓ} → List A → List A → List A
lpush [] q = q
lpush (x ∷ xs) q = lpush xs (x ∷ q)

-- `LTRIM key 0 stop`: an end below 0 counts from the back, -1 is the last item.
unfoldable pub ltrim {ℓ} : {A : Type ℓ} → ℤ → List A → List A
ltrim (pos n) q = take (suc n) q
ltrim (negsuc n) q = take (length q - n) q

abbrev pub counter_at : Dict ℤ → String → ℤ
counter_at d key = get_or (Dict.get d key) (pos 0)

unfoldable pub incrby : String → ℤ → Dict ℤ → Dict ℤ
incrby key n d = Dict.set d key (counter_at d key +ℤ n)

abbrev pub with_rate : {X : Type 0} → ℕ → ℕ → Meta X → Meta X
with_rate rate now m = record m { actual_generation_rate = some rate; rate_updated_at = some now }

abbrev pub reached_max : Option ℕ → ℕ → Bool
reached_max none total = false
reached_max (some max_items) total = leb max_items total

module _ (cfg : PregenConfig) (schema_name : String) where
  abbrev pub queue_key : String
  queue_key = concat (cfg.key_prefix ∷ ":" ∷ schema_name ∷ ":queue" ∷ [])

  abbrev pub meta_key : String
  meta_key = concat (cfg.key_prefix ∷ ":" ∷ schema_name ∷ ":meta" ∷ [])

  abbrev pub schema_count_key : String
  schema_count_key = concat (cfg.key_prefix ∷ ":" ∷ schema_name ∷ ":count" ∷ [])

  abbrev pub global_count_key : String
  global_count_key = concat (cfg.key_prefix ∷ ":global:count" ∷ [])

  module _ {A X : Type 0} where
    abbrev pub queue : Redis A X → List A
    queue r = get_or (Dict.get r.lists queue_key) []

    unfoldable pub push_items : List A → Redis A X → Redis A X
    unfolding ltrim lpush
    push_items batch r = record r {
      lists =
          Dict.set r.lists queue_key (ltrim (pos cfg.queue_size -ℤ pos 1) (lpush batch (queue r)));
    }

    unfoldable pub push_counted : List A → Redis A X → Redis A X
    unfolding push_items incrby
    push_counted batch r = push_items batch (record r {
      counters =
          incrby schema_count_key (pos (length batch))
            (incrby global_count_key (pos (length batch)) r.counters);
    })

    -- Whether the call returns, and what the database is then.
    abbrev pub send : Sent → (Redis A X → Redis A X) → Redis A X → Bool × Redis A X
    send answered pipe r = (true, pipe r)
    send refused pipe r = (false, r)
    send unanswered pipe r = (false, pipe r)

    -- If the push with counters raises, the batch is pushed without them.
    abbrev pub or_plain : List A → Sent → Bool × Redis A X → Bool × Redis A X
    or_plain batch again (true, r) = (true, r)
    or_plain batch again (false, r) = send again (push_items batch) r

    abbrev pub push_by : List A → Answers → Option ℕ → Redis A X → Bool × Redis A X
    push_by batch a none r = send a.first (push_items batch) r
    push_by batch a (some n) r = or_plain batch a.second (send a.first (push_counted batch) r)

    unfoldable pub push_batch : List A → Answers → Redis A X → Bool × Redis A X
    unfolding push_counted
    push_batch batch a r = push_by batch a cfg.global_max_items r

    abbrev pub global_full : Answers → Option ℕ → Redis A X → Bool
    global_full a none r = false
    global_full a (some global_max) r =
        if a.count_raises
        then false
        else not (ltb_ℤ (counter_at r.counters global_count_key) (pos global_max))

    -- There is no room, or what there is could not be asked.
    unfoldable pub waits : Answers → Redis A X → Bool
    waits a r =
        a.len_raises
        || leb cfg.queue_size (length (queue r))
        || global_full a cfg.global_max_items r

    unfoldable pub update_meta : ℕ → Answers → Redis A X → Redis A X
    update_meta rate a r = elim (Dict.get r.metas meta_key) [
      | none ↦ r
      | some m ↦
          if a.meta_raises
          then r
          else record r { metas = Dict.set r.metas meta_key (with_rate rate a.at_update m) }
    ]

  module _ {A X G : Type 0} where
    -- `generated_total += 1`
    abbrev pub count_item : Loop A X G → Loop A X G
    count_item s =
        let w = s.worker in
        record s { worker = record w { generated_total = w.generated_total + 1 } }

    abbrev pub clear_batch : Loop A X G → Loop A X G
    clear_batch s = record s { worker = record s.worker { batch = [] } }

    unfoldable pub track_rate : Answers → Loop A X G → Loop A X G
    unfolding update_meta
    track_rate a s =
        let w = s.worker in
        let elapsed = a.at_elapsed - w.rate_tracking_start in
        let rate = w.rate_tracking_count * 1000000 / elapsed in
        if ltb 0 elapsed
        then record s {
          worker = record w { rate_tracking_start = a.at_restart; rate_tracking_count = 0 };
          redis = update_meta rate a s.redis;
          metrics = s.metrics ++ pregen_generation_rate rate ∷ [];
        }
        else s

    abbrev pub gauged : Loop A X G → Loop A X G
    gauged s = record s { metrics = s.metrics ++ pregen_queue_size (length (queue s.redis)) ∷ [] }

    -- Every tenth batch is reported; `llen` raises into the handler of the loop.
    unfoldable pub report : Answers → Loop A X G → Loop A X G
    unfolding track_rate
    report a s = if a.report_raises then s else count_item (clear_batch (track_rate a (gauged s)))

    abbrev pub count_batch : Loop A X G → Loop A X G
    count_batch s =
        let w = s.worker in
        let n = length w.batch in
        record s {
          worker = record w {
            batch_count = w.batch_count + 1;
            rate_tracking_count = w.rate_tracking_count + n;
          };
          metrics =
              if cfg.record_metrics then s.metrics ++ items_generated_total n ∷ [] else s.metrics;
        }

    abbrev pub after_push : Answers → Loop A X G → Bool × Redis A X → Loop A X G
    after_push a s (false, r) = record s { redis = r }
    after_push a s (true, r) =
        let s' = count_batch (record s { redis = r }) in
        if eqb (s'.worker.batch_count % 10) 0 then report a s' else count_item (clear_batch s')

    abbrev pub take_in : A → Loop A X G → Loop A X G
    take_in item s = record s { worker = record s.worker { batch = s.worker.batch ++ item ∷ [] } }

    unfoldable pub add_item : Answers → Option A → Loop A X G → Loop A X G
    unfolding push_batch report
    add_item a none s = s
    add_item a (some item) s =
        let batch = s.worker.batch ++ item ∷ [] in
        let s' = take_in item s in
        if leb cfg.batch_size (length batch)
        then after_push a s' (push_batch batch a s.redis)
        else count_item s'

    module _ (src : Source A G) where
      unfoldable pub make_item : Answers → Loop A X G → Loop A X G
      unfolding add_item
      make_item a s =
          let (item, context) = src.generate s.context in
          add_item a item (record s { context = context })

      -- Before a batch: whether there is room, and the chaos.
      unfoldable pub begin_batch : Answers → Loop A X G → Loop A X G
      unfolding make_item
      begin_batch a s =
          if waits a s.redis then s else make_item a (record s { context = src.chaos s.context })

      abbrev pub by_batch : Answers → Loop A X G → List A → Loop A X G
      by_batch a s [] = begin_batch a s
      by_batch a s (x ∷ batch) = make_item a s

      -- Whether the loop goes on, and what it goes on with.
      unfoldable pub round : Answers → Loop A X G → Bool × Loop A X G
      unfolding begin_batch
      round a s =
          if reached_max cfg.max_items s.worker.generated_total
          then (false, s)
          else (true, by_batch a s s.worker.batch)

      unfoldable pub rounds : List Answers → Loop A X G → Loop A X G
      unfolding round
      rounds [] s = s
      rounds (a ∷ rest) s = let (goes_on, s') = round a s in if goes_on then rounds rest s' else s'
