-- ===== src/Pregeneration/Worker/Progress.antt =====
-- How far the worker gets when nothing raises.
use havoc_forge.Base.{
  ℕ, ◌+◌, ◌*◌, ◌%◌, ◌≤◌, ◌<◌, String, true, false, ◌≡◌, refl, ap, ◌∙◌, none, some, List, [], ◌∷◌,
  ◌++◌, arith, leb, ltb, eqb, if_both, length, length-append, length-take, Bool-cases, inl, inr,
}
use havoc_forge.Base.Dict
use havoc_forge.Base.Dict.{Dict}
use havoc_forge.Base.Find.{All}
use havoc_forge.Pregeneration.Worker.{
  PregenConfig, Redis, Worker, answered, Answers, Loop, Source, lpush, queue_key, queue, push_items,
  count_item, clear_batch, gauged, track_rate, report, count_batch, after_push, add_item, take_in,
  waits, make_item, begin_batch, by_batch, reached_max, round, rounds,
}
use havoc_forge.Pregeneration.Worker.Bounds.{
  length-lpush, queue-push_items, push_batch-answered, after_push-lists,
}
use mathlib.Core.Option.{get_or}

-- Every call answers.
pub record IsCalm (a : Answers) : Type 0 where
  pub asked : a.len_raises ≡ false
  pub pushed : a.first ≡ answered
  pub reported : a.report_raises ≡ false

module _ (cfg : PregenConfig) (schema_name : String) {A X G : Type 0} where
  -- After a batch was pushed: counted, emptied, and one item more.
  record IsPushed (w : Worker A) (s : Loop A X G) : Type 0 where
    empty : s.worker.batch ≡ []
    batches : s.worker.batch_count ≡ w.batch_count + 1
    items : s.worker.generated_total ≡ w.generated_total + 1

  track_rate-batch_count :
      (a : Answers) (s : Loop A X G)
      → (track_rate cfg schema_name a s).worker.batch_count ≡ s.worker.batch_count
  unfolding track_rate
  track_rate-batch_count a s = ground arith

  track_rate-generated_total :
      (a : Answers) (s : Loop A X G)
      → (track_rate cfg schema_name a s).worker.generated_total ≡ s.worker.generated_total
  unfolding track_rate
  track_rate-generated_total a s = ground arith

  report-IsPushed :
      (a : Answers) (w : Worker A) (s : Loop A X G)
      → a.report_raises ≡ false
      → s.worker.batch_count ≡ w.batch_count + 1
      → s.worker.generated_total ≡ w.generated_total
      → IsPushed w (report cfg schema_name a s)
  unfolding report
  report-IsPushed a w s reported batches items =
      let s' = gauged cfg schema_name s in
      rw reported (record {
        empty = refl;
        batches = track_rate-batch_count a s' ∙ batches;
        items = ap (λ n. n + 1) (track_rate-generated_total a s' ∙ items);
      })

  after_push-IsPushed :
      (a : Answers) (s : Loop A X G) (r : Redis A X)
      → a.report_raises ≡ false
      → IsPushed s.worker (after_push cfg schema_name a s (true, r))
  after_push-IsPushed a s r reported =
      let s' = count_batch cfg schema_name (record s { redis = r }) in
      if_both (IsPushed s.worker) (eqb ((s.worker.batch_count + 1) % 10) 0)
        {x = report cfg schema_name a s'}
        {y = count_item cfg schema_name (clear_batch cfg schema_name s')}
        (report-IsPushed a s.worker s' reported refl refl)
        (record { empty = refl; batches = refl; items = refl })

-- After `n` items, from a queue of `before`: whole batches are in the queue, the rest is not.
pub record IsMade {A X G : Type 0} (cfg : PregenConfig) (schema_name : String) (before n : ℕ)
    (s : Loop A X G) : Type 0 where
  pub items : s.worker.generated_total ≡ n
  pub split : cfg.batch_size * s.worker.batch_count + length s.worker.batch ≡ n
  pub part : length s.worker.batch < cfg.batch_size
  pub queued :
      length (queue cfg schema_name s.redis) ≡ before + cfg.batch_size * s.worker.batch_count

module _ {A X G : Type 0} (cfg : PregenConfig) (schema_name : String) (src : Source A G)
    (before max : ℕ) (limit : cfg.max_items ≡ some max) (no_global : cfg.global_max_items ≡ none)
    (room : before + max ≤ cfg.queue_size)
    (makes : (c : G) → (x : A) × ((src.generate c).0 ≡ some x)) where
  pushed-length :
      (batch : List A) (r : Redis A X)
      → 0 < cfg.queue_size
      → length (queue cfg schema_name r) + length batch ≤ cfg.queue_size
      → length (queue cfg schema_name (push_items cfg schema_name batch r))
        ≡ length (queue cfg schema_name r) + length batch
  pushed-length batch r h fits =
      let q = queue cfg schema_name r in
      rw (queue-push_items cfg schema_name batch r h)
        (omega (arith, length-take cfg.queue_size (lpush batch q), length-lpush batch q, fits))

  -- The item that fills a batch.
  full-IsMade :
      (n : ℕ) (a : Answers) (x : A) (s : Loop A X G)
      → n < max
      → IsCalm a
      → IsMade cfg schema_name before n s
      → length s.worker.batch + 1 ≡ cfg.batch_size
      → IsMade cfg schema_name before (n + 1) (
          after_push cfg schema_name a
            (take_in cfg schema_name x s)
            (true, push_items cfg schema_name (s.worker.batch ++ x ∷ []) s.redis))
  full-IsMade n a x s h calm made full =
      let batch = s.worker.batch ++ x ∷ [] in
      let r' = push_items cfg schema_name batch s.redis in
      let s' = take_in cfg schema_name x s in
      let p = after_push-IsPushed cfg schema_name a s' r' calm.reported in
      let longer = length-append s.worker.batch (x ∷ []) in
      let none_left = ap length p.empty in
      let grown =
        pushed-length batch s.redis (omega (arith, room, h))
          (omega (arith, room, h, full, made.queued, made.split, longer)) in
      let same =
        ap (λ (d : Dict (List A)). length (get_or (Dict.get d (queue_key cfg schema_name)) []))
          (after_push-lists cfg schema_name a s' (true, r')) in
      record {
        items = p.items ∙ omega (arith, made.items);
        split = rw p.batches (omega (arith, none_left, full, made.split));
        part = omega (arith, none_left, full);
        queued = rw p.batches (omega (arith, same, grown, made.queued, longer, full));
      }

  add_item-IsMade :
      (n : ℕ) (a : Answers) (x : A) (s : Loop A X G)
      → n < max
      → IsCalm a
      → IsMade cfg schema_name before n s
      → IsMade cfg schema_name before (n + 1) (add_item cfg schema_name a (some x) s)
  unfolding add_item
  add_item-IsMade n a x s h calm made =
      let batch = s.worker.batch ++ x ∷ [] in
      let longer = length-append s.worker.batch (x ∷ []) in
      elim (Bool-cases (leb cfg.batch_size (length batch))) [
        | inl full ↦ rw full (
            rw (push_batch-answered cfg schema_name batch a s.redis no_global calm.pushed)
              (full-IsMade n a x s h calm made (ground (arith, full, longer, made.part))))
        | inr part ↦ rw part (record {
          items = omega (arith, made.items);
          split = omega (arith, made.split, longer);
          part = ground (arith, part, longer);
          queued = made.queued;
        })
      ]

  make_item-IsMade :
      (n : ℕ) (a : Answers) (s : Loop A X G)
      → n < max
      → IsCalm a
      → IsMade cfg schema_name before n s
      → IsMade cfg schema_name before (n + 1) (make_item cfg schema_name src a s)
  unfolding make_item
  make_item-IsMade n a s h calm made =
      let (x, got) = makes s.context in
      let s' = record s { context = (src.generate s.context).1 } in
      rw got (
        add_item-IsMade n a x s' h calm (record {
          items = made.items;
          split = made.split;
          part = made.part;
          queued = made.queued;
        }))

  goes_on_waiting :
      (n : ℕ) (a : Answers) (s : Loop A X G)
      → n < max
      → IsCalm a
      → IsMade cfg schema_name before n s
      → waits cfg schema_name a s.redis ≡ false
  unfolding waits
  goes_on_waiting n a s h calm made =
      rw calm.asked (rw no_global (ground (arith, room, h, made.queued, made.split)))

  by_batch-IsMade :
      (n : ℕ) (a : Answers) (s : Loop A X G) (batch : List A)
      → n < max
      → IsCalm a
      → IsMade cfg schema_name before n s
      → IsMade cfg schema_name before (n + 1) (by_batch cfg schema_name src a s batch)
  unfolding begin_batch
  by_batch-IsMade n a s [] h calm made = rw (goes_on_waiting n a s h calm made) (
      make_item-IsMade n a (record s { context = src.chaos s.context }) h calm
        (record { items = made.items; split = made.split; part = made.part; queued = made.queued }))
  by_batch-IsMade n a s (x ∷ batch) h calm made = make_item-IsMade n a s h calm made

  -- A round makes an item, or all are made and the loop ends.
  round-IsMade :
      (n : ℕ) (a : Answers) (s : Loop A X G)
      → n < max
      → IsCalm a
      → IsMade cfg schema_name before n s
      → ((round cfg schema_name src a s).0 ≡ true)
        × IsMade cfg schema_name before (n + 1) (round cfg schema_name src a s).1
  unfolding round
  round-IsMade n a s h calm made =
      let on : reached_max cfg.max_items s.worker.generated_total ≡ false =
        rw limit (ground (arith, h, made.items)) in
      (rw on (refl, by_batch-IsMade n a s s.worker.batch h calm made))

  round-ends :
      (a : Answers) (s : Loop A X G)
      → IsMade cfg schema_name before max s
      → round cfg schema_name src a s ≡ (false, s)
  unfolding round
  round-ends a s made =
      let off : reached_max cfg.max_items s.worker.generated_total ≡ true =
        rw limit (ground (arith, made.items)) in
      rw off

  rounds-IsMade :
      (n : ℕ) (answers : List Answers) (s : Loop A X G)
      → n ≤ max
      → max ≤ n + length answers
      → All IsCalm answers
      → IsMade cfg schema_name before n s
      → IsMade cfg schema_name before max (rounds cfg schema_name src answers s)
  unfolding rounds
  rounds-IsMade n [] s le enough calm made =
      let is : n ≡ max = omega (arith, le, enough) in rw (← is) made
  rounds-IsMade n (a ∷ answers) s le enough calm made = elim (Bool-cases (ltb n max)) [
    | inl more ↦
        let (on, made') = round-IsMade n a s (ground (arith, more)) calm.0 made in
        rw on (
          rounds-IsMade (n + 1) answers (round cfg schema_name src a s).1 (ground (arith, more))
            (omega (arith, enough)) calm.1 made')
    | inr all ↦
        let is : n ≡ max = ground (arith, all, le) in
        let made' : IsMade cfg schema_name before max s = rw (← is) made in
        rw (round-ends a s made') made'
  ]

  -- If no call raises, nothing limits all schemas together, and the queue has room for all items, as
  -- many rounds as there are items to make are enough: the worker has made exactly that number, and
  -- the loop ends. The whole batches are in the queue; a last batch that is not full is never pushed.
  pub rounds-makes :
      (answers : List Answers) (s : Loop A X G)
      → max ≤ length answers
      → All IsCalm answers
      → IsMade cfg schema_name before 0 s
      → let t = rounds cfg schema_name src answers s in
        IsMade cfg schema_name before max t
        × ((a : Answers) → round cfg schema_name src a t ≡ (false, t))
  rounds-makes answers s enough calm made =
      let made' = rounds-IsMade 0 answers s (omega arith) (omega (arith, enough)) calm made in
      (made', λ a. round-ends a _ made')
