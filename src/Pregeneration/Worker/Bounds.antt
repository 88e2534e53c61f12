-- ===== src/Pregeneration/Worker/Bounds.antt =====
-- How long the queue gets.
use havoc_forge.Base.{
  ℕ, zero, suc, ◌+◌, ◌-◌, ◌%◌, ◌≤◌, ◌<◌, String, Bool, true, false, ◌≡◌, refl, Option, none, some,
  List, [], ◌∷◌, ◌++◌, arith, leb, ltb, eqb, if_both, length, length-take, take, eq_refl,
  Bool-cases, inl, inr,
}
use havoc_forge.Base.Dict.{get-set}
use havoc_forge.Base.Int.{pos, ◌-ℤ◌}
use havoc_forge.Pregeneration.Worker.{
  PregenConfig, Redis, Sent, answered, refused, unanswered, Answers, Loop, Source, lpush, ltrim,
  queue_key, schema_count_key, global_count_key, incrby, queue, push_items, push_counted, send,
  or_plain, push_by, push_batch, update_meta, count_item, clear_batch, track_rate, report,
  count_batch, after_push, add_item, take_in, gauged, make_item, begin_batch, by_batch, reached_max,
  round, waits,
}

module _ {ℓ} {A : Type ℓ} where
  pub length-lpush : (xs q : List A) → length (lpush xs q) ≡ length xs + length q
  unfolding lpush
  length-lpush [] q = omega arith
  length-lpush (x ∷ xs) q = omega (arith, length-lpush xs (x ∷ q))

  -- The first `size` items stay.
  pub ltrim-eq-take : (size : ℕ) (q : List A) → 0 < size → ltrim (pos size -ℤ pos 1) q ≡ take size q
  unfolding ltrim ◌-ℤ◌
  ltrim-eq-take zero q h = absurd (omega arith)
  ltrim-eq-take (suc n) q h = let e : pos (suc n) -ℤ pos 1 ≡ pos n = ground arith in rw e

module _ (cfg : PregenConfig) (schema_name : String) where
  module _ {A X : Type 0} where
    -- The queue is longer than its size by at most `spare`.
    abbrev pub Fits : ℕ → Redis A X → Type 0
    Fits spare r = length (queue cfg schema_name r) ≤ cfg.queue_size + spare

    pub queue-push_items :
        (batch : List A) (r : Redis A X)
        → 0 < cfg.queue_size
        → queue cfg schema_name (push_items cfg schema_name batch r)
          ≡ take cfg.queue_size (lpush batch (queue cfg schema_name r))
    unfolding push_items
    queue-push_items batch r h =
        rw get-set (rw (eq_refl (queue_key cfg schema_name)) (ltrim-eq-take cfg.queue_size _ h))

    push_items-Fits :
        (spare : ℕ) (batch : List A) (r : Redis A X)
        → 0 < cfg.queue_size
        → Fits spare (push_items cfg schema_name batch r)
    push_items-Fits spare batch r h =
        rw (queue-push_items batch r h)
          (omega (arith, length-take cfg.queue_size (lpush batch (queue cfg schema_name r))))

    push_counted-Fits :
        (spare : ℕ) (batch : List A) (r : Redis A X)
        → 0 < cfg.queue_size
        → Fits spare (push_counted cfg schema_name batch r)
    unfolding push_counted
    push_counted-Fits spare batch r h =
        push_items-Fits spare batch
          (record r {
            counters =
                incrby (schema_count_key cfg schema_name) (pos (length batch))
                  (incrby (global_count_key cfg schema_name) (pos (length batch)) r.counters);
          })
          h

    -- Whether or not a push returns.
    send-Fits :
        (spare : ℕ) (answer : Sent) (pipe : Redis A X → Redis A X) (r : Redis A X)
        → Fits spare (pipe r)
        → Fits spare r
        → Fits spare (send cfg schema_name answer pipe r).1
    send-Fits spare answered pipe r done old = done
    send-Fits spare refused pipe r done old = old
    send-Fits spare unanswered pipe r done old = done

    or_plain-Fits :
        (spare : ℕ) (batch : List A) (again : Sent) (x : Bool × Redis A X)
        → 0 < cfg.queue_size
        → Fits spare x.1
        → Fits spare (or_plain cfg schema_name batch again x).1
    or_plain-Fits spare batch again (true, r) h old = old
    or_plain-Fits spare batch again (false, r) h old =
        send-Fits spare again (push_items cfg schema_name batch) r (push_items-Fits spare batch r h)
          old

    push_batch-Fits :
        (spare : ℕ) (batch : List A) (a : Answers) (o : Option ℕ) (r : Redis A X)
        → 0 < cfg.queue_size
        → Fits spare r
        → Fits spare (push_by cfg schema_name batch a o r).1
    push_batch-Fits spare batch a none r h old =
        send-Fits spare a.first (push_items cfg schema_name batch) r
          (push_items-Fits spare batch r h) old
    push_batch-Fits spare batch a (some g) r h old =
        or_plain-Fits spare batch a.second
          (send cfg schema_name a.first (push_counted cfg schema_name batch) r) h
          (send-Fits spare a.first (push_counted cfg schema_name batch) r
            (push_counted-Fits spare batch r h) old)

    pub push_batch-answered :
        (batch : List A) (a : Answers) (r : Redis A X)
        → cfg.global_max_items ≡ none
        → a.first ≡ answered
        → push_batch cfg schema_name batch a r ≡ (true, push_items cfg schema_name batch r)
    unfolding push_batch
    push_batch-answered batch a r no_global answer = rw no_global (rw answer)

    pub update_meta-lists :
        (rate : ℕ) (a : Answers) (r : Redis A X)
        → (update_meta cfg schema_name rate a r).lists ≡ r.lists
    unfolding update_meta
    update_meta-lists rate a r = ground arith

  -- A queue of size 0 has no room.
  pub waits_without_room :
      {A X : Type 0} (a : Answers) (r : Redis A X)
      → leb cfg.queue_size (length (queue cfg schema_name r)) ≡ true
      → waits cfg schema_name a r ≡ true
  unfolding waits
  waits_without_room a r h = ground (arith, h)

  module _ {A X G : Type 0} where
    -- What reports do, they do not do to the queue.
    pub track_rate-lists :
        (a : Answers) (s : Loop A X G)
        → (track_rate cfg schema_name a s).redis.lists ≡ s.redis.lists
    unfolding track_rate
    track_rate-lists a s = elim (Bool-cases (ltb 0 (a.at_elapsed - s.worker.rate_tracking_start))) [
      | inl e ↦ rw e (update_meta-lists _ a s.redis)
      | inr e ↦ rw e
    ]

    pub report-lists :
        (a : Answers) (s : Loop A X G) → (report cfg schema_name a s).redis.lists ≡ s.redis.lists
    unfolding report
    report-lists a s =
        if_both (λ (s' : Loop A X G). s'.redis.lists ≡ s.redis.lists) a.report_raises {x = s}
          {y = count_item cfg schema_name
            (clear_batch cfg schema_name (track_rate cfg schema_name a (gauged cfg schema_name s)))}
          refl (track_rate-lists a (gauged cfg schema_name s))

    pub after_push-lists :
        (a : Answers) (s : Loop A X G) (x : Bool × Redis A X)
        → (after_push cfg schema_name a s x).redis.lists ≡ x.1.lists
    after_push-lists a s (false, r) = refl
    after_push-lists a s (true, r) = elim (Bool-cases (eqb ((s.worker.batch_count + 1) % 10) 0)) [
      | inl e ↦ rw e (report-lists a (count_batch cfg schema_name (record s { redis = r })))
      | inr e ↦ rw e
    ]

    add_item-Fits :
        (spare : ℕ) (a : Answers) (item : Option A) (s : Loop A X G)
        → 0 < cfg.queue_size
        → Fits spare s.redis
        → Fits spare (add_item cfg schema_name a item s).redis
    unfolding add_item push_batch
    add_item-Fits spare a none s h old = old
    add_item-Fits spare a (some item) s h old =
        let batch = s.worker.batch ++ item ∷ [] in
        elim (Bool-cases (leb cfg.batch_size (length batch))) [
          | inl full ↦
              let x = push_by cfg schema_name batch a cfg.global_max_items s.redis in
              rw full (
                rw (after_push-lists a (take_in cfg schema_name item s) x)
                  (push_batch-Fits spare batch a cfg.global_max_items s.redis h old))
          | inr part ↦ rw part old
        ]

    module _ (src : Source A G) where
      make_item-Fits :
          (spare : ℕ) (a : Answers) (s : Loop A X G)
          → 0 < cfg.queue_size
          → Fits spare s.redis
          → Fits spare (make_item cfg schema_name src a s).redis
      unfolding make_item
      make_item-Fits spare a s h old =
          let (item, context) = src.generate s.context in
          add_item-Fits spare a item (record s { context = context }) h old

      by_batch-Fits :
          (spare : ℕ) (a : Answers) (s : Loop A X G) (batch : List A)
          → 0 < cfg.queue_size
          → Fits spare s.redis
          → Fits spare (by_batch cfg schema_name src a s batch).redis
      unfolding begin_batch
      by_batch-Fits spare a s [] h old = elim (Bool-cases (waits cfg schema_name a s.redis)) [
        | inl stays ↦ rw stays old
        | inr goes ↦
            rw goes (make_item-Fits spare a (record s { context = src.chaos s.context }) h old)
      ]
      by_batch-Fits spare a s (x ∷ batch) h old = make_item-Fits spare a s h old

      pub round-Fits :
          (spare : ℕ) (a : Answers) (s : Loop A X G)
          → 0 < cfg.queue_size
          → Fits spare s.redis
          → Fits spare (round cfg schema_name src a s).1.redis
      unfolding round
      round-Fits spare a s h old =
          elim (Bool-cases (reached_max cfg.max_items s.worker.generated_total)) [
            | inl stops ↦ rw stops old
            | inr goes ↦ rw goes (by_batch-Fits spare a s s.worker.batch h old)
          ]

      -- Nothing is made before there is room for a batch.
      pub round-waits :
          (a : Answers) (s : Loop A X G)
          → waits cfg schema_name a s.redis ≡ true
          → s.worker.batch ≡ []
          → (round cfg schema_name src a s).1 ≡ s
      unfolding round begin_batch
      round-waits a s w empty =
          if_both (λ (x : Bool × Loop A X G). x.1 ≡ s)
            (reached_max cfg.max_items s.worker.generated_total) {x = (false, s)}
            {y = (true, by_batch cfg schema_name src a s s.worker.batch)} refl (rw empty (rw w))
