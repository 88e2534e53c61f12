-- ===== src/Pregeneration/Cache/Starved.antt =====
-- A counter that the items of the queue cannot bring below its limit.
use havoc_forge.Base.{
  ℕ, ◌+◌, String, true, false, ◌≡◌, refl, ap, some, List, [], ◌∷◌, arith, length, take, length-drop,
  length-take, ◌==◌, eq_refl, if_both, if◌then◌else◌, ◌∙◌,
}
use havoc_forge.Base.Dict
use havoc_forge.Base.Dict.{Dict, get-set}
use havoc_forge.Base.Int.{ℤ, pos, ◌-ℤ◌, ◌+ℤ◌, ◌≤ℤ◌, ltb_ℤ, int_laws}
use havoc_forge.Pregeneration.Worker.{
  PregenConfig, Redis, Answers, Loop, Source, Worker, waits, queue, queue_key, counter_at, incrby,
  schema_count_key, global_count_key,
}
use havoc_forge.Pregeneration.Worker.Bounds.{round-waits}
use havoc_forge.Pregeneration.Cache.{
  Reach, start, by_round, by_stream, by_request, by_put_back, Nudge, nudged, global_raises,
  schema_raises, reset_raises, update_schema_count, update_global_cache_count, lpop, request_pop,
  stream_pop, counted_off,
}
use havoc_forge.Pregeneration.Cache.Full.{counted_off-lists, request_pop-queue}

module _ (cfg : PregenConfig) (schema_name : String) where
  abbrev pub global_count : Dict ℤ → ℤ
  global_count d = counter_at d (global_count_key cfg schema_name)

  incrby-other :
      (key : String) (delta : ℤ) (d : Dict ℤ)
      → (key == global_count_key cfg schema_name) ≡ false
      → global_count (incrby key delta d) ≡ global_count d
  unfolding incrby
  incrby-other key delta d other = rw get-set (rw other)

  incrby-global :
      (delta : ℤ) (d : Dict ℤ)
      → global_count (incrby (global_count_key cfg schema_name) delta d) ≡ global_count d +ℤ delta
  unfolding incrby
  incrby-global delta d = rw get-set (rw (eq_refl (global_count_key cfg schema_name)))

  -- A count below 0 is set to 0, at the schema's key.
  floored-global :
      (d : Dict ℤ)
      → (schema_count_key cfg schema_name == global_count_key cfg schema_name) ≡ false
      → let key = schema_count_key cfg schema_name in
        global_count (if ltb_ℤ (counter_at d key) (pos 0) then Dict.set d key (pos 0) else d)
        ≡ global_count d
  floored-global d other =
      let key = schema_count_key cfg schema_name in
      if_both (λ d'. global_count d' ≡ global_count d) (ltb_ℤ (counter_at d key) (pos 0))
        {x = Dict.set d key (pos 0)} {y = d} (rw get-set (rw other)) refl

  update_schema_count-global :
      (delta : ℤ) (call : Nudge) (d : Dict ℤ)
      → (schema_count_key cfg schema_name == global_count_key cfg schema_name) ≡ false
      → global_count (update_schema_count cfg schema_name delta call d) ≡ global_count d
  unfolding update_schema_count
  update_schema_count-global delta nudged d other =
      floored-global _ other ∙ incrby-other _ delta d other
  update_schema_count-global delta global_raises d other =
      floored-global _ other ∙ incrby-other _ delta d other
  update_schema_count-global delta schema_raises d other = refl
  update_schema_count-global delta reset_raises d other = incrby-other _ delta d other

  taken :
      (n : ℕ) (call : Nudge) (d : Dict ℤ)
      → (schema_count_key cfg schema_name == global_count_key cfg schema_name) ≡ false
      → let delta = pos 0 -ℤ pos n in
        global_count d
        ≤ℤ global_count (
            update_schema_count cfg schema_name delta call
              (incrby (global_count_key cfg schema_name) delta d))
          +ℤ pos n
  taken n call d other =
      let delta = pos 0 -ℤ pos n in
      let d' = incrby (global_count_key cfg schema_name) delta d in
      rw (update_schema_count-global delta call d' other)
        (rw (incrby-global delta d) (omega int_laws))

  -- The global counter goes down by the items that were taken, or stays.
  update_global :
      (n : ℕ) (call : Nudge) (d : Dict ℤ)
      → (schema_count_key cfg schema_name == global_count_key cfg schema_name) ≡ false
      → global_count d
        ≤ℤ global_count (update_global_cache_count cfg schema_name (pos 0 -ℤ pos n) call d) +ℤ pos n
  unfolding update_global_cache_count
  update_global n global_raises d other = omega int_laws
  update_global n nudged d other = taken n nudged d other
  update_global n schema_raises d other = taken n schema_raises d other
  update_global n reset_raises d other = taken n reset_raises d other

  module _ {A X : Type 0} where
    counted_off-global :
        (g : ℕ) (items : List A) (call : Nudge) (r : Redis A X)
        → (schema_count_key cfg schema_name == global_count_key cfg schema_name) ≡ false
        → global_count r.counters
          ≤ℤ global_count (counted_off cfg schema_name (some g) items call r).counters
            +ℤ pos (length items)
    counted_off-global g [] call r other = omega int_laws
    counted_off-global g (x ∷ items) call r other =
        update_global (length (x ∷ items)) call r.counters other

    -- The counter has passed its limit by more than the queue holds.
    unfoldable pub IsOver : ℕ → Redis A X → Type 0
    IsOver g r = pos (g + length (queue cfg schema_name r)) ≤ℤ global_count r.counters

    stream_pop-IsOver :
        (g n : ℕ) (call : Nudge) (r : Redis A X)
        → cfg.global_max_items ≡ some g
        → (schema_count_key cfg schema_name == global_count_key cfg schema_name) ≡ false
        → IsOver g r
        → IsOver g (stream_pop cfg schema_name n call r).1
    unfolding IsOver stream_pop lpop
    stream_pop-IsOver g n call r limit other h =
        let q = queue cfg schema_name r in
        let r' = (lpop (queue_key cfg schema_name) n r).1 in
        let left = length-drop n q in
        let off = counted_off-global g (take n q) call r' other in
        rw limit (
          rw (counted_off-lists cfg schema_name (some g) (take n q) call r') (
            rw get-set (
              rw (eq_refl (queue_key cfg schema_name))
                (omega (int_laws, left, length-take n q, off, h)))))

    request_pop-counters :
        (n : ℕ) (r : Redis A X) → (request_pop schema_name n r).1.counters ≡ r.counters
    unfolding request_pop lpop
    request_pop-counters n r = refl

    request_pop-IsOver :
        (g n : ℕ) (r : Redis A X) → IsOver g r → IsOver g (request_pop schema_name n r).1
    unfolding IsOver
    request_pop-IsOver g n r h =
        rw (request_pop-counters n r) (omega (arith, h, request_pop-queue cfg schema_name n r))

    IsOver-waits :
        (g : ℕ) (a : Answers) (r : Redis A X)
        → cfg.global_max_items ≡ some g
        → a.count_raises ≡ false
        → IsOver g r
        → waits cfg schema_name a r ≡ true
    unfolding IsOver waits
    IsOver-waits g a r limit asked h = rw limit (rw asked (ground (arith, h)))

module _ {A X G : Type 0} (cfg : PregenConfig) (schema_name : String) (src : Source A G) where
  -- Where this schema alone uses the global counter and streams put nothing back: once the counter is
  -- at its limit and what the queue holds, a worker between two batches makes no item any more,
  -- however much the schema's streams and requests take and however often they count it off, if the
  -- schema's counter is another one, and as long as the counter can be read.
  pub IsOver-starves :
      (g : ℕ) (s t : Loop A X G)
      → cfg.global_max_items ≡ some g
      → (schema_count_key cfg schema_name == global_count_key cfg schema_name) ≡ false
      → s.worker.batch ≡ []
      → IsOver cfg schema_name g s.redis
      → Reach cfg schema_name src (λ a. a.count_raises ≡ false) (λ unsent. ⊥) s t
      → (t.worker ≡ s.worker) × IsOver cfg schema_name g t.redis
  IsOver-starves g s _ limit other empty h start = (refl, h)
  IsOver-starves g s _ limit other empty h (by_round {t} a asked past) =
      let (same, h') = IsOver-starves g s t limit other empty h past in
      let stays =
        round-waits cfg schema_name src a t
          (IsOver-waits cfg schema_name g a t.redis limit asked h')
          (ap (λ (w : Worker A). w.batch) same ∙ empty) in
      rw stays (same, h')
  IsOver-starves g s _ limit other empty h (by_stream {t} n call past) =
      let (same, h') = IsOver-starves g s t limit other empty h past in
      (same, stream_pop-IsOver cfg schema_name g n call t.redis limit other h')
  IsOver-starves g s _ limit other empty h (by_request {t} n past) =
      let (same, h') = IsOver-starves g s t limit other empty h past in
      (same, request_pop-IsOver cfg schema_name g n t.redis h')
  IsOver-starves g s _ limit other empty h (by_put_back {t} unsent may past) = absurd may
