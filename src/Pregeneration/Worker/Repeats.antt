-- ===== src/Pregeneration/Worker/Repeats.antt =====
-- A batch that was pushed and is not counted as pushed.
use havoc_forge.Base.{
  ◌+◌, ◌%◌, ◌<◌, String, true, ◌≡◌, ◌∙◌, none, some, [], ◌∷◌, ◌++◌, arith, leb, eqb, length,
  length-append, take,
}
use havoc_forge.Pregeneration.Worker.{
  PregenConfig, answered, Answers, Loop, Source, lpush, queue, push_items, report, add_item,
  take_in,
}
use havoc_forge.Pregeneration.Worker.Bounds.{
  push_batch-answered, queue-push_items, after_push-lists,
}

module _ {A X G : Type 0} (cfg : PregenConfig) (schema_name : String) (src : Source A G)
    (no_global : cfg.global_max_items ≡ none) (room : 0 < cfg.queue_size) where
  -- A full batch whose push is answered, and the queue after that.
  full-queue :
      (a : Answers) (x : A) (s : Loop A X G)
      → a.first ≡ answered
      → leb cfg.batch_size (length (s.worker.batch ++ x ∷ [])) ≡ true
      → queue cfg schema_name (add_item cfg schema_name a (some x) s).redis
        ≡ take cfg.queue_size (lpush (s.worker.batch ++ x ∷ []) (queue cfg schema_name s.redis))
  unfolding add_item
  full-queue a x s answer full =
      let batch = s.worker.batch ++ x ∷ [] in
      let r' = push_items cfg schema_name batch s.redis in
      let kept = after_push-lists cfg schema_name a (take_in cfg schema_name x s) (true, r') in
      rw full (
        rw (push_batch-answered cfg schema_name batch a s.redis no_global answer)
          (rw kept (queue-push_items cfg schema_name batch s.redis room)))

  unreported_batch :
      (a : Answers) (x : A) (s : Loop A X G)
      → a.first ≡ answered
      → a.report_raises ≡ true
      → leb cfg.batch_size (length (s.worker.batch ++ x ∷ [])) ≡ true
      → eqb ((s.worker.batch_count + 1) % 10) 0 ≡ true
      → (add_item cfg schema_name a (some x) s).worker.batch ≡ s.worker.batch ++ x ∷ []
  unfolding add_item report
  unreported_batch a x s answer raised full tenth =
      let batch = s.worker.batch ++ x ∷ [] in
      rw full (
        rw (push_batch-answered cfg schema_name batch a s.redis no_global answer)
          (rw tenth (rw raised)))

  -- Without a global limit and with a queue size above 0: if the queue's length cannot be read after a
  -- push that is answered and completes a tenth batch, the batch is not emptied, and the next item's
  -- push, if it is answered, puts the same items into the queue a second time.
  pub add_item-repeats :
      (a b : Answers) (x y : A) (s : Loop A X G)
      → a.first ≡ answered
      → a.report_raises ≡ true
      → b.first ≡ answered
      → leb cfg.batch_size (length (s.worker.batch ++ x ∷ [])) ≡ true
      → eqb ((s.worker.batch_count + 1) % 10) 0 ≡ true
      → let size = cfg.queue_size in
        let batch = s.worker.batch ++ x ∷ [] in
        let t = add_item cfg schema_name a (some x) s in
        (queue cfg schema_name t.redis ≡ take size (lpush batch (queue cfg schema_name s.redis)))
        × (queue cfg schema_name (add_item cfg schema_name b (some y) t).redis
            ≡ take size
                (lpush (batch ++ y ∷ []) (take size (lpush batch (queue cfg schema_name s.redis)))))
  add_item-repeats a b x y s answer raised answer' full tenth =
      let batch = s.worker.batch ++ x ∷ [] in
      let t = add_item cfg schema_name a (some x) s in
      let kept = unreported_batch a x s answer raised full tenth in
      let first = full-queue a x s answer full in
      let longer = length-append batch (y ∷ []) in
      let again = full-queue b y t answer' (rw kept (ground (arith, full, longer))) in
      (first, again ∙ rw kept (rw first))
