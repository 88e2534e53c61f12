-- ===== src/Pregeneration/Cache/Full.antt =====
-- The bound of the queue, whatever its worker and its consumers do.
use havoc_forge.Base.{
  ℕ, ◌+◌, ◌≤◌, ◌<◌, String, ◌≡◌, refl, Option, none, some, List, [], ◌∷◌, arith, length,
  length-drop, ◌==◌, eq_iff, eq_refl, Bool-cases, inl, inr, leb,
}
use havoc_forge.Base.Dict
use havoc_forge.Base.Dict.{get-set}
use havoc_forge.Pregeneration.Worker.{PregenConfig, Redis, Answers, Loop, Source, queue, queue_key}
use havoc_forge.Pregeneration.Worker.Bounds.{
  length-lpush, Fits, round-Fits, round-waits, waits_without_room,
}
use havoc_forge.Pregeneration.Cache.{
  Reach, start, by_round, by_stream, by_request, by_put_back, push_returned, Nudge, lpop,
  request_pop, stream_pop, counted_off,
}
use havoc_forge.Base.Text.{concat}
use mathlib.Core.Option.{get_or}

module _ (cfg : PregenConfig) (schema_name : String) {A X : Type 0} where
  -- Whatever list is popped, the queue does not grow.
  pub lpop-queue :
      (key : String) (n : ℕ) (r : Redis A X)
      → length (queue cfg schema_name (lpop key n r).1) ≤ length (queue cfg schema_name r)
  unfolding lpop
  lpop-queue key n r = elim (Bool-cases (key == queue_key cfg schema_name)) [
    | inl same ↦
        let is = (eq_iff key (queue_key cfg schema_name)).0 same in
        rw get-set
          (rw same (rw (← is) (omega (arith, length-drop n (get_or (Dict.get r.lists key) [])))))
    | inr other ↦ rw get-set (rw other (omega arith))
  ]

  pub counted_off-lists :
      (o : Option ℕ) (items : List A) (call : Nudge) (r : Redis A X)
      → (counted_off cfg schema_name o items call r).lists ≡ r.lists
  counted_off-lists none items call r = refl
  counted_off-lists (some n) [] call r = refl
  counted_off-lists (some n) (x ∷ items) call r = refl

  pub stream_pop-queue :
      (n : ℕ) (call : Nudge) (r : Redis A X)
      → length (queue cfg schema_name (stream_pop cfg schema_name n call r).1)
        ≤ length (queue cfg schema_name r)
  unfolding stream_pop
  stream_pop-queue n call r =
      let (items, r') = lpop (queue_key cfg schema_name) n r in
      rw (counted_off-lists cfg.global_max_items items call r')
        (lpop-queue (queue_key cfg schema_name) n r)

  pub request_pop-queue :
      (n : ℕ) (r : Redis A X)
      → length (queue cfg schema_name (request_pop schema_name n r).1)
        ≤ length (queue cfg schema_name r)
  unfolding request_pop
  request_pop-queue n r = lpop-queue (concat ("pregen" ∷ ":" ∷ schema_name ∷ ":queue" ∷ [])) n r

  push_returned-queue :
      (unsent : List A) (r : Redis A X)
      → length (queue cfg schema_name (push_returned cfg schema_name unsent r))
        ≡ length unsent + length (queue cfg schema_name r)
  push_returned-queue unsent r =
      rw get-set
        (rw (eq_refl (queue_key cfg schema_name)) (length-lpush unsent (queue cfg schema_name r)))

module _ {A X G : Type 0} (cfg : PregenConfig) (schema_name : String) (src : Source A G)
    (Can : Answers → Type 0) (MayReturn : List A → Type 0) where
  abbrev pub Run : Loop A X G → Loop A X G → Type 0
  Run s t = Reach cfg schema_name src Can MayReturn s t

  -- How many items streams have put back.
  pub returned : {s t : Loop A X G} → Run s t → ℕ
  returned start = 0
  returned (by_round a can past) = returned past
  returned (by_stream n call past) = returned past
  returned (by_request n past) = returned past
  returned (by_put_back unsent may past) = returned past + length unsent

  room-Fits :
      {s t : Loop A X G}
      → 0 < cfg.queue_size
      → Fits cfg schema_name 0 s.redis
      → (past : Run s t) → Fits cfg schema_name (returned past) t.redis
  unfolding returned
  room-Fits h fits start = fits
  room-Fits h fits (by_round {t} a can past) =
      round-Fits cfg schema_name src (returned past) a t h (room-Fits h fits past)
  room-Fits h fits (by_stream {t} n call past) =
      omega (arith, room-Fits h fits past, stream_pop-queue cfg schema_name n call t.redis)
  room-Fits h fits (by_request {t} n past) =
      omega (arith, room-Fits h fits past, request_pop-queue cfg schema_name n t.redis)
  room-Fits h fits (by_put_back {t} unsent may past) =
      omega (arith, room-Fits h fits past, push_returned-queue cfg schema_name unsent t.redis)

  no_room-Fits :
      {s t : Loop A X G}
      → cfg.queue_size ≡ 0
      → s.worker.batch ≡ []
      → Fits cfg schema_name 0 s.redis
      → (past : Run s t) → (t.worker.batch ≡ []) × Fits cfg schema_name (returned past) t.redis
  unfolding returned
  no_room-Fits h empty fits start = (empty, fits)
  no_room-Fits h empty fits (by_round {t} a can past) =
      let (empty', fits') = no_room-Fits h empty fits past in
      let waiting = waits_without_room cfg schema_name a t.redis (ground (arith, h)) in
      let same = round-waits cfg schema_name src a t waiting empty' in rw same (empty', fits')
  no_room-Fits h empty fits (by_stream {t} n call past) =
      let (empty', fits') = no_room-Fits h empty fits past in
      (empty', omega (arith, fits', stream_pop-queue cfg schema_name n call t.redis))
  no_room-Fits h empty fits (by_request {t} n past) =
      let (empty', fits') = no_room-Fits h empty fits past in
      (empty', omega (arith, fits', request_pop-queue cfg schema_name n t.redis))
  no_room-Fits h empty fits (by_put_back {t} unsent may past) =
      let (empty', fits') = no_room-Fits h empty fits past in
      (empty', omega (arith, fits', push_returned-queue cfg schema_name unsent t.redis))

  -- Whatever calls raise, before or after they had an effect, however consumers take items, and
  -- whatever items streams put back: from a worker without a batch and a queue within its size, the
  -- queue gets longer than its size by no more than the items that were put back, so never if none
  -- are. A size of 0, for which LTRIM would keep every item, holds too, since nothing is then made.
  pub Reach-Fits :
      (s t : Loop A X G)
      → s.worker.batch ≡ []
      → Fits cfg schema_name 0 s.redis
      → (past : Run s t) → Fits cfg schema_name (returned past) t.redis
  Reach-Fits s t empty fits past = elim (Bool-cases (leb cfg.queue_size 0)) [
    | inl no_room ↦ (no_room-Fits (ground (arith, no_room)) empty fits past).1
    | inr room ↦ room-Fits (ground (arith, room)) fits past
  ]
