-- ===== src/Pregeneration/Cache.antt =====
-- What takes items from the queue that the worker fills: a stream, with the lines 446 to 460 of
-- server/routers/streaming/handler.py and update_global_cache_count of
-- server/routers/streaming/live.py, and a request, with server/routers/schemas.py.
pub mod Full
pub mod Starved
use havoc_forge.Base.{
  ℕ, String, Option, none, some, List, [], ◌∷◌, if◌then◌else◌, length, take, drop,
}
use havoc_forge.Base.Dict
use havoc_forge.Base.Dict.{Dict}
use havoc_forge.Base.Int.{ℤ, pos, ◌-ℤ◌, ltb_ℤ}
use havoc_forge.Base.Text.{concat}
use mathlib.Core.Option.{get_or}
use havoc_forge.Pregeneration.Worker.{
  PregenConfig, Redis, Answers, Loop, Source, incrby, counter_at, queue_key, schema_count_key,
  global_count_key, queue, lpush, round,
}

-- Which of the calls of `update_global_cache_count` raises.
pub data Nudge : Type 0 where
  nudged global_raises schema_raises reset_raises : Nudge

module _ (cfg : PregenConfig) (schema_name : String) where
  -- A schema's count that has gone below 0 is set to 0.
  unfoldable pub update_schema_count : ℤ → Nudge → Dict ℤ → Dict ℤ
  unfolding incrby
  update_schema_count delta schema_raises d = d
  update_schema_count delta reset_raises d = incrby (schema_count_key cfg schema_name) delta d
  update_schema_count delta _ d =
      let key = schema_count_key cfg schema_name in
      let d' = incrby key delta d in
      if ltb_ℤ (counter_at d' key) (pos 0) then Dict.set d' key (pos 0) else d'

  unfoldable pub update_global_cache_count : ℤ → Nudge → Dict ℤ → Dict ℤ
  unfolding update_schema_count
  update_global_cache_count delta global_raises d = d
  update_global_cache_count delta call d =
      update_schema_count delta call (incrby (global_count_key cfg schema_name) delta d)

-- `LPOP key n`
unfoldable pub lpop : {A X : Type 0} → String → ℕ → Redis A X → List A × Redis A X
lpop key n r =
    let q = get_or (Dict.get r.lists key) [] in
    (take n q, record r { lists = Dict.set r.lists key (drop n q) })

-- The key of a request does not depend on the configuration, and the counters stay.
unfoldable pub request_pop : {A X : Type 0} → String → ℕ → Redis A X → List A × Redis A X
unfolding lpop
request_pop schema_name n r = lpop (concat ("pregen" ∷ ":" ∷ schema_name ∷ ":queue" ∷ [])) n r

module _ (cfg : PregenConfig) (schema_name : String) {A X : Type 0} where
  abbrev pub counted_off : Option ℕ → List A → Nudge → Redis A X → Redis A X
  counted_off none items call r = r
  counted_off (some n) [] call r = r
  counted_off (some n) (x ∷ items) call r = record r {
    counters =
        update_global_cache_count cfg schema_name (pos 0 -ℤ pos (length (x ∷ items))) call
          r.counters;
  }

  unfoldable pub stream_pop : ℕ → Nudge → Redis A X → List A × Redis A X
  unfolding lpop update_global_cache_count
  stream_pop n call r =
      let (items, r') = lpop (queue_key cfg schema_name) n r in
      (items, counted_off cfg.global_max_items items call r')

-- What a stream that keeps the items of a batch pushes back when its client goes, lines 240 to 249 of
-- handler.py: no trim follows and nothing is counted.
abbrev pub push_returned : {A X : Type 0} → PregenConfig → String → List A → Redis A X → Redis A X
push_returned cfg schema_name unsent r = record r {
  lists = Dict.set r.lists (queue_key cfg schema_name) (lpush unsent (queue cfg schema_name r));
}

-- What becomes of a queue: rounds of its worker whose answers are of a kind, items that consumers of
-- the schema take, and items that they put back, if such may come back.
pub data Reach {A X G : Type 0} (cfg : PregenConfig) (schema_name : String) (src : Source A G)
    (Can : Answers → Type 0) (MayReturn : List A → Type 0) (s : Loop A X G)
    : Loop A X G → Type 0 where
  start : Reach cfg schema_name src Can MayReturn s s
  by_round :
      {t : Loop A X G} (a : Answers)
      → Can a
      → Reach cfg schema_name src Can MayReturn s t
      → Reach cfg schema_name src Can MayReturn s (round cfg schema_name src a t).1
  by_stream :
      {t : Loop A X G} (n : ℕ) (call : Nudge)
      → Reach cfg schema_name src Can MayReturn s t
      → Reach cfg schema_name src Can MayReturn s
          (record t { redis = (stream_pop cfg schema_name n call t.redis).1 })
  by_request :
      {t : Loop A X G} (n : ℕ)
      → Reach cfg schema_name src Can MayReturn s t
      → Reach cfg schema_name src Can MayReturn s
          (record t { redis = (request_pop schema_name n t.redis).1 })
  by_put_back :
      {t : Loop A X G} (unsent : List A)
      → MayReturn unsent
      → Reach cfg schema_name src Can MayReturn s t
      → Reach cfg schema_name src Can MayReturn s
          (record t { redis = push_returned cfg schema_name unsent t.redis })
