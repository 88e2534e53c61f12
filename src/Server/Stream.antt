-- ===== src/Server/Stream.antt =====
-- server/routers/streaming/handler.py: `stream_schema`, which sends a schema's items over a
-- websocket. A turn is one pass of its endless loop; `Turn` says what the outside answers in it.
pub mod Keeps
pub mod Numbered
pub mod Stalled
pub mod PutBack
pub mod Delivered
pub mod Events
pub mod Retained
pub mod Endpoint
use havoc_forge.Base.{
  ℕ, zero, suc, ◌+◌, ◌-◌, ◌*◌, ◌/◌, String, Bool, true, false, ◌||◌, ◌&&◌, not, Option, none, some,
  List, [], ◌∷◌, ◌++◌, ◌==◌, map, ltb, leb, eqb, min, if◌then◌else◌, length, drop,
}
use havoc_forge.Base.Dict.{Dict}
use havoc_forge.Base.Int.{ℤ}
use havoc_forge.Base.Text.{concat}
use mathlib.Core.Option
use mathlib.Core.Option.{get_or}
use havoc_forge.Pregeneration.Worker.{
  PregenConfig, Redis, Sent, answered, refused, unanswered, queue_key, queue, lpush,
}
use havoc_forge.Pregeneration.Cache.{Nudge, lpop, stream_pop, push_returned}
use havoc_forge.Server.RateLimiter.{
  AdaptiveRateLimiter, Clock, new_limiter, consume, activate_burst, million,
}
use havoc_forge.Server.UserState.{
  Meta, Mode, sequential, wallclock, Values, apply_stateful_user_batch, save_user_state,
}
use havoc_forge.Server.UserState as UserState
use havoc_forge.Base.Dict
use havoc_forge.Server.Session.{
  StreamConfig, Session, BatchItem, object, text, ChaosMeta, Message, event, cache_required,
  unexpected, Delivery, delivered, gone, broken, Popping, popped, lpop_raises, undecodable,
  ChaosReply, Turn, Stream, Exit, goes_on, finished, disconnected, failed, given_id, out_of_time,
  is_full, pop_size, generate_live_batch,
}

-- A batch that may be empty, or the end of the stream.
pub data Fetched (V : Type 0) : Type 0 where
  items : List (Dict V) → Fetched V
  missing : Fetched V

module _ (ses : Session) where
  abbrev pub burst_rate_of : ChaosMeta → ℕ
  burst_rate_of m = get_or m.burst_rate (ses.cfg.base_rate * 10)

  abbrev pub burst_duration_of : ChaosMeta → ℕ
  burst_duration_of m = get_or m.burst_duration 10

  abbrev pub required_of : ChaosMeta → ℕ
  required_of m = get_or m.required_cache_items (burst_rate_of m * burst_duration_of m)

  abbrev pub is_signalled : Option ChaosMeta → Bool
  is_signalled none = false
  is_signalled (some m) = m.burst_active && eqb (length ses.forced) 0

module _ {V : Type 0} where
  -- A message and what is sent after it, which waits for the call that sends it.
  abbrev pub deliver : Delivery → Message V → List (Message V) × Exit → List (Message V) × Exit
  deliver delivered msg (sent, exit) = (msg ∷ sent, exit)
  deliver gone msg rest = ([], disconnected)
  deliver broken msg rest = ([], failed)

module _ {V : Type 0} (ses : Session) (t : Turn V) where
  -- The pop inside `try`: items that cannot be decoded are gone, and not counted off.
  abbrev pub pop_batch : {X : Type 0} → ℕ → Redis (Dict V) X → List (Dict V) × Redis (Dict V) X
  pop_batch n r = elim t.popping [
    | popped ↦ stream_pop ses.cfg.pregen ses.schema n t.nudge r
    | lpop_raises ↦ ([], r)
    | undecodable ↦ ([], (lpop (queue_key ses.cfg.pregen ses.schema) n r).1)
  ]

  abbrev pub when_empty : ℕ → Fetched V
  when_empty n =
      if ses.cfg.require_cache
      then missing
      else if ses.cfg.fallback_to_live
      then items (generate_live_batch t.generate n)
      else items []

  abbrev pub or_fall_back : ℕ → List (Dict V) → Fetched V
  or_fall_back n [] = when_empty n
  or_fall_back n (x ∷ raw) = items (x ∷ raw)

  unfoldable pub fetch_batch : {X : Type 0} → ℕ → Redis (Dict V) X → Fetched V × Redis (Dict V) X
  unfolding stream_pop lpop
  fetch_batch n r =
      if ses.cfg.pregen_enabled
      then (let (raw, r') = pop_batch n r in (or_fall_back n raw, r'))
      else (items (generate_live_batch t.generate n), r)

  -- `_maybe_activate_burst`; where `llen` raises, nothing is activated.
  abbrev pub cache_suffices : {X : Type 0} → ChaosMeta → Redis (Dict V) X → Bool
  cache_suffices m r =
      if ses.cfg.pregen_enabled && ltb 0 (required_of ses m)
      then (if t.llen_raises
          then false
          else leb (required_of ses m) (length (queue ses.cfg.pregen ses.schema r)))
      else true

  unfoldable pub maybe_activate_burst :
      {X : Type 0} → Option ChaosMeta → Redis (Dict V) X → AdaptiveRateLimiter → AdaptiveRateLimiter
  maybe_activate_burst none r limiter = limiter
  maybe_activate_burst (some m) r limiter =
      if is_signalled ses (some m) && cache_suffices m r
      then activate_burst (burst_rate_of ses m) (burst_duration_of ses m * million) t.burst_time
          limiter
      else limiter

  -- What the chaos leaves of a batch: the items to send, the raw items, and its report.
  abbrev pub after_chaos :
      {X D : Type 0}
      → List (BatchItem V)
      → List (Dict V)
      → Stream V X D
      → (List (BatchItem V) × List (Dict V) × List String × Option ChaosMeta) × Stream V X D
  after_chaos batch raw s =
      if ses.cfg.apply_chaos
      then (let c = t.chaos batch raw in
          elim c.reply [
            | none ↦ ((c.left_items, c.left_raw, [], none), s)
            | some report ↦
                let (batch', said, m) = report in
                (
                  (batch', c.left_raw, said, m),
                  record s { limiter = Option.map (maybe_activate_burst m s.redis) s.limiter },
                )
          ])
      else ((batch, raw, [], none), s)

  -- The loop over a batch, from a number on: what was sent, and whether the loop goes on.
  unfoldable pub send_all :
      List String → Option ChaosMeta → List (BatchItem V) → ℕ → List (Message V) × Exit
  send_all said m [] seq = ([], goes_on)
  send_all said m (x ∷ batch) seq =
      let rest = send_all said m batch (suc seq) in
      if is_full ses.max_events seq
      then ([], goes_on)
      else deliver (t.delivery seq) (event seq x said m) rest

  abbrev pub pushed_back : {X : Type 0} → List (Dict V) → Redis (Dict V) X → Redis (Dict V) X
  pushed_back unsent r = push_returned ses.cfg.pregen ses.schema unsent r

  abbrev pub push_unsent : {X : Type 0} → List (Dict V) → Redis (Dict V) X → Exit × Redis (Dict V) X
  push_unsent [] r = (disconnected, r)
  push_unsent (x ∷ unsent) r = elim t.push_back [
    | answered ↦ (disconnected, pushed_back (x ∷ unsent) r)
    | refused ↦ (failed, r)
    | unanswered ↦ (failed, pushed_back (x ∷ unsent) r)
  ]

  -- `except WebSocketDisconnect` of the loop over a batch.
  unfoldable pub retain :
      {X : Type 0} → List (Dict V) → ℕ → Redis (Dict V) X → Exit × Redis (Dict V) X
  unfolding lpush
  retain raw sent_in_batch r =
      if ses.cfg.batch_retention then push_unsent (drop sent_in_batch raw) r else (disconnected, r)

abbrev pub is_sequential : Mode → Bool
is_sequential sequential = true
is_sequential wallclock = false

abbrev pub state_key : Session → String → String
state_key ses user_id =
    concat (ses.cfg.user_state_key_prefix ∷ ":" ∷ user_id ∷ ":" ∷ ses.schema ∷ [])

module _ {V X D : Type 0} (users : UserState.Redis D) (ses : Session) where
  -- Whether it raises is the first part.
  abbrev pub save_for : String → Sent → Stream V X D → Bool × Stream V X D
  save_for user_id call s =
      let saved = record s {
        users =
            save_user_state users (state_key ses user_id) ses.cfg.user_state_ttl s.user_state
              s.users;
      } in
      elim call [ answered ↦ (false, saved) | refused ↦ (true, s) | unanswered ↦ (true, saved) ]

  unfoldable pub save : Sent → Stream V X D → Bool × Stream V X D
  unfolding save_user_state
  save call s =
      if is_sequential ses.cfg.increment_mode
      then (elim (given_id ses.user_id) [
        | none ↦ (false, s)
        | some user_id ↦ save_for user_id call s
      ])
      else (false, s)

  module _ (t : Turn V) where
    abbrev pub saved_turn : Bool × Stream V X D → Exit × Stream V X D
    saved_turn (raised, s) = (if raised then failed else goes_on, s)

    -- After the loop over a batch: what it sent, and the raw items.
    unfoldable pub after_sending :
        List (Dict V) → List (Message V) × Exit → Stream V X D → Exit × Stream V X D
    unfolding retain save
    after_sending raw (sent, exit) s =
        let s' = record s { seq = s.seq + length sent; messages = s.messages ++ sent } in
        elim exit [
          | goes_on ↦ saved_turn (save t.saving s')
          | disconnected ↦
              let (exit', r) = retain ses t raw (length sent) s'.redis in
              (exit', record s' { redis = r })
          | finished ↦ (finished, s')
          | failed ↦ (failed, s')
        ]

abbrev pub next_turn : {A : Type 0} → (A → Exit × A) → Exit × A → Exit × A
next_turn loop (goes_on, s) = loop s
next_turn loop (exit, s) = (exit, s)

module _ {V X D : Type 0} (values : Values V) (users : UserState.Redis D) (ses : Session) where
  module _ (t : Turn V) where
    abbrev pub send_batch :
        (List (BatchItem V) × List (Dict V) × List String × Option ChaosMeta) × Stream V X D
        → Exit × Stream V X D
    send_batch ((batch, raw, said, m), s) =
        after_sending users ses t raw (send_all ses t said m batch s.seq) s

    abbrev pub send_updated :
        List (Dict V) → Stream V X D → Option (List (Dict V) × Dict ℤ) → Exit × Stream V X D
    send_updated raw s none = (failed, s)
    send_updated raw s (some (out, user_state)) =
        send_batch (after_chaos ses t (map object out) raw (record s { user_state = user_state }))

    unfoldable pub serve : List (Dict V) → Stream V X D → Exit × Stream V X D
    unfolding apply_stateful_user_batch send_all after_sending maybe_activate_burst
    serve raw s =
        let mode = ses.cfg.increment_mode in
        send_updated raw s
          (apply_stateful_user_batch values raw s.user_state ses.stateful_meta mode t.state_time)

    abbrev pub send_required : Delivery → Stream V X D → Exit × Stream V X D
    send_required delivered s =
        (finished, record s { messages = s.messages ++ cache_required ∷ [] })
    send_required gone s = (disconnected, s)
    send_required broken s = (failed, s)

    abbrev pub on_fetched : Fetched V → Stream V X D → Exit × Stream V X D
    on_fetched missing s = send_required t.cache_reply s
    on_fetched (items []) s = (goes_on, s)
    on_fetched (items (x ∷ raw)) s = serve (x ∷ raw) s

    unfoldable pub fetch_and_serve : ℕ → Stream V X D → Exit × Stream V X D
    unfolding fetch_batch serve
    fetch_and_serve n s =
        let (fetched, r) = fetch_batch ses t n s.redis in
        on_fetched fetched (record s { redis = r })

    abbrev pub after_consume : ℕ → Stream V X D → Bool × AdaptiveRateLimiter → Exit × Stream V X D
    after_consume n s (granted, limiter) =
        let s' = record s { limiter = some limiter } in
        if granted then fetch_and_serve n s' else (goes_on, s')

    abbrev pub under_limit : ℕ → Stream V X D → Option AdaptiveRateLimiter → Exit × Stream V X D
    under_limit n s none = fetch_and_serve n s
    under_limit n s (some limiter) = after_consume n s (consume t.clock n limiter)

    unfoldable pub turn : Stream V X D → Exit × Stream V X D
    unfolding fetch_and_serve consume
    turn s =
        if out_of_time ses.duration ses.start_time t.now || is_full ses.max_events s.seq
        then (finished, s)
        else under_limit (pop_size ses s.seq) s s.limiter

  -- The turns until the loop is left, or until there are no more answers.
  unfoldable pub turns : List (Turn V) → Stream V X D → Exit × Stream V X D
  unfolding turn
  turns [] s = (goes_on, s)
  turns (t ∷ rest) s = next_turn (turns rest) (turn t s)

module _ {V X D : Type 0} (users : UserState.Redis D) (ses : Session) where
  -- The handlers and `finally`; whether the last save raises is the first part.
  abbrev pub report_error : Delivery → Exit → Stream V X D → Stream V X D
  report_error delivered failed s = record s { messages = s.messages ++ unexpected ∷ [] }
  report_error reply exit s = s

  unfoldable pub close : Delivery → Sent → Exit × Stream V X D → Bool × Stream V X D
  unfolding save
  close reply saving (exit, s) = save users ses saving (report_error reply exit s)
