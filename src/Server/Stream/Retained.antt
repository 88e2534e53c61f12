-- ===== src/Server/Stream/Retained.antt =====
-- What becomes of the items of a batch when the client goes while it is sent.
use havoc_forge.Base.{
  ℕ, sym, ◌+◌, ◌≤◌, Bool, true, false, Option, none, some, List, [], ◌∷◌, ◌++◌, map, length,
  length-map, take, drop, ◌≡◌, ◌≢◌, refl, ap, ◌∙◌, arith, if_both, if◌then◌else◌, eq_refl,
}
use mathlib.Core.List.{reverse}
use havoc_forge.Base.Int.{ℤ}
use havoc_forge.Base.Dict.{Dict, get-set}
use havoc_forge.Pregeneration.Worker.{Redis, answered, queue_key}
use havoc_forge.Pregeneration.Cache.{stream_pop, lpop}
use havoc_forge.Pregeneration.Cache.Full.{counted_off-lists}
use havoc_forge.Server.RateLimiter.{AdaptiveRateLimiter, consume}
use havoc_forge.Server.UserState.{
  Values, Meta, Mode, elapsed_of, FieldMeta, apply_items, apply_fields, apply_stateful_user_batch,
}
use havoc_forge.Server.UserState as UserState
use havoc_forge.Server.Session.{
  Session, BatchItem, object, Message, Delivery, delivered, gone, broken, popped, Turn, Stream,
  Exit, goes_on, finished, disconnected, failed, pop_size,
}
use havoc_forge.Server.Stream.{
  Fetched, items, or_fall_back, when_empty, pop_batch, fetch_batch, send_all, save, saved_turn,
  after_sending, send_updated, serve, send_required, on_fetched, fetch_and_serve, under_limit,
  after_consume, turn,
}
use havoc_forge.Server.Stream.Keeps.{without_chaos}
use havoc_forge.Server.Stream.PutBack.{
  length-put_back, OfLength, length-apply_stateful, stored, PutBack, retain-PutBack,
  length-send_all,
}
use havoc_forge.Server.Stream.Events.{append_nil, events_of, send_all-Begins, updated_by, no_items}

module _ {V X D : Type 0} (values : Values V) (ses : Session) (t : Turn V) where
  -- What a client that goes in the middle of a batch leaves behind: the messages of the batch's first
  -- items, with the values of the user's state and numbered on; the other items at the front of the
  -- queue with their order reversed; as many items in all as before; and the counters as after the
  -- pop.
  pub record IsInterrupted (n : ℕ) (s s' : Stream V X D) : Type 0 where
    pub sent : ℕ
    pub shown_items : List (Dict V)
    pub state : Dict ℤ
    pub updated :
        updated_by values ses t (take n (stored ses s.redis)) s.user_state
        ≡ some (shown_items, state)
    pub messages_are :
        s'.messages ≡ s.messages ++ events_of [] none s.seq (take sent (map object shown_items))
    pub seq_is : s'.seq ≡ s.seq + sent
    pub in_queue :
        stored ses s'.redis
        ≡ reverse (drop sent (take n (stored ses s.redis))) ++ drop n (stored ses s.redis)
    pub none_lost : sent + length (stored ses s'.redis) ≡ length (stored ses s.redis)
    pub counters :
        s'.redis.counters ≡ (stream_pop ses.cfg.pregen ses.schema n t.nudge s.redis).1.counters

module _ {V X D : Type 0} (values : Values V) (users : UserState.Redis D) (ses : Session)
    (t : Turn V) (retention : ses.cfg.batch_retention ≡ true) (answers : t.push_back ≡ answered)
    (plain : ses.cfg.apply_chaos ≡ false) where
  -- A number of items of a batch were sent, and the others put back.
  record IsReturned (raw : List (Dict V)) (s s' : Stream V X D) : Type 0 where
    sent : ℕ
    shown_items : List (Dict V)
    state : Dict ℤ
    updated : updated_by values ses t raw s.user_state ≡ some (shown_items, state)
    messages_are :
        s'.messages ≡ s.messages ++ events_of [] none s.seq (take sent (map object shown_items))
    sent_le : sent ≤ length raw
    seq_is : s'.seq ≡ s.seq + sent
    put_back : PutBack ses raw sent s.redis s'.redis

  -- The messages went out, and the items after as many were put back.
  record IsPut (raw : List (Dict V)) (sent : List (Message V)) (s s' : Stream V X D) : Type 0 where
    messages_are : s'.messages ≡ s.messages ++ sent
    seq_is : s'.seq ≡ s.seq + length sent
    put_back : PutBack ses raw (length sent) s.redis s'.redis

  -- What holds of a part of a turn that ends with a client that has gone.
  abbrev IfGone : List (Dict V) → Stream V X D → Exit × Stream V X D → Type 0
  IfGone raw s after = after.0 ≡ disconnected → IsReturned raw s after.1

  saved-goes_on : (r : Bool × Stream V X D) → (saved_turn users ses t r).0 ≢ disconnected
  saved-goes_on (true, s) e = cc
  saved-goes_on (false, s) e = cc

  after_sending-IsPut :
      (raw : List (Dict V)) (sent : List (Message V) × Exit) (s : Stream V X D)
      → (after_sending users ses t raw sent s).0 ≡ disconnected
      → IsPut raw sent.0 s (after_sending users ses t raw sent s).1
  unfolding after_sending
  after_sending-IsPut raw (sent, goes_on) s e =
      let s' = record s { seq = s.seq + length sent; messages = s.messages ++ sent } in
      absurd (saved-goes_on (save users ses t.saving s') e)
  after_sending-IsPut raw (sent, finished) s e = cc
  after_sending-IsPut raw (sent, disconnected) s e = record {
    messages_are = refl;
    seq_is = refl;
    put_back = retain-PutBack ses t answers raw (length sent) s.redis retention;
  }
  after_sending-IsPut raw (sent, failed) s e = cc

  send_updated-IfGone :
      (raw : List (Dict V)) (s : Stream V X D) (o : Option (List (Dict V) × Dict ℤ))
      → updated_by values ses t raw s.user_state ≡ o
      → OfLength (length raw) o
      → IfGone raw s (send_updated values users ses t raw s o)
  send_updated-IfGone raw s none is h = λ e. cc
  send_updated-IfGone raw s (some (out, user_state)) is h =
      let batch : List (BatchItem V) = map object out in
      let s' = record s { user_state = user_state } in
      let sent = send_all ses t [] none batch s.seq in
      let few = length-send_all ses t [] none batch s.seq in
      let all_of : length batch ≡ length out = length-map out object in
      rw (without_chaos ses t plain batch raw s') (λ e.
        let r = after_sending-IsPut raw sent s' e in
        record {
          sent = length sent.0;
          shown_items = out;
          state = user_state;
          updated = is;
          messages_are =
              r.messages_are
              ∙ ap (λ l. s.messages ++ l) (send_all-Begins ses t [] none batch s.seq);
          sent_le = omega (arith, few, all_of, h);
          seq_is = r.seq_is;
          put_back = record { in_queue = r.put_back.in_queue; counters = r.put_back.counters };
        })

  send_required-IfGone :
      (d : Delivery) (s : Stream V X D) → IfGone [] s (send_required values users ses t d s)
  send_required-IfGone delivered s e = cc
  send_required-IfGone gone s e = record {
    sent = 0;
    shown_items = [];
    state = s.user_state;
    updated = no_items values ses t s.user_state ses.stateful_meta;
    messages_are = sym (append_nil s.messages);
    sent_le = omega arith;
    seq_is = omega arith;
    put_back = record { in_queue = refl; counters = refl };
  }
  send_required-IfGone broken s e = cc

  module _ (no_fallback : ses.cfg.fallback_to_live ≡ false) where
    unless_live-IfGone :
        (b : Bool) (live : Fetched V) (s : Stream V X D)
        → b ≡ false
        → IfGone [] s (on_fetched values users ses t (if b then live else items []) s)
    unless_live-IfGone true live s h = cc
    unless_live-IfGone false live s h = λ e. cc

    when_empty-IfGone :
        (n : ℕ) (s : Stream V X D)
        → IfGone [] s (on_fetched values users ses t (when_empty ses t n) s)
    when_empty-IfGone n s =
        if_both (λ f. IfGone [] s (on_fetched values users ses t f s)) ses.cfg.require_cache
          (send_required-IfGone t.cache_reply s)
          (unless_live-IfGone ses.cfg.fallback_to_live _ s no_fallback)

    fetched-IfGone :
        (n : ℕ) (raw : List (Dict V)) (s : Stream V X D)
        → IfGone raw s (on_fetched values users ses t (or_fall_back ses t n raw) s)
    unfolding serve
    fetched-IfGone n [] s = when_empty-IfGone n s
    fetched-IfGone n (x ∷ raw) s =
        send_updated-IfGone (x ∷ raw) s
          (apply_stateful_user_batch values (x ∷ raw) s.user_state ses.stateful_meta
            ses.cfg.increment_mode t.state_time)
          refl
          (length-apply_stateful values (x ∷ raw) s.user_state ses.stateful_meta
            ses.cfg.increment_mode t.state_time)

    module _ (pregen : ses.cfg.pregen_enabled ≡ true) (pops : t.popping ≡ popped) where
      popped_queue :
          (n : ℕ) (r : Redis (Dict V) X)
          → stored ses (stream_pop ses.cfg.pregen ses.schema n t.nudge r).1 ≡ drop n (stored ses r)
      unfolding stream_pop lpop
      popped_queue n r =
          let key = queue_key ses.cfg.pregen ses.schema in
          let (raw, r') = lpop key n r in
          rw
            (counted_off-lists ses.cfg.pregen ses.schema ses.cfg.pregen.global_max_items raw t.nudge
              r')
            (rw get-set (rw (eq_refl key) refl))

      pop_is :
          (n : ℕ) (r : Redis (Dict V) X)
          → pop_batch ses t n r ≡ stream_pop ses.cfg.pregen ses.schema n t.nudge r
      pop_is n r = rw pops refl

      fetched_is :
          (n : ℕ) (r : Redis (Dict V) X)
          → let p = stream_pop ses.cfg.pregen ses.schema n t.nudge r in
            fetch_batch ses t n r ≡ (or_fall_back ses t n p.0, p.1)
      unfolding fetch_batch
      fetched_is n r = simp (pregen, pop_is n r)

      fetch_and_serve-IsInterrupted :
          (n : ℕ) (s : Stream V X D)
          → (fetch_and_serve values users ses t n s).0 ≡ disconnected
          → IsInterrupted values ses t n s (fetch_and_serve values users ses t n s).1
      unfolding fetch_and_serve stream_pop lpop
      fetch_and_serve-IsInterrupted n s =
          let p = stream_pop ses.cfg.pregen ses.schema n t.nudge s.redis in
          let q = stored ses s.redis in
          rw (fetched_is n s.redis) (λ e.
            let r = fetched-IfGone n p.0 (record s { redis = p.1 }) e in
            let in_queue =
              r.put_back.in_queue
              ∙ ap (λ rest. reverse (drop r.sent (take n q)) ++ rest) (popped_queue n s.redis) in
            record {
              sent = r.sent;
              shown_items = r.shown_items;
              state = r.state;
              updated = r.updated;
              messages_are = r.messages_are;
              seq_is = r.seq_is;
              in_queue = in_queue;
              none_lost =
                  ap (λ l. r.sent + length l) in_queue ∙ length-put_back r.sent n q r.sent_le;
              counters = r.put_back.counters;
            })

      after_consume-IsInterrupted :
          (n : ℕ) (s : Stream V X D) (c : Bool × AdaptiveRateLimiter)
          → (after_consume values users ses t n s c).0 ≡ disconnected
          → IsInterrupted values ses t n s (after_consume values users ses t n s c).1
      after_consume-IsInterrupted n s (true, l) e =
          let r = fetch_and_serve-IsInterrupted n (record s { limiter = some l }) e in
          record {
            sent = r.sent;
            shown_items = r.shown_items;
            state = r.state;
            updated = r.updated;
            messages_are = r.messages_are;
            seq_is = r.seq_is;
            in_queue = r.in_queue;
            none_lost = r.none_lost;
            counters = r.counters;
          }
      after_consume-IsInterrupted n s (false, l) e = cc

      under_limit-IsInterrupted :
          (n : ℕ) (s : Stream V X D) (o : Option AdaptiveRateLimiter)
          → (under_limit values users ses t n s o).0 ≡ disconnected
          → IsInterrupted values ses t n s (under_limit values users ses t n s o).1
      under_limit-IsInterrupted n s none = fetch_and_serve-IsInterrupted n s
      under_limit-IsInterrupted n s (some l) = after_consume-IsInterrupted n s (consume t.clock n l)

      -- With retention, a pre-generated queue and neither chaos nor live batches: when the client goes
      -- in a turn whose pop and push come through, the messages of the first items of the batch were
      -- sent, with the values of the user's state and the next numbers, the items after them stand at
      -- the front of the queue in reversed order, what was sent and what is queued are as many as were
      -- queued before, and the counters are those after the pop, so that the items put back are not
      -- counted again.
      pub turn-IsInterrupted :
          (s : Stream V X D)
          → (turn values users ses t s).0 ≡ disconnected
          → IsInterrupted values ses t (pop_size ses s.seq) s (turn values users ses t s).1
      unfolding turn
      turn-IsInterrupted s =
          if_both
            (λ (r : Exit × Stream V X D).
              r.0 ≡ disconnected → IsInterrupted values ses t (pop_size ses s.seq) s r.1)
            _ (λ (e : finished ≡ disconnected). cc)
            (under_limit-IsInterrupted (pop_size ses s.seq) s s.limiter)
