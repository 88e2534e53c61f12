-- ===== src/Server/Stream/Delivered.antt =====
-- A live stream to which nothing bad happens sends what it was asked for.
use havoc_forge.Base.{
  ℕ, zero, suc, ◌+◌, ◌-◌, ◌≤◌, ◌<◌, min, String, true, false, Option, none, some, List, [], ◌∷◌,
  ◌++◌, map, length, length-append, length-map, ◌≡◌, refl, sym, ap, ◌∙◌, ◌||◌, arith, inl, inr,
  Bool-cases, Option-cases, ltb, ltb→lt,
}
use mathlib.Core.Path.{subst}
use havoc_forge.Base.Int.{ℤ, ◌+ℤ◌}
use havoc_forge.Base.Dict
use havoc_forge.Base.Dict.{Dict}
use havoc_forge.Base.Find.{All}
use havoc_forge.Pregeneration.Worker.{Redis, Sent, answered, refused, unanswered}
use havoc_forge.Server.RateLimiter.{AdaptiveRateLimiter}
use havoc_forge.Server.UserState.{
  Values, Meta, sequential, FieldMeta, last_value, shown, apply_items, apply_fields,
  apply_stateful_user_batch,
}
use havoc_forge.Server.UserState as UserState
use havoc_forge.Server.Session.{
  Session, given_id, disconnected, failed, BatchItem, object, ChaosMeta, Message, delivered, Turn,
  Stream, Exit, goes_on, finished, is_full, out_of_time, pop_size, generate_items,
}
use havoc_forge.Server.Stream.{
  items, is_sequential, save_for, saved_turn, fetch_batch, send_all, save, after_sending, serve,
  on_fetched, fetch_and_serve, under_limit, next_turn, turn, turns,
}
use havoc_forge.Server.Stream.Keeps.{without_chaos}
use havoc_forge.Server.Stream.PutBack.{OfLength, length-apply_stateful}

-- A turn in which every call succeeds.
pub record IsFine {V : Type 0} (t : Turn V) : Type 0 where
  pub generates : (k : ℕ) → (item : Dict V) × (t.generate k ≡ some item)
  pub delivers : (seq : ℕ) → t.delivery seq ≡ delivered
  pub saves : t.saving ≡ answered

-- A field that can show every value, as one that holds numbers can.
abbrev pub CanShow : {V : Type 0} → Values V → FieldMeta → Type 0
CanShow {V} values f = (v : ℤ) → (x : V) × (shown values f v ≡ some x)

-- What a stream asks for that is live and not limited but in its number of events.
pub record IsLive {V : Type 0} (values : Values V) (ses : Session) (max_events : ℕ) : Type 0 where
  pub limit : ses.max_events ≡ some max_events
  pub endless : ses.duration ≡ none
  pub some_items : 0 < ses.batch_size
  pub no_pregen : ses.cfg.pregen_enabled ≡ false
  pub no_chaos : ses.cfg.apply_chaos ≡ false
  pub in_sequence : ses.cfg.increment_mode ≡ sequential
  pub can_show : All (CanShow values) ses.stateful_meta.fields

generated :
    {A : Type 0} (gen : ℕ → Option A)
    → ((k : ℕ) → (a : A) × (gen k ≡ some a))
    → (n : ℕ) → (l : List A) × (generate_items gen n ≡ some l) × (length l ≡ n)
generated gen h zero = ([], refl, refl)
generated gen h (suc n) =
    let (l, is, long) = generated gen h n in
    let (a, made) = h n in
    (l ++ a ∷ [], rw (is, made) refl, omega (arith, length-append l (a ∷ []), long))

module _ {V : Type 0} (values : Values V) where
  fields_apply :
      (fields : List FieldMeta) (payload : Dict V) (state : Dict ℤ)
      → All (CanShow values) fields
      → (p : Dict V × Dict ℤ) × (apply_fields values none fields payload state ≡ some p)
  unfolding apply_fields
  fields_apply [] payload state can = ((payload, state), refl)
  fields_apply (f ∷ fields) payload state can =
      let v = last_value f state +ℤ f.increment in
      let (x, e) = can.0 v in
      let (p, is) =
        fields_apply fields (Dict.set payload f.field x) (Dict.set state f.field v) can.1 in
      (p, rw (apply_fields, e) is)

  items_apply :
      (fields : List FieldMeta) (raw : List (Dict V)) (state : Dict ℤ)
      → All (CanShow values) fields
      → (p : List (Dict V) × Dict ℤ) × (apply_items values none fields raw state ≡ some p)
  unfolding apply_items
  items_apply fields [] state can = (([], state), refl)
  items_apply fields (item ∷ raw) state can =
      let (p, is) = fields_apply fields item state can in
      let (q, is') = items_apply fields raw p.1 can in
      ((p.0 ∷ q.0, q.1), rw (apply_items, is, is') refl)

  state_applies :
      (fields : List FieldMeta) (started : Option ℤ) (raw : List (Dict V)) (state : Dict ℤ)
      (now : ℤ)
      → All (CanShow values) fields
      → let m : Meta = record { fields = fields; worker_start_time = started } in
        (p : List (Dict V) × Dict ℤ) × (apply_stateful_user_batch values raw state m sequential now
          ≡ some p)
        × (length p.0 ≡ length raw)
  unfolding apply_stateful_user_batch
  state_applies [] started raw state now can = ((raw, state), refl, refl)
  state_applies (f ∷ fields) started raw state now can =
      let m : Meta = record { fields = f ∷ fields; worker_start_time = started } in
      let (p, is) = items_apply (f ∷ fields) raw state can in
      (
        p,
        is,
        subst (OfLength (length raw)) is (length-apply_stateful values raw state m sequential now),
      )

module _ {V : Type 0} (ses : Session) (t : Turn V) (fine : IsFine t) (said : List String)
    (m : Option ChaosMeta) where
  -- A batch that fits is sent whole.
  all_sent :
      (max_events : ℕ) (batch : List (BatchItem V)) (seq : ℕ)
      → ses.max_events ≡ some max_events
      → seq + length batch ≤ max_events
      → let r = send_all ses t said m batch seq in (r.1 ≡ goes_on) × (length r.0 ≡ length batch)
  unfolding send_all
  all_sent max_events [] seq limit h = (refl, refl)
  all_sent max_events (x ∷ batch) seq limit h =
      let room : is_full ses.max_events seq ≡ false = rw limit (ground arith) in
      let (on, long) = all_sent max_events batch (suc seq) limit (omega (arith, h)) in
      rw (room, fine.delivers seq) (on, ap suc long)

module _ {V X D : Type 0} (users : UserState.Redis D) (ses : Session) where
  -- A part of a turn after which the loop goes on, with `k` more events sent.
  record Advances (k : ℕ) (s : Stream V X D) (after : Exit × Stream V X D) : Type 0 where
    on : after.0 ≡ goes_on
    seq_is : after.1.seq ≡ s.seq + k
    unlimited : after.1.limiter ≡ none
    told : length after.1.messages ≡ length s.messages + k

  module _ (t : Turn V) where
    save_for-Advances :
        (user_id : String) (call : Sent) (s : Stream V X D)
        → call ≡ answered
        → s.limiter ≡ none
        → Advances 0 s (saved_turn users ses t (save_for users ses user_id call s))
    save_for-Advances user_id answered s e free = record {
      on = refl;
      seq_is = omega arith;
      unlimited = free;
      told = omega arith;
    }
    save_for-Advances user_id refused s e free = cc
    save_for-Advances user_id unanswered s e free = cc

    save-Advances :
        (call : Sent) (s : Stream V X D)
        → call ≡ answered
        → s.limiter ≡ none
        → Advances 0 s (saved_turn users ses t (save users ses call s))
    unfolding save
    save-Advances call s a free =
        let unchanged : Advances 0 s (goes_on, s) = record {
          on = refl;
          seq_is = omega arith;
          unlimited = free;
          told = omega arith;
        } in
        elim (Bool-cases (is_sequential ses.cfg.increment_mode)) [
          | inr e ↦ rw (save, e) unchanged
          | inl e ↦ elim (Option-cases (given_id ses.user_id)) [
            | inl n ↦ rw (save, e, n) unchanged
            | inr (user_id, n) ↦ rw (save, e, n) (save_for-Advances user_id call s a free)
          ]
        ]

  module _ (t : Turn V) (fine : IsFine t) where
    sent-Advances :
        (raw : List (Dict V)) (sent : List (Message V) × Exit) (s : Stream V X D) (k : ℕ)
        → sent.1 ≡ goes_on
        → length sent.0 ≡ k
        → s.limiter ≡ none
        → Advances k s (after_sending users ses t raw sent s)
    unfolding after_sending
    sent-Advances raw (sent, goes_on) s k e long free =
        let s' = record s { seq = s.seq + length sent; messages = s.messages ++ sent } in
        let r = save-Advances t t.saving s' fine.saves free in
        record {
          on = r.on;
          seq_is = omega (arith, r.seq_is, long);
          unlimited = r.unlimited;
          told = omega (arith, r.told, length-append s.messages sent, long);
        }
    sent-Advances raw (sent, finished) s k e long free = cc
    sent-Advances raw (sent, disconnected) s k e long free = cc
    sent-Advances raw (sent, failed) s k e long free = cc

module _ {V X D : Type 0} (values : Values V) (users : UserState.Redis D) (ses : Session)
    (max_events : ℕ) (live : IsLive values ses max_events) where
  module _ (t : Turn V) (fine : IsFine t) where
    serve-Advances :
        (raw : List (Dict V)) (s : Stream V X D)
        → s.limiter ≡ none
        → s.seq + length raw ≤ max_events
        → Advances users ses (length raw) s (serve values users ses t raw s)
    unfolding serve
    serve-Advances raw s free h =
        let m = ses.stateful_meta in
        let (p, is, long) =
          state_applies values m.fields m.worker_start_time raw s.user_state t.state_time
            live.can_show in
        let is' =
          subst
            (λ mode. apply_stateful_user_batch values raw s.user_state m mode t.state_time ≡ some p)
            (sym live.in_sequence) is in
        let batch : List (BatchItem V) = map object p.0 in
        let s' = record s { user_state = p.1 } in
        let all_of : length batch ≡ length raw = length-map p.0 object ∙ long in
        let (on, whole) =
          all_sent ses t fine [] none max_events batch s.seq live.limit
            (omega (arith, h, all_of)) in
        rw is' (
          rw (without_chaos ses t live.no_chaos batch raw s') (
            let r =
              sent-Advances users ses t fine raw (send_all ses t [] none batch s.seq) s'
                (length raw) on (whole ∙ all_of) free in
            record { on = r.on; seq_is = r.seq_is; unlimited = r.unlimited; told = r.told }))

    fetched_live :
        (n : ℕ) (r : Redis (Dict V) X) (raw : List (Dict V))
        → generate_items t.generate n ≡ some raw
        → fetch_batch ses t n r ≡ (items raw, r)
    unfolding fetch_batch
    fetched_live n r raw is = simp (live.no_pregen, is)

    on_items-Advances :
        (raw : List (Dict V)) (s : Stream V X D)
        → 0 < length raw
        → s.limiter ≡ none
        → s.seq + length raw ≤ max_events
        → Advances users ses (length raw) s (on_fetched values users ses t (items raw) s)
    on_items-Advances [] s some_items free h = absurd (omega (arith, some_items))
    on_items-Advances (x ∷ raw) s some_items free h = serve-Advances (x ∷ raw) s free h

    under_limit-Advances :
        (n : ℕ) (s : Stream V X D) (o : Option AdaptiveRateLimiter)
        → o ≡ none
        → s.limiter ≡ none
        → 0 < n
        → s.seq + n ≤ max_events
        → Advances users ses n s (under_limit values users ses t n s o)
    unfolding fetch_and_serve
    under_limit-Advances n s none e free some_items h =
        let (raw, is, long) = generated t.generate fine.generates n in
        let r = on_items-Advances raw s (omega (arith, long)) free (omega (arith, long)) in
        rw (fetched_live n s.redis raw is) (record {
          on = r.on;
          seq_is = omega (arith, r.seq_is, long);
          unlimited = r.unlimited;
          told = omega (arith, r.told, long);
        })
    under_limit-Advances n s (some l) e free some_items h = cc

    turn-Advances :
        (s : Stream V X D)
        → s.limiter ≡ none
        → s.seq < max_events
        → Advances users ses (min ses.batch_size (max_events - s.seq)) s (turn values users ses t s)
    unfolding turn
    turn-Advances s free h =
        let enters : (out_of_time ses.duration ses.start_time t.now || is_full ses.max_events s.seq)
            ≡ false =
          simp (live.endless, live.limit) (ground arith) in
        let size : pop_size ses s.seq ≡ min ses.batch_size (max_events - s.seq) = simp live.limit in
        let n = min ses.batch_size (max_events - s.seq) in
        let some_items : 0 < n = omega (arith, live.some_items, h) in
        simp (enters, size)
          (under_limit-Advances n s s.limiter free free some_items (omega (arith, h)))

    turn_full : (s : Stream V X D) → s.seq ≡ max_events → turn values users ses t s ≡ (finished, s)
    unfolding turn
    turn_full s h =
        let over : (out_of_time ses.duration ses.start_time t.now || is_full ses.max_events s.seq)
            ≡ true =
          simp (live.endless, live.limit) (ground arith) in
        simp over

  -- The stream is over, all events were sent, and each of them is a message.
  abbrev IsDone : Stream V X D → Exit × Stream V X D → Type 0
  IsDone s r =
      (r.0 ≡ finished)
      × (r.1.seq ≡ max_events)
      × (length r.1.messages + s.seq ≡ length s.messages + max_events)

  next_turn-finishes :
      (f : Stream V X D → Exit × Stream V X D) (k : ℕ) (s : Stream V X D)
      (after : Exit × Stream V X D)
      → Advances users ses k s after
      → ((s' : Stream V X D) → s'.limiter ≡ none → s'.seq ≡ s.seq + k → IsDone s' (f s'))
      → IsDone s (next_turn f after)
  next_turn-finishes f k s (goes_on, s') a rest =
      let (ended, all, told) = rest s' a.unlimited a.seq_is in
      (ended, all, omega (arith, told, a.told, a.seq_is))
  next_turn-finishes f k s (finished, s') a rest = absurd (let e : finished ≡ goes_on = a.on in cc)
  next_turn-finishes f k s (disconnected, s') a rest =
      absurd (let e : disconnected ≡ goes_on = a.on in cc)
  next_turn-finishes f k s (failed, s') a rest = absurd (let e : failed ≡ goes_on = a.on in cc)

  -- A live stream of batches of at least one item, in sequential mode and with fields that can show
  -- every value, without a rate limiter, a time limit or chaos, whose turns all succeed, ends after at
  -- most as many turns as events are asked for and one more: the events counted are then that many,
  -- and as many messages as were missing have been sent.
  pub turns-deliver :
      (ts : List (Turn V)) (s : Stream V X D)
      → All IsFine ts
      → s.limiter ≡ none
      → s.seq ≤ max_events
      → max_events - s.seq < length ts
      → ((turns values users ses ts s).0 ≡ finished)
        × ((turns values users ses ts s).1.seq ≡ max_events)
        × (length (turns values users ses ts s).1.messages + s.seq ≡ length s.messages + max_events)
  unfolding turns
  turns-deliver [] s fine free within enough = absurd (omega (arith, enough))
  turns-deliver (t ∷ ts) s fine free within enough = elim (Bool-cases (ltb s.seq max_events)) [
    | inl more ↦
        let k = min ses.batch_size (max_events - s.seq) in
        let less : s.seq < max_events = ltb→lt s.seq max_events more in
        next_turn-finishes (turns values users ses ts) k s (turn values users ses t s)
          (turn-Advances t fine.0 s free less)
          (λ s' free' e.
            turns-deliver ts s' fine.1 free' (omega (arith, e, less))
              (omega (arith, e, less, enough, live.some_items)))
    | inr over ↦
        let is : s.seq ≡ max_events = ground arith in
        rw (turn_full t fine.0 s is) (refl, is, omega (arith, is))
  ]
