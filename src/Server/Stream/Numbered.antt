-- ===== src/Server/Stream/Numbered.antt =====
-- The numbers of the events that a stream sends.
use havoc_forge.Base.{
  ℕ, String, zero, suc, ◌+◌, ◌≤◌, false, Option, none, some, List, [], ◌∷◌, ◌++◌, map, length, ◌≡◌,
  refl, ap, ◌∙◌, arith, inl, inr, Bool-cases, if_both,
}
use mathlib.Core.List.{append-nil}
use havoc_forge.Base.Dict.{Dict}
use havoc_forge.Pregeneration.Worker.{Redis, Sent}
use havoc_forge.Server.RateLimiter.{AdaptiveRateLimiter, consume}
use havoc_forge.Server.UserState.{Values, apply_stateful_user_batch}
use havoc_forge.Base.Int.{ℤ}
use havoc_forge.Server.UserState as UserState
use havoc_forge.Server.Session.{
  StreamConfig, Request, Opening, Session, BatchItem, object, ChaosMeta, Message, event,
  cache_required, unexpected, Delivery, delivered, gone, broken, Turn, Stream, Exit, goes_on,
  finished, disconnected, failed, is_full, pop_size,
}
use havoc_forge.Server.Stream.{
  Fetched, items, missing, fetch_batch, after_chaos, deliver, send_all, send_updated, send_required,
  next_turn, save, after_sending, send_batch, serve, on_fetched, fetch_and_serve, under_limit, turn,
  turns, close, report_error,
}
use havoc_forge.Server.Stream.Endpoint.{session_of, open_stream, stream_schema}
use havoc_forge.Server.Stream.Keeps.{save_cases, after_chaos_cases}

abbrev pub from : ℕ → ℕ → List ℕ
from n zero = []
from n (suc k) = n ∷ from (suc n) k

from-append : (n k l m : ℕ) → m ≡ n + k → from n k ++ from m l ≡ from n (k + l)
from-append n zero l m h =
    let start : m ≡ n = omega (arith, h) in
    let more : 0 + l ≡ l = omega arith in rw (start, more) refl
from-append n (suc k) l m h =
    let more : suc k + l ≡ suc (k + l) = omega arith in
    rw more (ap (λ r. n ∷ r) (from-append (suc n) k l m (omega (arith, h))))

module _ {V : Type 0} where
  abbrev pub numbers : List (Message V) → List ℕ
  numbers [] = []
  numbers (event n x said m ∷ messages) = n ∷ numbers messages
  numbers (cache_required ∷ messages) = numbers messages
  numbers (unexpected ∷ messages) = numbers messages

  numbers-append : (a b : List (Message V)) → numbers (a ++ b) ≡ numbers a ++ numbers b
  numbers-append [] b = refl
  numbers-append (event n x said m ∷ a) b = ap (λ l. n ∷ l) (numbers-append a b)
  numbers-append (cache_required ∷ a) b = numbers-append a b
  numbers-append (unexpected ∷ a) b = numbers-append a b

abbrev pub Within : Option ℕ → ℕ → Type 0
Within none n = Unit
Within (some max_events) n = n ≤ max_events

-- The events are numbered from 0 on, without gaps, and are at most as many as asked for.
pub record IsNumbered {V : Type 0} (max_events : Option ℕ) (seq : ℕ) (messages : List (Message V))
    : Type 0 where
  pub in_order : numbers messages ≡ from 0 seq
  pub within : Within max_events seq

zero_Within : (o : Option ℕ) → Within o 0
zero_Within none = tt
zero_Within (some m) = omega arith

not_full : (o : Option ℕ) (n : ℕ) → is_full o n ≡ false → Within o (suc n)
not_full none n h = tt
not_full (some m) n h = ground arith

-- A run of events from a number on, within the limit.
pub record IsRun {V : Type 0} (o : Option ℕ) (seq : ℕ) (sent : List (Message V)) : Type 0 where
  pub run : numbers sent ≡ from seq (length sent)
  pub fits : Within o (seq + length sent)

empty-IsRun : {V : Type 0} (o : Option ℕ) (seq : ℕ) → Within o seq → IsRun {V = V} o seq []
empty-IsRun o seq h = record { run = refl; fits = rw (let e : seq + 0 ≡ seq = omega arith in e) h }

deliver-IsRun :
    {V : Type 0} (o : Option ℕ) (d : Delivery) (seq : ℕ) (x : BatchItem V) (said : List String)
    (m : Option ChaosMeta) (rest : List (Message V) × Exit)
    → Within o seq
    → IsRun o (suc seq) rest.0
    → IsRun o seq (deliver d (event seq x said m) rest).0
deliver-IsRun o delivered seq x said m rest h r = record {
  run = ap (λ l. seq ∷ l) r.run;
  fits = rw (let e : seq + suc (length rest.0) ≡ suc seq + length rest.0 = omega arith in e) r.fits;
}
deliver-IsRun o gone seq x said m rest h r = empty-IsRun o seq h
deliver-IsRun o broken seq x said m rest h r = empty-IsRun o seq h

module _ {V : Type 0} (ses : Session) (t : Turn V) (said : List String) (m : Option ChaosMeta) where
  send_all-IsRun :
      (batch : List (BatchItem V)) (seq : ℕ)
      → Within ses.max_events seq
      → IsRun ses.max_events seq (send_all ses t said m batch seq).0
  unfolding send_all
  send_all-IsRun [] seq h = empty-IsRun ses.max_events seq h
  send_all-IsRun (x ∷ batch) seq h = elim (Bool-cases (is_full ses.max_events seq)) [
    | inl e ↦ rw e (empty-IsRun ses.max_events seq h)
    | inr e ↦ rw e (
        deliver-IsRun ses.max_events (t.delivery seq) seq x said m
          (send_all ses t said m batch (suc seq)) h
          (send_all-IsRun batch (suc seq) (not_full ses.max_events seq e)))
  ]

module _ {V X D : Type 0} (values : Values V) (users : UserState.Redis D) (ses : Session) where
  -- What a part of a turn leaves, whatever its exit.
  abbrev Numbered : Stream V X D → Type 0
  Numbered s = IsNumbered ses.max_events s.seq s.messages

  add_sent :
      (s : Stream V X D) (sent : List (Message V))
      → IsRun ses.max_events s.seq sent
      → Numbered s
      → IsNumbered ses.max_events (s.seq + length sent) (s.messages ++ sent)
  add_sent s sent r h = record {
    in_order =
        numbers-append s.messages sent
        ∙ rw (h.in_order, r.run) (from-append 0 s.seq (length sent) s.seq (omega arith));
    within = r.fits;
  }

  save-Numbered : (call : Sent) (s : Stream V X D) → Numbered s → Numbered (save users ses call s).1
  save-Numbered call s h = save_cases users ses Numbered call s (λ d. h)

  module _ (t : Turn V) where
    after_sending-Numbered :
        (raw : List (Dict V)) (sent : List (Message V) × Exit) (s : Stream V X D)
        → IsRun ses.max_events s.seq sent.0
        → Numbered s
        → Numbered (after_sending users ses t raw sent s).1
    unfolding after_sending
    after_sending-Numbered raw (sent, goes_on) s r h =
        save-Numbered t.saving
          (record s { seq = s.seq + length sent; messages = s.messages ++ sent })
          (add_sent s sent r h)
    after_sending-Numbered raw (sent, finished) s r h = add_sent s sent r h
    after_sending-Numbered raw (sent, disconnected) s r h = add_sent s sent r h
    after_sending-Numbered raw (sent, failed) s r h = add_sent s sent r h

    send_batch-Numbered :
        (report : List (BatchItem V) × List (Dict V) × List String × Option ChaosMeta)
        (s : Stream V X D)
        → Numbered s
        → Numbered (send_batch values users ses t (report, s)).1
    send_batch-Numbered (batch, raw, said, m) s h =
        after_sending-Numbered raw (send_all ses t said m batch s.seq) s
          (send_all-IsRun ses t said m batch s.seq h.within) h

    send_updated-Numbered :
        (raw : List (Dict V)) (s : Stream V X D) (o : Option (List (Dict V) × Dict ℤ))
        → Numbered s
        → Numbered (send_updated values users ses t raw s o).1
    send_updated-Numbered raw s none h = h
    send_updated-Numbered raw s (some (out, user_state)) h =
        let chaos = after_chaos ses t (map object out) raw (record s { user_state = user_state }) in
        send_batch-Numbered chaos.0 chaos.1 (
          after_chaos_cases users ses Numbered t (map object out) raw
            (record s { user_state = user_state }) (λ l. h))

    send_required-Numbered :
        (d : Delivery) (s : Stream V X D)
        → Numbered s
        → Numbered (send_required values users ses t d s).1
    send_required-Numbered delivered s h = record {
      in_order = numbers-append s.messages (cache_required ∷ []) ∙ append-nil _ ∙ h.in_order;
      within = h.within;
    }
    send_required-Numbered gone s h = h
    send_required-Numbered broken s h = h

    on_fetched-Numbered :
        (f : Fetched V) (s : Stream V X D)
        → Numbered s
        → Numbered (on_fetched values users ses t f s).1
    unfolding serve
    on_fetched-Numbered missing s h = send_required-Numbered t.cache_reply s h
    on_fetched-Numbered (items []) s h = h
    on_fetched-Numbered (items (x ∷ raw)) s h = send_updated-Numbered (x ∷ raw) s _ h

    fetch_and_serve-Numbered :
        (n : ℕ) (s : Stream V X D)
        → Numbered s
        → Numbered (fetch_and_serve values users ses t n s).1
    unfolding fetch_and_serve
    fetch_and_serve-Numbered n s h =
        let (fetched, r) = fetch_batch ses t n s.redis in
        on_fetched-Numbered fetched (record s { redis = r }) h

    under_limit-Numbered :
        (n : ℕ) (s : Stream V X D) (o : Option AdaptiveRateLimiter)
        → Numbered s
        → Numbered (under_limit values users ses t n s o).1
    under_limit-Numbered n s none h = fetch_and_serve-Numbered n s h
    under_limit-Numbered n s (some limiter) h =
        let (granted, l) = consume t.clock n limiter in
        let s' = record s { limiter = some l } in
        if_both (λ (r : Exit × Stream V X D). Numbered r.1) granted
          (fetch_and_serve-Numbered n s' h) h

    turn-Numbered : (s : Stream V X D) → Numbered s → Numbered (turn values users ses t s).1
    unfolding turn
    turn-Numbered s h =
        if_both (λ (r : Exit × Stream V X D). Numbered r.1) _ h
          (under_limit-Numbered (pop_size ses s.seq) s s.limiter h)

  next_turn-Numbered :
      (f : Stream V X D → Exit × Stream V X D) (r : Exit × Stream V X D)
      → ((s : Stream V X D) → Numbered s → Numbered (f s).1)
      → Numbered r.1
      → Numbered (next_turn f r).1
  next_turn-Numbered f (goes_on, s) hf h = hf s h
  next_turn-Numbered f (finished, s) hf h = h
  next_turn-Numbered f (disconnected, s) hf h = h
  next_turn-Numbered f (failed, s) hf h = h

  turns-Numbered :
      (ts : List (Turn V)) (s : Stream V X D)
      → Numbered s
      → Numbered (turns values users ses ts s).1
  unfolding turns
  turns-Numbered [] s h = h
  turns-Numbered (t ∷ ts) s h =
      next_turn-Numbered (turns values users ses ts) (turn values users ses t s) (turns-Numbered ts)
        (turn-Numbered t s h)

  report_error-Numbered :
      (reply : Delivery) (exit : Exit) (s : Stream V X D)
      → Numbered s
      → Numbered (report_error users ses reply exit s)
  report_error-Numbered delivered failed s h = record {
    in_order = numbers-append s.messages (unexpected ∷ []) ∙ append-nil _ ∙ h.in_order;
    within = h.within;
  }
  report_error-Numbered delivered goes_on s h = h
  report_error-Numbered delivered finished s h = h
  report_error-Numbered delivered disconnected s h = h
  report_error-Numbered gone exit s h = h
  report_error-Numbered broken exit s h = h

  close-IsNumbered :
      (ts : List (Turn V)) (reply : Delivery) (saving : Sent) (s : Stream V X D)
      → s.seq ≡ 0
      → s.messages ≡ []
      → let s' = (close users ses reply saving (turns values users ses ts s)).1 in
        IsNumbered ses.max_events s'.seq s'.messages
  unfolding close
  close-IsNumbered ts reply saving s start none_sent =
      let first : Numbered s =
        rw (start, none_sent) (record { in_order = refl; within = zero_Within ses.max_events }) in
      let (exit, after) = turns values users ses ts s in
      let after-Numbered : Numbered after = turns-Numbered ts s first in
      save-Numbered saving (report_error users ses reply exit after)
        (report_error-Numbered reply exit after after-Numbered)

-- Whatever is asked of the endpoint and whatever the outside answers in the turns of its loop, the
-- events that a stream has sent are numbered from 0 on in the order in which they were sent, without
-- gaps or repeats, `seq` counts them, and they are at most `max_events` where that is given.
pub stream_schema-IsNumbered :
    {V X D : Type 0} (values : Values V) (users : UserState.Redis D) (cfg : StreamConfig)
    (schema : String) (req : Request) (o : Opening) (ts : List (Turn V)) (reply : Delivery)
    (saving : Sent) (redis : Redis (Dict V) X) (db : D)
    → let s = (stream_schema values users cfg schema req o ts reply saving redis db).1 in
      IsNumbered req.max_events s.seq s.messages
unfolding stream_schema session_of open_stream
stream_schema-IsNumbered values users cfg schema req o ts reply saving redis db =
    let ses = session_of cfg schema req o in
    close-IsNumbered values users ses ts reply saving (open_stream users ses o redis db) refl refl
