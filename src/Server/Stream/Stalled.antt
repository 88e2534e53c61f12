-- ===== src/Server/Stream/Stalled.antt =====
-- A stream that asks its rate limiter for more than the limiter ever grants.
use havoc_forge.Base.{
  ℕ, ◌<◌, true, false, Option, some, List, [], ◌∷◌, ◌≡◌, refl, sym, ap, ◌∙◌, ◌⊎◌, ◌||◌, Bool-cases,
  inl, inr,
}
use havoc_forge.Server.RateLimiter.{AdaptiveRateLimiter, new_limiter, refill}
use mathlib.Core.Path.{subst}
use havoc_forge.Server.RateLimiter.Bounds.{consume_short}
use havoc_forge.Server.UserState.{Values}
use havoc_forge.Server.UserState as UserState
use havoc_forge.Server.Session.{
  Session, build_rate_limiter, effective_rate, Turn, Stream, Exit, goes_on, finished, disconnected,
  failed, pop_size, out_of_time, is_full,
}
use havoc_forge.Server.Stream.{turn, turns, next_turn}

-- No burst is on, and the rate is below the size of the next batch.
pub record IsShort (ses : Session) (seq : ℕ) (r : AdaptiveRateLimiter) : Type 0 where
  pub no_burst : r.burst_active ≡ false
  pub short : r.current_rate < pop_size ses seq

module _ {V X D : Type 0} (values : Values V) (users : UserState.Redis D) (ses : Session) where
  -- The same stream, but for its limiter, which is still short.
  pub record Waits (s : Stream V X D) (after : Exit × Stream V X D) : Type 0 where
    pub limiter : AdaptiveRateLimiter
    pub is_short : IsShort ses s.seq limiter
    pub idle : (after.0 ≡ goes_on) ⊎ (after.0 ≡ finished)
    pub same : after.1 ≡ record s { limiter = some limiter }

  turn-Waits :
      (t : Turn V) (s : Stream V X D) (r : AdaptiveRateLimiter)
      → s.limiter ≡ some r
      → IsShort ses s.seq r
      → Waits s (turn values users ses t s)
  unfolding turn refill
  turn-Waits t s r e h =
      elim (Bool-cases
        (out_of_time ses.duration ses.start_time t.now || is_full ses.max_events s.seq)) [
          | inl over ↦ rw over (record {
            limiter = r;
            is_short = h;
            same = ap (λ l. record s { limiter = l }) e;
            idle = inr refl;
          })
          | inr more ↦
              rw (more, e, consume_short t.clock (pop_size ses s.seq) r h.no_burst h.short)
                (record {
                  limiter = refill t.clock.refilled r;
                  is_short = record { no_burst = h.no_burst; short = h.short };
                  same = refl;
                  idle = inl refl;
                })
        ]

  Waits-trans :
      (s s' : Stream V X D) (r : AdaptiveRateLimiter) (after : Exit × Stream V X D)
      → s' ≡ record s { limiter = some r }
      → Waits s' after
      → Waits s after
  Waits-trans s s' r after e w =
      let w' : Waits (record s { limiter = some r }) after =
        subst (λ (x : Stream V X D). Waits x after) e w in
      record { limiter = w'.limiter; is_short = w'.is_short; idle = w'.idle; same = w'.same }

  next_turn-Waits :
      (f : Stream V X D → Exit × Stream V X D) (s : Stream V X D) (after : Exit × Stream V X D)
      → ((s' : Stream V X D) (r : AdaptiveRateLimiter)
          → s'.limiter ≡ some r
          → IsShort ses s'.seq r
          → Waits s' (f s'))
      → Waits s after
      → Waits s (next_turn f after)
  next_turn-Waits f s (goes_on, s') hf w = Waits-trans s s' w.limiter (f s') w.same (
      hf s' w.limiter (ap (λ (x : Stream V X D). x.limiter) w.same) (
        subst (λ n. IsShort ses n w.limiter) (sym (ap (λ (x : Stream V X D). x.seq) w.same))
          w.is_short))
  next_turn-Waits f s (finished, s') hf w = w
  next_turn-Waits f s (disconnected, s') hf w = w
  next_turn-Waits f s (failed, s') hf w = w

  turns-Waits :
      (ts : List (Turn V)) (s : Stream V X D) (r : AdaptiveRateLimiter)
      → s.limiter ≡ some r
      → IsShort ses s.seq r
      → Waits s (turns values users ses ts s)
  unfolding turns
  turns-Waits [] s r e h = record {
    limiter = r;
    is_short = h;
    idle = inl refl;
    same = ap (λ l. record s { limiter = l }) e;
  }
  turns-Waits (t ∷ ts) s r e h =
      next_turn-Waits (turns values users ses ts) s (turn values users ses t s) (turns-Waits ts)
        (turn-Waits t s r e h)

  -- Where rate limiting is on and the rate that the limiter is made with is below the size of the
  -- next batch, all turns, however many and whatever the outside answers in them, leave the stream as
  -- it is but for its limiter: no message is sent, nothing is taken from the queue, and the loop does
  -- not end but by its own limits.
  pub turns-IsStalled :
      (worker_rate : Option ℕ) (started : ℕ) (ts : List (Turn V)) (s : Stream V X D)
      → s.limiter ≡ build_rate_limiter ses.cfg worker_rate started
      → ses.cfg.rate_limit_enabled ≡ true
      → effective_rate ses.cfg worker_rate < pop_size ses s.seq
      → Waits s (turns values users ses ts s)
  unfolding build_rate_limiter
  turns-IsStalled worker_rate started ts s e limited low =
      let r =
        new_limiter (effective_rate ses.cfg worker_rate) false ses.cfg.auto_detect_sample_size
          started in
      turns-Waits ts s r (e ∙ rw (build_rate_limiter, limited) refl)
        (record { no_burst = refl; short = low })
