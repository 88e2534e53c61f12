-- ===== src/Server/Session.antt =====
-- server/routers/streaming/handler.py: the configuration of a stream, what the outside answers in a
-- turn of its loop, what it sends, and the helpers that are called before the loop. Durations are
-- whole seconds, readings of the clock microseconds.
use havoc_forge.Base.{
  ℕ, zero, suc, ◌+◌, ◌-◌, ◌*◌, ◌/◌, String, Bool, false, ◌&&◌, not, Option, none, some, List, [],
  ◌∷◌, ◌++◌, ◌==◌, ltb, leb, eqb, min, if◌then◌else◌,
}
use havoc_forge.Base.Dict.{Dict}
use havoc_forge.Base.Int.{ℤ}
use mathlib.Core.Option.{get_or}
use havoc_forge.Pregeneration.Worker.{PregenConfig, Redis, Sent}
use havoc_forge.Pregeneration.Cache.{Nudge}
use havoc_forge.Server.RateLimiter.{AdaptiveRateLimiter, Clock, new_limiter, million}
use havoc_forge.Server.UserState.{Meta, Mode}

-- `_load_stream_config`: what the loop and the helpers read of it.
pub record StreamConfig : Type 0 where
  pub batch_pop_size : ℕ
  pub pregen_enabled : Bool
  pub require_cache : Bool
  pub fallback_to_live : Bool
  pub apply_chaos : Bool
  pub batch_retention : Bool
  pub increment_mode : Mode
  pub rate_limit_enabled : Bool
  pub base_rate : ℕ
  pub auto_detect_rate : Bool
  pub auto_detect_sample_size : ℕ
  pub user_state_key_prefix : String
  pub user_state_ttl : ℕ
  pub pregen : PregenConfig

-- What stays the same while the loop runs.
pub record Session : Type 0 where
  pub cfg : StreamConfig
  pub schema : String
  pub batch_size : ℕ
  pub duration : Option ℕ
  pub max_events : Option ℕ
  pub user_id : Option String
  pub forced : List String
  pub stateful_meta : Meta
  pub start_time : ℕ

-- A batch holds objects, or texts where a chaos op encoded one.
pub data BatchItem (V : Type 0) : Type 0 where
  object : Dict V → BatchItem V
  text : String → BatchItem V

pub record ChaosMeta : Type 0 where
  pub burst_active : Bool
  pub burst_rate : Option ℕ
  pub burst_duration : Option ℕ
  pub required_cache_items : Option ℕ

-- What goes over the socket after the start message.
pub data Message (V : Type 0) : Type 0 where
  event : ℕ → BatchItem V → List String → Option ChaosMeta → Message V
  cache_required : Message V
  unexpected : Message V

-- A call of `send_text`: it may find that the client has gone, or raise otherwise.
pub data Delivery : Type 0 where
  delivered gone broken : Delivery

-- `LPOP` and the decoding of what it gives.
pub data Popping : Type 0 where
  popped lpop_raises undecodable : Popping

-- The ops change objects in place, so also the batch and the raw items; the reply is none where
-- the call raises.
pub record ChaosReply (V : Type 0) : Type 0 where
  pub left_items : List (BatchItem V)
  pub left_raw : List (Dict V)
  pub reply : Option (List (BatchItem V) × List String × Option ChaosMeta)

pub record Turn (V : Type 0) : Type 0 where
  pub now : ℕ
  pub clock : Clock
  pub popping : Popping
  pub nudge : Nudge
  pub generate : ℕ → Option (Dict V)
  pub cache_reply : Delivery
  pub state_time : ℤ
  pub chaos : List (BatchItem V) → List (Dict V) → ChaosReply V
  pub llen_raises : Bool
  pub burst_time : ℕ
  pub delivery : ℕ → Delivery
  pub push_back : Sent
  pub saving : Sent

-- The local variables, the socket and the database; `users` are the hashes of the users' states.
pub record Stream (V X D : Type 0) : Type 0 where
  pub seq : ℕ
  pub user_state : Dict ℤ
  pub limiter : Option AdaptiveRateLimiter
  pub redis : Redis (Dict V) X
  pub users : D
  pub messages : List (Message V)

-- How a turn leaves the loop, if it does.
pub data Exit : Type 0 where
  goes_on finished disconnected failed : Exit

-- `_resolve_user_id`; an empty name counts as none.
abbrev pub given_id : Option String → Option String
given_id none = none
given_id (some name) = if name == "" then none else some name

unfoldable pub resolve_user_id : Option String → Bool → String → Option String
resolve_user_id user_id needs_user_state random_id =
    if needs_user_state then some (get_or (given_id user_id) random_id) else none

pub data StreamMode : Type 0 where
  live pregen_with_fallback pregen_redis : StreamMode

unfoldable pub resolve_stream_mode : StreamConfig → StreamMode
resolve_stream_mode cfg =
    if not cfg.pregen_enabled
    then live
    else if cfg.fallback_to_live
    then pregen_with_fallback
    else pregen_redis

-- `int(worker_rate * 0.9)`, if the worker has measured a rate
abbrev pub effective_rate : StreamConfig → Option ℕ → ℕ
effective_rate cfg none = cfg.base_rate
effective_rate cfg (some worker_rate) =
    if cfg.auto_detect_rate && ltb 0 worker_rate then worker_rate * 9 / 10 else cfg.base_rate

unfoldable pub build_rate_limiter : StreamConfig → Option ℕ → ℕ → Option AdaptiveRateLimiter
build_rate_limiter cfg worker_rate now =
    if cfg.rate_limit_enabled
    then some (new_limiter (effective_rate cfg worker_rate) false cfg.auto_detect_sample_size now)
    else none

abbrev pub out_of_time : Option ℕ → ℕ → ℕ → Bool
out_of_time none started now = false
out_of_time (some duration) started now =
    if eqb duration 0 then false else leb (started + duration * million) now

abbrev pub is_full : Option ℕ → ℕ → Bool
is_full none seq = false
is_full (some max_events) seq = leb max_events seq

-- For a stream that is not full, so the remaining number is not 0.
abbrev pub batch_within : Option ℕ → ℕ → ℕ → ℕ
batch_within none size seq = size
batch_within (some max_events) size seq = min size (max_events - seq)

abbrev pub pop_size : Session → ℕ → ℕ
pop_size ses seq = batch_within ses.max_events ses.batch_size seq

-- `generate_live_batch`: all that are asked for, or none.
abbrev pub generate_items : {A : Type 0} → (ℕ → Option A) → ℕ → Option (List A)
generate_items gen zero = some []
generate_items gen (suc n) = elim (generate_items gen n) [
  | none ↦ none
  | some items ↦ elim (gen n) [ none ↦ none | some item ↦ some (items ++ item ∷ []) ]
]

abbrev pub generate_live_batch : {A : Type 0} → (ℕ → Option A) → ℕ → List A
generate_live_batch gen n = get_or (generate_items gen n) []

-- The parameters of the endpoint that the loop depends on.
pub record Request : Type 0 where
  pub count : Option ℕ
  pub duration : Option ℕ
  pub max_events : Option ℕ
  pub user_id : Option String

-- What the endpoint finds before the loop: the operation names that are forced, the metadata with
-- the rate of the worker, a new name, and the readings of the clock.
pub record Opening : Type 0 where
  pub forced : List String
  pub stateful_meta : Meta
  pub worker_rate : Option ℕ
  pub random_id : String
  pub limiter_time : ℕ
  pub start_time : ℕ
