-- ===== src/Tests/Stream.antt =====
-- Streams at concrete inputs: items hold one number, and a user's state is all that is kept of users.
use havoc_forge.Base.{
  ℕ, ◌+◌, length, true, false, ◌≡◌, refl, none, some, [], ◌∷◌, arith, eqb, if◌then◌else◌,
}
use havoc_forge.Base.Int.{ℤ, pos}
use havoc_forge.Base.Dict
use havoc_forge.Base.Dict.{Dict}
use havoc_forge.Base.Text.{concat}
use havoc_forge.Pregeneration.Worker.{PregenConfig, Redis, answered, lpush}
use havoc_forge.Pregeneration.Cache.{nudged, stream_pop, lpop}
use havoc_forge.Server.UserState.{
  Values, sequential, wallclock, apply_stateful_user_batch, save_user_state,
}
use havoc_forge.Server.UserState as UserState
use havoc_forge.Server.Session.{
  StreamConfig, Session, Request, Opening, Turn, Stream, delivered, gone, popped, finished,
  disconnected, build_rate_limiter,
}
use havoc_forge.Server.Stream.{
  turn, turns, fetch_and_serve, fetch_batch, serve, send_all, after_sending, retain, save,
}
use havoc_forge.Server.Stream.Endpoint.{stream_schema}
use havoc_forge.Server.Stream.Numbered.{IsNumbered, stream_schema-IsNumbered}
use havoc_forge.Server.Stream.Stalled.{Waits, turns-IsStalled}
use havoc_forge.Server.Stream.Retained.{IsInterrupted, turn-IsInterrupted}
use havoc_forge.Server.Stream.Delivered.{IsFine, turns-deliver}

abbrev numbers : Values ℤ
numbers = record { number = λ t. t; strftime = λ t tz format. some t }

abbrev one_user : UserState.Redis (Dict ℤ)
one_user = record {
  hgetall = λ key db. db;
  hset = λ key state db. state;
  expire = λ key ttl db. db;
}

abbrev item : ℕ → Dict ℤ
item k = ("n", pos k) ∷ []

abbrev pregen : PregenConfig
pregen = record {
  queue_size = 9;
  batch_size = 1;
  max_items = none;
  global_max_items = some 9;
  record_metrics = false;
  key_prefix = "pregen";
}

abbrev live_config : StreamConfig
live_config = record {
  batch_pop_size = 2;
  pregen_enabled = false;
  require_cache = false;
  fallback_to_live = false;
  apply_chaos = false;
  batch_retention = true;
  increment_mode = sequential;
  rate_limit_enabled = false;
  base_rate = 1;
  auto_detect_rate = false;
  auto_detect_sample_size = 0;
  user_state_key_prefix = "user";
  user_state_ttl = 60;
  pregen = pregen;
}

abbrev calm : Turn ℤ
calm = record {
  now = 0;
  clock = record { checked = 0; refilled = 0; sampled = 0 };
  popping = popped;
  nudge = nudged;
  generate = λ k. some (item k);
  cache_reply = delivered;
  state_time = pos 0;
  chaos = λ batch raw. record { left_items = batch; left_raw = raw; reply = none };
  llen_raises = false;
  burst_time = 0;
  delivery = λ seq. delivered;
  push_back = answered;
  saving = answered;
}

abbrev three_events : Request
three_events = record { count = none; duration = none; max_events = some 3; user_id = none }

abbrev opening : Opening
opening = record {
  forced = [];
  stateful_meta = record { fields = []; worker_start_time = none };
  worker_rate = none;
  random_id = "u";
  limiter_time = 0;
  start_time = 0;
}

abbrev database : Redis (Dict ℤ) ℕ
database = record {
  lists = ("pregen:clicks:queue", item 1 ∷ item 2 ∷ item 3 ∷ item 4 ∷ []) ∷ [];
  counters = [];
  metas = [];
}

stream_schema-IsNumbered_example :
    let s =
      (stream_schema numbers one_user live_config "clicks" three_events opening
        (calm ∷ calm ∷ calm ∷ [])
        delivered
        answered
        database
        []).1 in
    IsNumbered (some 3) s.seq s.messages
stream_schema-IsNumbered_example =
    stream_schema-IsNumbered numbers one_user live_config "clicks" three_events opening
      (calm ∷ calm ∷ calm ∷ []) delivered answered database []

abbrev session : StreamConfig → Session
session cfg = record {
  cfg = cfg;
  schema = "clicks";
  batch_size = 3;
  duration = none;
  max_events = some 5;
  user_id = none;
  forced = [];
  stateful_meta = record { fields = []; worker_start_time = none };
  start_time = 0;
}

abbrev unlimited : Stream ℤ ℕ (Dict ℤ)
unlimited = record {
  seq = 0;
  user_state = [];
  limiter = none;
  redis = database;
  users = [];
  messages = [];
}

fine : IsFine calm
fine = record { generates = λ k. (item k, refl); delivers = λ seq. refl; saves = refl }

turns-deliver_example :
    let r =
      turns numbers one_user
        (session live_config)
        (calm ∷ calm ∷ calm ∷ calm ∷ calm ∷ calm ∷ [])
        unlimited in
    (r.0 ≡ finished) × (r.1.seq ≡ 5) × (length r.1.messages + 0 ≡ 0 + 5)
turns-deliver_example =
    turns-deliver numbers one_user (session live_config) 5
      (record {
        limit = refl;
        endless = refl;
        some_items = omega arith;
        no_pregen = refl;
        no_chaos = refl;
        in_sequence = refl;
        can_show = tt;
      })
      (calm ∷ calm ∷ calm ∷ calm ∷ calm ∷ calm ∷ []) unlimited
      (fine, (fine, (fine, (fine, (fine, (fine, tt)))))) refl (omega arith) (omega arith)

abbrev limited_config : StreamConfig
limited_config = record live_config { rate_limit_enabled = true }

abbrev limited : Stream ℤ ℕ (Dict ℤ)
limited = record unlimited { limiter = build_rate_limiter limited_config none 0 }

turns-IsStalled_example :
    Waits numbers one_user
      (session limited_config)
      limited
      (turns numbers one_user (session limited_config) (calm ∷ calm ∷ []) limited)
turns-IsStalled_example =
    turns-IsStalled numbers one_user (session limited_config) none 0 (calm ∷ calm ∷ []) limited refl
      refl (omega arith)

abbrev cached : Session
cached = session (record live_config { pregen_enabled = true })

-- The client goes after the first event.
abbrev cut_short : Turn ℤ
cut_short = record calm { delivery = λ seq. if eqb seq 0 then delivered else gone }

reversed :
    (turn numbers one_user cached cut_short unlimited).1.redis.lists
    ≡ ("pregen:clicks:queue", item 3 ∷ item 2 ∷ item 4 ∷ []) ∷ []
unfolding turn fetch_and_serve fetch_batch serve send_all after_sending retain save stream_pop lpop
    lpush apply_stateful_user_batch Dict.get Dict.set concat
reversed = refl

cut_off : (turn numbers one_user cached cut_short unlimited).0 ≡ disconnected
unfolding turn fetch_and_serve fetch_batch serve send_all after_sending retain save stream_pop lpop
    lpush apply_stateful_user_batch Dict.get Dict.set concat
cut_off = refl

turn-IsInterrupted_example :
    IsInterrupted numbers cached cut_short 3 unlimited
      (turn numbers one_user cached cut_short unlimited).1
turn-IsInterrupted_example =
    turn-IsInterrupted numbers one_user cached cut_short refl refl refl refl refl refl unlimited
      cut_off
