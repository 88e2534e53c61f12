-- ===== src/Server/Stream/Endpoint.antt =====
-- server/routers/streaming/handler.py: `stream_schema` as a whole, for a start that succeeds.
use havoc_forge.Base.{String, Bool, ◌&&◌, none, some, List, [], ltb, length}
use havoc_forge.Base.Dict.{Dict}
use havoc_forge.Base.Int.{ℤ}
use mathlib.Core.Option.{get_or}
use havoc_forge.Pregeneration.Worker.{Redis, Sent}
use havoc_forge.Server.UserState.{Meta, Values, get_or_create_user_state}
use havoc_forge.Server.UserState as UserState
use havoc_forge.Server.Session.{
  StreamConfig, Session, Request, Opening, Turn, Delivery, Stream, resolve_user_id,
  build_rate_limiter,
}
use havoc_forge.Server.Stream.{turns, close, is_sequential, state_key}

abbrev pub needs_user_state : StreamConfig → Meta → Bool
needs_user_state cfg m = ltb 0 (length m.fields) && is_sequential cfg.increment_mode

unfoldable pub session_of : StreamConfig → String → Request → Opening → Session
unfolding resolve_user_id
session_of cfg schema req o = record {
  cfg = cfg;
  schema = schema;
  batch_size = get_or req.count cfg.batch_pop_size;
  duration = req.duration;
  max_events = req.max_events;
  user_id = resolve_user_id req.user_id (needs_user_state cfg o.stateful_meta) o.random_id;
  forced = o.forced;
  stateful_meta = o.stateful_meta;
  start_time = o.start_time;
}

module _ {D : Type 0} (users : UserState.Redis D) where
  -- The state of the user, if there is one to keep.
  abbrev pub load_state : Session → D → Dict ℤ × D
  load_state ses db = elim ses.user_id [
    | none ↦ ([], db)
    | some user_id ↦
        get_or_create_user_state users (state_key ses user_id) ses.cfg.user_state_ttl
          ses.stateful_meta db
  ]

  unfoldable pub open_stream :
      {V X : Type 0} → Session → Opening → Redis (Dict V) X → D → Stream V X D
  unfolding get_or_create_user_state build_rate_limiter
  open_stream ses o redis db =
      let (user_state, db') = load_state ses db in
      record {
        seq = 0;
        user_state = user_state;
        limiter = build_rate_limiter ses.cfg o.worker_rate o.limiter_time;
        redis = redis;
        users = db';
        messages = [];
      }

module _ {V X D : Type 0} (values : Values V) (users : UserState.Redis D) where
  unfoldable pub stream_schema :
      StreamConfig
      → String
      → Request
      → Opening
      → List (Turn V)
      → Delivery
      → Sent
      → Redis (Dict V) X
      → D
      → Bool × Stream V X D
  unfolding session_of open_stream turns close
  stream_schema cfg schema req o ts reply saving redis db =
      let ses = session_of cfg schema req o in
      close users ses reply saving (turns values users ses ts (open_stream users ses o redis db))
