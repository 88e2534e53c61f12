-- ===== src/Server/Stream/Keeps.antt =====
-- What the parts of a turn leave alone.
use havoc_forge.Base.{
  String, false, Option, none, List, [], ◌≡◌, refl, inl, inr, Bool-cases, Option-cases,
}
use havoc_forge.Base.Dict.{Dict}
use havoc_forge.Pregeneration.Worker.{Sent, answered, refused, unanswered}
use havoc_forge.Server.RateLimiter.{AdaptiveRateLimiter}
use havoc_forge.Server.UserState.{Values, apply_stateful_user_batch}
use havoc_forge.Server.UserState as UserState
use havoc_forge.Server.Session.{Session, BatchItem, Turn, Stream, given_id}
use havoc_forge.Server.Stream.{after_chaos, save, save_for, is_sequential}

module _ {V X D : Type 0} (users : UserState.Redis D) (ses : Session)
    (P : Stream V X D → Type 0) where
  save_for_cases :
      (user_id : String) (call : Sent) (s : Stream V X D)
      → ((d : D) → P (record s { users = d }))
      → P (save_for users ses user_id call s).1
  save_for_cases user_id answered s h = h _
  save_for_cases user_id refused s h = h s.users
  save_for_cases user_id unanswered s h = h _

  -- A save changes the database alone.
  pub save_cases :
      (call : Sent) (s : Stream V X D)
      → ((d : D) → P (record s { users = d }))
      → P (save users ses call s).1
  unfolding save
  save_cases call s h = elim (Bool-cases (is_sequential ses.cfg.increment_mode)) [
    | inr e ↦ rw e (h s.users)
    | inl e ↦ elim (Option-cases (given_id ses.user_id)) [
      | inl n ↦ rw (e, n) (h s.users)
      | inr (user_id, n) ↦ rw (e, n) (save_for_cases user_id call s h)
    ]
  ]

  module _ (t : Turn V) where
    -- The chaos changes the limiter alone.
    pub after_chaos_cases :
        (batch : List (BatchItem V)) (raw : List (Dict V)) (s : Stream V X D)
        → ((l : Option AdaptiveRateLimiter) → P (record s { limiter = l }))
        → P (after_chaos ses t batch raw s).1
    after_chaos_cases batch raw s h = elim (Bool-cases ses.cfg.apply_chaos) [
      | inr e ↦ rw e (h s.limiter)
      | inl e ↦ elim (Option-cases (t.chaos batch raw).reply) [
        | inl n ↦ rw (e, n) (h s.limiter)
        | inr (report, n) ↦ rw (e, n) (h _)
      ]
    ]

pub without_chaos :
    {V X D : Type 0} (ses : Session) (t : Turn V)
    → ses.cfg.apply_chaos ≡ false
    → (batch : List (BatchItem V)) (raw : List (Dict V)) (s : Stream V X D)
    → after_chaos ses t batch raw s ≡ ((batch, raw, [], none), s)
without_chaos ses t plain batch raw s = rw plain refl
