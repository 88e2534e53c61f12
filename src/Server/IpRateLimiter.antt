-- ===== src/Server/IpRateLimiter.antt =====
-- demo/rate_limit.py: the demo's sliding-window limiter, one bucket of call times for each address.
-- Times are those of a monotonic clock. `bucket[0] < now - window` is tested with the window on the
-- other side, since the cutoff may lie before 0.
pub mod Bucket
pub mod Window
use havoc_forge.Base.{
  ℕ, ◌+◌, ◌-◌, ◌≤◌, ◌<◌, String, Bool, true, false, ◌≡◌, refl, sym, ap, ◌∙◌, Option, none, some,
  List, [], ◌∷◌, ◌++◌, arith, ltb, leb, ◌==◌, eq_iff, eq_refl, if◌then◌else◌, Bool-cases, inl, inr,
  length, ◌&&◌, length-append, Option-cases,
}
use havoc_forge.Base.Dict
use havoc_forge.Base.Dict.{Dict, get-set}
use havoc_forge.Base.Find.{count, All, count-append_one, All-append_one}
use mathlib.Core.Option.{get_or}

pub record IpRateLimiter : Type 0 where
  pub max_requests : ℕ
  pub window_seconds : ℕ
  pub hits : Dict (List ℕ)

abbrev pub new_limiter : ℕ → ℕ → IpRateLimiter
new_limiter max_requests window_seconds = record {
  max_requests = max_requests;
  window_seconds = window_seconds;
  hits = [];
}

-- A call at `t` has left the window at `now`.
abbrev pub expired : ℕ → ℕ → ℕ → Bool
expired window now t = ltb (t + window) now

unfoldable pub drop_expired : ℕ → ℕ → List ℕ → List ℕ
drop_expired window now [] = []
drop_expired window now (t ∷ bucket) =
    let rest = drop_expired window now bucket in if expired window now t then rest else t ∷ bucket

abbrev pub bucket_of : IpRateLimiter → String → List ℕ
bucket_of l ip = get_or (Dict.get l.hits ip) []

-- The `defaultdict` keeps the bucket also where the call is refused.
unfoldable pub allow : String → ℕ → IpRateLimiter → Bool × IpRateLimiter
unfolding drop_expired
allow ip now l =
    let bucket = drop_expired l.window_seconds now (bucket_of l ip) in
    if leb l.max_requests (length bucket)
    then (false, record l { hits = Dict.set l.hits ip bucket })
    else (true, record l { hits = Dict.set l.hits ip (bucket ++ now ∷ []) })

unfoldable pub remaining : String → IpRateLimiter → ℕ
remaining ip l = l.max_requests - length (bucket_of l ip)
