-- ===== src/Chaos/Burst/Window.antt =====
-- How long a burst lasts.
use havoc_forge.Base.{
  ℕ, ◌+◌, ◌*◌, ◌<◌, ◌≤◌, Bool, true, false, ◌≡◌, refl, ap, ◌∙◌, Option, none, some, List, [], ◌∷◌,
  arith, leb, eqb, if◌then◌else◌,
}
use havoc_forge.Base.Int.{pos, ltb_ℤ}
use havoc_forge.Base.Find.{All}
use havoc_forge.Chaos.Op.{Rng}
use havoc_forge.Chaos.Burst.{BurstOp, BurstMetadata, should_burst, metadata_of, report, apply}
use mathlib.Core.Bool.{not, false≢true}

abbrev pub ends : BurstOp → ℕ → ℕ
ends b started = started + b.burst_duration * 1000000

abbrev pub started_at : BurstOp → ℕ → BurstOp
started_at b now = record b { burst_active = true; burst_start = some now }

module _ {R : Type 0} (g : Rng R) where
  -- What calls at the given times report, in order, and what they leave.
  pub reports : List ℕ → BurstOp → R → List (Option BurstMetadata) × BurstOp × R
  reports [] b r = ([], b, r)
  reports (now ∷ times) b r =
      let (m, b', r') = apply g now b r in
      let (ms, b'', r'') = reports times b' r' in (m ∷ ms, b'', r'')

  -- The same report for each time.
  pub same_reports : BurstMetadata → List ℕ → List (Option BurstMetadata)
  same_reports m [] = []
  same_reports m (now ∷ times) = some m ∷ same_reports m times

  unless_not : {A : Type 0} (e : Bool) (x y : A) → e ≡ true → (if not e then x else y) ≡ y
  unless_not true x y h = refl
  unless_not false x y h = absurd (false≢true h)

  apply_on :
      (b : BurstOp) (now : ℕ) (r : R)
      → b.enabled ≡ true
      → apply g now b r ≡ report g (should_burst g now b r)
  unfolding apply
  apply_on b now r on = unless_not b.enabled (none, b, r) (report g (should_burst g now b r)) on

  starts :
      (b : BurstOp) (now : ℕ) (r : R)
      → b.enabled ≡ true
      → b.burst_active ≡ false
      → ltb_ℤ (pos (g.random r).0) b.probability ≡ true
      → apply g now b r
        ≡ (some (metadata_of g (started_at b now)), started_at b now, (g.random r).1)
  unfolding apply should_burst
  starts b now r on off drawn =
      let one : should_burst g now b r ≡ (true, started_at b now, (g.random r).1) =
        simp (should_burst, off, drawn) in
      apply_on b now r on ∙ ap (report g) one

  goes_on :
      (b : BurstOp) (t now : ℕ) (r : R)
      → b.enabled ≡ true
      → 0 < t
      → now < ends b t
      → apply g now (started_at b t) r ≡ (some (metadata_of g (started_at b t)), started_at b t, r)
  unfolding apply should_burst
  goes_on b t now r on later before =
      let positive : eqb t 0 ≡ false = ground arith in
      let short : leb (ends b t) now ≡ false = ground arith in
      let one : should_burst g now (started_at b t) r ≡ (true, started_at b t, r) =
        simp (should_burst, positive, short) in
      apply_on (started_at b t) now r on ∙ ap (report g) one

  stops :
      (b : BurstOp) (t now : ℕ) (r : R)
      → b.enabled ≡ true
      → 0 < t
      → ends b t ≤ now
      → apply g now (started_at b t) r
        ≡ (none, record b { burst_active = false; burst_start = none }, r)
  unfolding apply should_burst
  stops b t now r on later past =
      let positive : eqb t 0 ≡ false = ground arith in
      let long : leb (ends b t) now ≡ true = ground arith in
      let one : should_burst g now (started_at b t) r
          ≡ (false, record b { burst_active = false; burst_start = none }, r) =
        simp (should_burst, positive, long) in
      apply_on (started_at b t) now r on ∙ ap (report g) one

  goes_on_through :
      (b : BurstOp) (t : ℕ) (times : List ℕ) (now : ℕ) (r : R)
      → b.enabled ≡ true
      → 0 < t
      → All (λ n. n < ends b t) times
      → reports times (started_at b t) r
        ≡ (same_reports (metadata_of g (started_at b t)) times, started_at b t, r)
  unfolding reports same_reports
  goes_on_through b t [] now r on later h = refl
  goes_on_through b t (n ∷ times) now r on later h =
      rw (reports, goes_on b t n r on later h.0, goes_on_through b t times now r on later h.1) refl

  -- An enabled op without a burst, called at a time above 0 when the draw falls below its
  -- probability, starts a burst: every call before the burst's end reports it as it started, without
  -- another draw, and the first call at or after its end reports none and ends it.
  pub burst-lasts :
      (b : BurstOp) (t : ℕ) (times : List ℕ) (last : ℕ) (r : R)
      → b.enabled ≡ true
      → b.burst_active ≡ false
      → 0 < t
      → ltb_ℤ (pos (g.random r).0) b.probability ≡ true
      → All (λ n. n < ends b t) times
      → ends b t ≤ last
      → let (m, b', r') = apply g t b r in
        let (ms, b'', r'') = reports times b' r' in
        (m ≡ some (metadata_of g (started_at b t)))
        × (ms ≡ same_reports (metadata_of g (started_at b t)) times)
        × (apply g last b'' r''
            ≡ (none, record b { burst_active = false; burst_start = none }, (g.random r).1))
  burst-lasts b t times last r on off later drawn before past =
      rw (starts b t r on off drawn, goes_on_through b t times t (g.random r).1 on later before)
        (refl, refl, stops b t last (g.random r).1 on later past)
