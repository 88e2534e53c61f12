-- ===== src/Server/IpRateLimiter/Window.antt =====
-- The demo's limiter counts exactly the calls of a sliding window.
use havoc_forge.Base.{
  ℕ, ◌≤◌, String, true, false, ◌≡◌, refl, ◌∙◌, List, [], ◌∷◌, ◌++◌, arith, ltb, leb, ◌==◌, eq_iff,
  if◌then◌else◌, Bool-cases, inl, inr, length, ◌&&◌,
}
use havoc_forge.Base.Dict
use havoc_forge.Base.Dict.{Dict, get-set}
use havoc_forge.Base.Find.{count}
use havoc_forge.Server.IpRateLimiter.Bucket.{
  recent, Remembers, later-Remembers, dropped-Remembers, length-dropped, grant-Remembers,
}
use havoc_forge.Server.IpRateLimiter.{IpRateLimiter, new_limiter, drop_expired, bucket_of, allow}

-- The window as it is meant: a call is granted if fewer than `limit` of the calls granted to its
-- address are still in the window. Calls and grants stand newest first.
pub grants : ℕ → ℕ → String → List (String × ℕ) → List ℕ
grants limit window ip [] = []
grants limit window ip ((j, now) ∷ earlier) =
    let g = grants limit window ip earlier in
    if j == ip && ltb (count (recent window now) g) limit then now ∷ g else g

pub after : ℕ → ℕ → List (String × ℕ) → IpRateLimiter
after limit window [] = new_limiter limit window
after limit window ((ip, now) ∷ earlier) = (allow ip now (after limit window earlier)).1

-- The clock does not step back, and stands at `now` or before.
abbrev pub IsForward : ℕ → List (String × ℕ) → Type 0
IsForward now [] = Unit
IsForward now ((ip, t) ∷ earlier) = (t ≤ now) × IsForward t earlier

-- What one call does to each bucket.
abbrev swept : String → ℕ → IpRateLimiter → List ℕ
swept ip now l = drop_expired l.window_seconds now (bucket_of l ip)

abbrev new_bucket : ℕ → ℕ → List ℕ → List ℕ
new_bucket limit now bucket = if leb limit (length bucket) then bucket else bucket ++ now ∷ []

module _ (ip : String) (now : ℕ) (l : IpRateLimiter) where
  answer-allow : (allow ip now l).0 ≡ ltb (length (swept ip now l)) l.max_requests
  unfolding allow
  answer-allow = ground arith

  window-allow : (allow ip now l).1.window_seconds ≡ l.window_seconds
  unfolding allow
  window-allow = ground arith

  limit-allow : (allow ip now l).1.max_requests ≡ l.max_requests
  unfolding allow
  limit-allow = ground arith

  hits-allow :
      (allow ip now l).1.hits ≡ Dict.set l.hits ip (new_bucket l.max_requests now (swept ip now l))
  unfolding allow
  hits-allow = ground arith

  bucket-allow :
      (j : String)
      → bucket_of (allow ip now l).1 j
        ≡ (if ip == j then new_bucket l.max_requests now (swept ip now l) else bucket_of l j)
  bucket-allow j = elim (Bool-cases (ip == j)) [
    | inl e ↦ rw (hits-allow, get-set, e)
    | inr e ↦ rw (hits-allow, get-set, e)
  ]

module _ (limit window : ℕ) where
  window-after : (calls : List (String × ℕ)) → (after limit window calls).window_seconds ≡ window
  unfolding after
  window-after [] = refl
  window-after ((ip, t) ∷ earlier) = window-allow ip t _ ∙ window-after earlier

  limit-after : (calls : List (String × ℕ)) → (after limit window calls).max_requests ≡ limit
  unfolding after
  limit-after [] = refl
  limit-after ((ip, t) ∷ earlier) = limit-allow ip t _ ∙ limit-after earlier

  call-Remembers :
      (last t : ℕ) (bucket granted : List ℕ)
      → last ≤ t
      → Remembers window last bucket granted
      → Remembers window t
          (new_bucket limit t (drop_expired window t bucket))
          (if ltb (count (recent window t) granted) limit then t ∷ granted else granted)
  call-Remembers last t bucket granted le h =
      let d = dropped-Remembers window last t le h in
      let e = length-dropped window last t le h in
      elim (Bool-cases (ltb (count (recent window t) granted) limit)) [
        | inl room ↦
            let room' : leb limit (length (drop_expired window t bucket)) ≡ false = ground arith in
            rw (room, room') (grant-Remembers window t _ granted d)
        | inr full ↦
            let full' : leb limit (length (drop_expired window t bucket)) ≡ true = ground arith in
            rw (full, full') d
      ]

  -- What the bucket of an address remembers after the calls.
  after-Remembers :
      (ip : String) (now : ℕ) (calls : List (String × ℕ))
      → IsForward now calls
      → Remembers window now
          (bucket_of (after limit window calls) ip)
          (grants limit window ip calls)
  unfolding after grants
  after-Remembers ip now [] f =
      unfold Dict.get in record { ascending = tt; before = tt; counts = λ n le. refl }
  after-Remembers ip now ((j, t) ∷ earlier) f =
      let h = after-Remembers ip t earlier f.1 in
      elim (Bool-cases (j == ip)) [
        | inr other ↦ rw (bucket-allow, other) (later-Remembers window t now f.0 h)
        | inl same ↦
            let same' : j ≡ ip = (eq_iff j ip).0 same in
            rw (bucket-allow, same, same', window-after earlier, limit-after earlier)
              (later-Remembers window t now f.0 (call-Remembers t t _ _ (omega arith) h))
      ]

  -- After any calls at times that do not step back, from any addresses, a call is granted exactly
  -- if fewer than the limit of the calls granted to its address before are still in the window.
  pub allow_exact :
      (ip : String) (now : ℕ) (calls : List (String × ℕ))
      → IsForward now calls
      → (allow ip now (after limit window calls)).0
        ≡ ltb (count (recent window now) (grants limit window ip calls)) limit
  allow_exact ip now calls f =
      let h = after-Remembers ip now calls f in
      rw (
        answer-allow,
        window-after calls,
        limit-after calls,
        length-dropped window now now (omega arith) h,
      )

  recent_mono :
      (t now : ℕ) (g : List ℕ) → t ≤ now → count (recent window now) g ≤ count (recent window t) g
  recent_mono t now [] h = omega arith
  recent_mono t now (x ∷ g) h = ground (arith, recent_mono t now g h)

  grants-le :
      (ip : String) (now : ℕ) (calls : List (String × ℕ))
      → IsForward now calls
      → count (recent window now) (grants limit window ip calls) ≤ limit
  unfolding grants
  grants-le ip now [] f = omega arith
  grants-le ip now ((j, t) ∷ earlier) f =
      let g = grants limit window ip earlier in
      ground (arith, grants-le ip t earlier f.1, recent_mono t now g f.0)

  -- The times at which `allow` said yes to an address.
  pub granted_times : String → List (String × ℕ) → List ℕ
  granted_times ip [] = []
  granted_times ip ((j, now) ∷ earlier) =
      let rest = granted_times ip earlier in
      if j == ip && (allow j now (after limit window earlier)).0 then now ∷ rest else rest

  granted_times-eq-grants :
      (ip : String) (now : ℕ) (calls : List (String × ℕ))
      → IsForward now calls
      → granted_times ip calls ≡ grants limit window ip calls
  unfolding granted_times grants
  granted_times-eq-grants ip now [] f = refl
  granted_times-eq-grants ip now ((j, t) ∷ earlier) f =
      ground
        (arith, eq_iff j ip, granted_times-eq-grants ip t earlier f.1, allow_exact j t earlier f.1)

  -- After any calls at times that do not step back, at most the limit of the calls that the limiter
  -- granted to one address are in the window.
  pub granted_in_window :
      (ip : String) (now : ℕ) (calls : List (String × ℕ))
      → IsForward now calls
      → count (recent window now) (granted_times ip calls) ≤ limit
  granted_in_window ip now calls f =
      rw (granted_times-eq-grants ip now calls f) (grants-le ip now calls f)
