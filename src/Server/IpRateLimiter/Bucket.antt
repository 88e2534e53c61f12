-- ===== src/Server/IpRateLimiter/Bucket.antt =====
-- A bucket of call times, swept and added to, against the times of all the grants.
use havoc_forge.Base.{
  ℕ, ◌+◌, ◌≤◌, Bool, ◌≡◌, refl, ◌∙◌, List, [], ◌∷◌, ◌++◌, arith, leb, length, if_both,
}
use havoc_forge.Base.Find.{count, All, count-append_one, All-append_one}
use havoc_forge.Server.IpRateLimiter.{expired, drop_expired}

-- A call at `t` is in the window at `now`.
abbrev pub recent : ℕ → ℕ → ℕ → Bool
recent window now t = leb now (t + window)

-- The bucket is in order, up to the time `last`.
abbrev Ascending : ℕ → List ℕ → Type 0
Ascending low [] = Unit
Ascending low (t ∷ bucket) = (low ≤ t) × Ascending t bucket

-- A bucket that has forgotten nothing of what a call at `last` or later must count.
pub record Remembers (window last : ℕ) (bucket granted : List ℕ) : Type 0 where
  pub ascending : Ascending 0 bucket
  pub before : All (λ t. t ≤ last) bucket
  pub counts :
      (now : ℕ) → last ≤ now → count (recent window now) bucket ≡ count (recent window now) granted

module _ (window now : ℕ) where
  count-drop_expired :
      (later : ℕ) (bucket : List ℕ)
      → now ≤ later
      → count (recent window later) (drop_expired window now bucket)
        ≡ count (recent window later) bucket
  unfolding drop_expired
  count-drop_expired later [] h = refl
  count-drop_expired later (t ∷ bucket) h = ground (arith, count-drop_expired later bucket)

  all_recent :
      (low : ℕ) (bucket : List ℕ)
      → now ≤ low + window
      → Ascending low bucket
      → count (recent window now) bucket ≡ length bucket
  all_recent low [] h a = refl
  all_recent low (t ∷ bucket) h a = ground (arith, all_recent t bucket)

  length-drop_expired :
      (low : ℕ) (bucket : List ℕ)
      → Ascending low bucket
      → length (drop_expired window now bucket) ≡ count (recent window now) bucket
  unfolding drop_expired
  length-drop_expired low [] a = refl
  length-drop_expired low (t ∷ bucket) a =
      ground (arith, length-drop_expired t bucket, all_recent t bucket)

  Ascending-drop_expired :
      (low low' : ℕ) (bucket : List ℕ)
      → low ≤ low'
      → Ascending low' bucket
      → Ascending low (drop_expired window now bucket)
  unfolding drop_expired
  Ascending-drop_expired low low' [] h a = tt
  Ascending-drop_expired low low' (t ∷ bucket) h a =
      if_both (Ascending low) (expired window now t)
        (Ascending-drop_expired low t bucket (omega arith) a.1) (omega arith, a.1)

  All-drop_expired :
      (P : ℕ → Type 0) (bucket : List ℕ) → All P bucket → All P (drop_expired window now bucket)
  unfolding drop_expired
  All-drop_expired P [] h = tt
  All-drop_expired P (t ∷ bucket) h =
      if_both (All P) (expired window now t) (All-drop_expired P bucket h.1) h

Ascending-append_one :
    (low now : ℕ) (bucket : List ℕ)
    → Ascending low bucket
    → low ≤ now
    → All (λ t. t ≤ now) bucket
    → Ascending low (bucket ++ now ∷ [])
Ascending-append_one low now [] a h al = (h, tt)
Ascending-append_one low now (t ∷ bucket) a h al =
    (a.0, Ascending-append_one t now bucket a.1 al.0 al.1)

All-le_mono :
    (m n : ℕ) (bucket : List ℕ) → m ≤ n → All (λ t. t ≤ m) bucket → All (λ t. t ≤ n) bucket
All-le_mono m n [] h a = tt
All-le_mono m n (t ∷ bucket) h a = (omega (arith, a.0), All-le_mono m n bucket h a.1)

module _ (window last now : ℕ) (le : last ≤ now) {bucket granted : List ℕ}
    (h : Remembers window last bucket granted) where
  pub later-Remembers : Remembers window now bucket granted
  later-Remembers = record {
    ascending = h.ascending;
    before = All-le_mono last now bucket le h.before;
    counts = λ n le'. h.counts n (omega arith);
  }

  pub dropped-Remembers : Remembers window now (drop_expired window now bucket) granted
  dropped-Remembers = record {
    ascending = Ascending-drop_expired window now 0 0 bucket (omega arith) h.ascending;
    before =
        All-drop_expired window now (λ t. t ≤ now) bucket (All-le_mono last now bucket le h.before);
    counts = λ n le'. count-drop_expired window now n bucket le' ∙ h.counts n (omega arith);
  }

  pub length-dropped : length (drop_expired window now bucket) ≡ count (recent window now) granted
  length-dropped = length-drop_expired window now 0 bucket h.ascending ∙ h.counts now le

pub grant-Remembers :
    (window now : ℕ) (bucket granted : List ℕ)
    → Remembers window now bucket granted
    → Remembers window now (bucket ++ now ∷ []) (now ∷ granted)
grant-Remembers window now bucket granted h = record {
  ascending = Ascending-append_one 0 now bucket h.ascending (omega arith) h.before;
  before = All-append_one (λ t. t ≤ now) bucket now h.before (omega arith);
  counts =
      λ n le'. rw (count-append_one (recent window n) bucket now) (ground (arith, h.counts n le'));
}
