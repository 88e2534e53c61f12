-- ===== src/Persistence/BatchSync/Drained.antt =====
-- batch_sync.py: where the calls are answered, Redis is drained.
use mathlib.Core.Path.{subst}
use havoc_forge.Base.{
  ℕ, zero, suc, ◌+◌, ◌≤◌, ◌<◌, String, Bool, true, false, not, Option, none, some, List, [], ◌∷◌,
  take, length, eq_iff, ◌≡◌, refl, sym, ap, ◌∙◌, arith, inl, inr, Bool-cases,
}
use havoc_forge.Base.Dict
use havoc_forge.Base.Dict.{Dict, mem_str, get-pop}
use havoc_forge.Base.Find.{keep}
use havoc_forge.Persistence.BatchSync.{
  Stores, is_there, find_missing_ids, delete, clean, move_all, total_of, after_clean, existing_ids,
  sync_ids, sync_batch, drain_next, drain,
}
use havoc_forge.Persistence.BatchSync.Kept.{
  prefer, stored_for, sync_batch-Keeps, drain-Keeps, find_missing_online,
}
use havoc_forge.Persistence.BatchSync.Existing.{mem_head}
use havoc_forge.Persistence.BatchSync.Moves.{
  all_answered, rounds_of, pops, clean-eq, length-pops, length-pop_found, mem-keep_out, get-pops,
  move_all-Goes, move_all-Moves,
}

module _ {V : Type 0} where
  module _ (falsy : V → Bool) (full : (v : V) → falsy v ≡ false) where
    -- A batch that counts something and leaves less in Redis.
    record Counts (s : Stores V) (r : ℕ × Stores V) : Type 0 where
      counted : 0 < r.0
      fewer : length r.1.redis < length s.redis

    total_of_quiet : (n : ℕ) (r : Bool × ℕ × Stores V) → r.0 ≡ false → total_of n r ≡ (n + r.1, r.2)
    total_of_quiet n (true, m, s) h = cc
    total_of_quiet n (false, m, s) h = refl

    after_clean_counted :
        (missing : List String) (n : ℕ) (s t : Stores V)
        → length t.redis < length s.redis
        → Counts s (after_clean falsy all_answered missing (false, suc n, t))
    after_clean_counted [] n s t h = record { counted = omega arith; fewer = h }
    after_clean_counted (id ∷ missing) n s t h =
        let g = move_all-Goes falsy full (id ∷ missing) t in
        rw (total_of_quiet (suc n) (move_all falsy all_answered (id ∷ missing) t) g.quiet)
          (record { counted = omega arith; fewer = omega (arith, g.fewer, h) })

    after_clean_moved :
        (id : String) (missing : List String) (v : V) (n : ℕ) (s t : Stores V)
        → Dict.get t.redis id ≡ some v
        → length t.redis ≤ length s.redis
        → Counts s (after_clean falsy all_answered (id ∷ missing) (false, n, t))
    after_clean_moved id missing v n s t f h =
        let g = move_all-Moves falsy full v id missing t f in
        rw (total_of_quiet n (move_all falsy all_answered (id ∷ missing) t) g.quiet)
          (record { counted = omega (arith, g.counted); fewer = omega (arith, g.fewer, h) })

    abbrev after_cleaning : List String → List String → Stores V → ℕ × Stores V
    after_cleaning missing ids s =
        after_clean falsy all_answered missing (clean all_answered (existing_ids missing ids) s)

    batch_moved :
        (id : String) (v : V) (ids missing : List String) (s : Stores V)
        → Dict.get s.redis id ≡ some v
        → Counts s (after_cleaning (id ∷ missing) (id ∷ ids) s)
    batch_moved id v ids missing s f =
        let all = id ∷ missing in
        let existing = existing_ids all (id ∷ ids) in
        let out : mem_str id existing ≡ false =
          mem-keep_out (λ j. not (mem_str j all)) id (id ∷ ids) (ap not (mem_head id missing)) in
        rw (clean-eq existing s) (
          after_clean_moved id missing v (length existing) s (pops existing s)
            (get-pops id existing s out ∙ f) (length-pops existing s))

    batch_cleaned :
        (id : String) (v : V) (ids missing : List String) (s : Stores V)
        → Dict.get s.redis id ≡ some v
        → mem_str id missing ≡ false
        → Counts s (after_cleaning missing (id ∷ ids) s)
    batch_cleaned id v ids missing s f h =
        let rest = existing_ids missing ids in
        rw h (
          rw (clean-eq (id ∷ rest) s) (
            after_clean_counted missing (length rest) s (pops (id ∷ rest) s)
              (omega (arith, length-pops rest (delete id s), length-pop_found s.redis id v f))))

    batch_from :
        (id : String) (v : V) (ids missing : List String) (s : Stores V)
        → Dict.get s.redis id ≡ some v
        → missing ≡ keep (λ j. not (is_there s.postgres j)) (id ∷ ids)
        → Counts s (after_cleaning missing (id ∷ ids) s)
    batch_from id v ids missing s f m = elim (Bool-cases (is_there s.postgres id)) [
      | inl e ↦ batch_cleaned id v ids missing s f (
          ap (mem_str id) m
          ∙ mem-keep_out (λ j. not (is_there s.postgres j)) id (id ∷ ids) (ap not e))
      | inr e ↦
          let rest = keep (λ j. not (is_there s.postgres j)) ids in
          let is : missing ≡ id ∷ rest = m ∙ (rw e refl) in
          subst (λ l. Counts s (after_cleaning l (id ∷ ids) s)) (sym is)
            (batch_moved id v ids rest s f)
    ]

    get_first : (id : String) (v : V) (d : Dict V) → Dict.get ((id, v) ∷ d) id ≡ some v
    unfolding Dict.get
    get_first id v d = ground (arith, eq_iff id id)

    -- A batch empties Redis by at least one key, if there is one.
    sync_batch-Counts :
        (limit : ℕ) (id : String) (v : V) (d : Dict V) (s : Stores V)
        → s.redis ≡ (id, v) ∷ d
        → s.connected ≡ true
        → Counts s (sync_batch falsy all_answered (suc limit) s)
    unfolding sync_batch Dict.keys
    sync_batch-Counts limit id v d s e h =
        let all = id ∷ take limit (Dict.keys d) in
        subst (λ l. Counts s (sync_ids falsy all_answered (take (suc limit) (Dict.keys l)) s))
          (sym e)
          (batch_from id v (take limit (Dict.keys d)) (find_missing_ids s all) s
            (ap (λ l. Dict.get l id) e ∙ get_first id v d) (find_missing_online all s h))

  prefer-none : (o : Option V) → o ≡ prefer o none
  prefer-none none = refl
  prefer-none (some v) = refl

  stored_empty :
      (s : Stores V) (id : String) → s.redis ≡ [] → Dict.get s.postgres id ≡ stored_for s id
  unfolding Dict.get
  stored_empty s id e =
      prefer-none (Dict.get s.postgres id)
      ∙ ap (λ l. prefer (Dict.get s.postgres id) (Dict.get l id)) (sym e)

  drain_next_counted :
      (rest : Stores V → ℕ × Stores V) (r : ℕ × Stores V)
      → 0 < r.0
      → (drain_next rest r).1 ≡ (rest r.1).1
  drain_next_counted rest (zero, s) h = absurd (omega (arith, h))
  drain_next_counted rest (suc n, s) h = refl

  module _ (falsy : V → Bool) (full : (v : V) → falsy v ≡ false) (limit : ℕ) where
    sync_batch_empty :
        (s : Stores V) → s.redis ≡ [] → sync_batch falsy all_answered (suc limit) s ≡ (0, s)
    unfolding sync_batch Dict.keys
    sync_batch_empty s e =
        subst (λ l. sync_ids falsy all_answered (take (suc limit) (Dict.keys l)) s ≡ (0, s)) (sym e)
          refl

    drain_fixed :
        (n : ℕ) (s : Stores V) → s.redis ≡ [] → (drain falsy (rounds_of n) (suc limit) s).1 ≡ s
    unfolding drain
    drain_fixed zero s e = refl
    drain_fixed (suc n) s e =
        let rest = drain falsy (rounds_of n) (suc limit) in
        ap (λ r. (drain_next rest r).1) (sync_batch_empty s e)

    drain_to_empty :
        (n : ℕ) (s : Stores V) (d : Dict V)
        → s.redis ≡ d
        → s.connected ≡ true
        → length d ≤ n
        → (drain falsy (rounds_of n) (suc limit) s).1.redis ≡ []
    unfolding drain
    drain_to_empty n s [] e h m = ap (λ t. t.redis) (drain_fixed n s e) ∙ e
    drain_to_empty zero s ((id, v) ∷ d) e h m = absurd (omega (arith, m))
    drain_to_empty (suc n) s ((id, v) ∷ d) e h m =
        let r = sync_batch falsy all_answered (suc limit) s in
        let c = sync_batch-Counts falsy full limit id v d s e h in
        let k = sync_batch-Keeps falsy all_answered (suc limit) s h in
        ap (λ t. t.redis) (drain_next_counted (drain falsy (rounds_of n) (suc limit)) r c.counted)
        ∙ drain_to_empty n r.1 r.1.redis refl (k.online ∙ h)
            (omega (arith, c.fewer, m, ap length e))

    -- With PostgreSQL connected, every call answered, a batch limit above 0 and no empty dataset, the
    -- rounds of `start`, at least one for each key, empty Redis, and PostgreSQL then holds for every
    -- id what the databases held together before.
    pub drain_stores_all :
        (n : ℕ) (s : Stores V) (id : String)
        → s.connected ≡ true
        → length s.redis ≤ n
        → ((drain falsy (rounds_of n) (suc limit) s).1.redis ≡ [])
          × (Dict.get (drain falsy (rounds_of n) (suc limit) s).1.postgres id ≡ stored_for s id)
    drain_stores_all n s id h m =
        let t = (drain falsy (rounds_of n) (suc limit) s).1 in
        let e = drain_to_empty n s s.redis refl h m in
        let k = drain-Keeps falsy (rounds_of n) (suc limit) s h in
        (e, stored_empty t id e ∙ k.same id)
