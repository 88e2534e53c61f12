-- ===== src/Persistence/BatchSync/Kept.antt =====
-- batch_sync.py: no dataset gets lost on its way from Redis to PostgreSQL.
use mathlib.Core.Path.{subst}
use havoc_forge.Base.{
  ℕ, zero, suc, String, Bool, true, false, not, Option, none, some, List, [], ◌∷◌, take, ◌==◌,
  eq_iff, if◌then◌else◌, ◌≡◌, refl, sym, ap, ◌∙◌, arith, ◌⊎◌, inl, inr, Bool-cases,
}
use havoc_forge.Base.Dict
use havoc_forge.Base.Dict.{Dict, mem_str, get-set, get-pop}
use havoc_forge.Base.Find.{All, keep}
use havoc_forge.Pregeneration.Worker.{Sent, answered, refused, unanswered}
use havoc_forge.Persistence.BatchSync.Existing.{existing_from}
use havoc_forge.Persistence.BatchSync.{
  Stores, Calls, is_there, find_missing_ids, insert, delete, after_delete, clean_next, clean,
  move_by, move_next, move_all, total_of, after_clean, existing_ids, sync_ids, sync_batch,
  drain_next, drain, loaded,
}

-- Of two answers the first that is there.
abbrev pub prefer : {V : Type 0} → Option V → Option V → Option V
prefer none o = o
prefer (some v) o = some v

module _ {V : Type 0} where
  -- What the databases hold for an id, PostgreSQL first.
  abbrev pub stored_for : Stores V → String → Option V
  stored_for s id = prefer (Dict.get s.postgres id) (Dict.get s.redis id)

  pub record Keeps (s s' : Stores V) : Type 0 where
    pub same : (id : String) → stored_for s' id ≡ stored_for s id
    pub grows : (id : String) → is_there s.postgres id ≡ true → is_there s'.postgres id ≡ true
    pub online : s'.connected ≡ s.connected
    pub shrinks :
        (id : String) → (Dict.get s'.redis id ≡ none) ⊎ (Dict.get s'.redis id ≡ Dict.get s.redis id)

  Keeps-refl : (s : Stores V) → Keeps s s
  Keeps-refl s = record {
    same = λ id. refl;
    grows = λ id h. h;
    online = refl;
    shrinks = λ id. inr refl;
  }

  shrinks_trans :
      {a b c : Option V} → (b ≡ none) ⊎ (b ≡ a) → (c ≡ none) ⊎ (c ≡ b) → (c ≡ none) ⊎ (c ≡ a)
  shrinks_trans p (inl e) = inl e
  shrinks_trans (inl d) (inr e) = inl (e ∙ d)
  shrinks_trans (inr d) (inr e) = inr (e ∙ d)

  Keeps-trans : {s t u : Stores V} → Keeps s t → Keeps t u → Keeps s u
  Keeps-trans a b = record {
    same = λ id. b.same id ∙ a.same id;
    grows = λ id h. b.grows id (a.grows id h);
    online = b.online ∙ a.online;
    shrinks = λ id. shrinks_trans (a.shrinks id) (b.shrinks id);
  }

  prefer_there :
      (d : Dict V) (id : String) (a b : Option V)
      → is_there d id ≡ true
      → prefer (Dict.get d id) a ≡ prefer (Dict.get d id) b
  prefer_there d id a b h = ground arith

  delete-Keeps :
      (id : String) (s : Stores V) → is_there s.postgres id ≡ true → Keeps s (delete id s)
  delete-Keeps id s h = record {
    same = λ j. elim (Bool-cases (id == j)) [
      | inl e ↦
          let is : id ≡ j = (eq_iff id j).0 e in
          prefer_there s.postgres j (Dict.get (Dict.pop s.redis id) j) (Dict.get s.redis j)
            (subst (λ k. is_there s.postgres k ≡ true) is h)
      | inr e ↦ ap (prefer (Dict.get s.postgres j)) (get-pop s.redis id j ∙ rw e refl)
    ];
    grows = λ j g. g;
    online = refl;
    shrinks = λ j. elim (Bool-cases (id == j)) [
      | inl e ↦ inl (get-pop s.redis id j ∙ rw e refl)
      | inr e ↦ inr (get-pop s.redis id j ∙ rw e refl)
    ];
  }

  get-insert :
      (id : String) (v : V) (s : Stores V) (j : String)
      → Dict.get (insert id v s).postgres j
        ≡ (if id == j then prefer (Dict.get s.postgres id) (some v) else Dict.get s.postgres j)
  get-insert id v s j = ground (arith, get-set s.postgres id v j, eq_iff id j)

  insert_there : (id : String) (v : V) (s : Stores V) → is_there (insert id v s).postgres id ≡ true
  insert_there id v s = ground (arith, get-insert id v s id, eq_iff id id)

  insert-Keeps :
      (id : String) (v : V) (s : Stores V) → Dict.get s.redis id ≡ some v → Keeps s (insert id v s)
  insert-Keeps id v s h = record {
    same = λ j. ground (arith, get-insert id v s j, eq_iff id j, h);
    grows = λ j g. ground (arith, get-insert id v s j, eq_iff id j, g);
    online = refl;
    shrinks = λ j. inr refl;
  }

  after_delete-Keeps :
      (answer : Sent) (id : String) (s : Stores V)
      → is_there s.postgres id ≡ true
      → Keeps s (after_delete answer id s)
  after_delete-Keeps answered id s h = delete-Keeps id s h
  after_delete-Keeps refused id s h = Keeps-refl s
  after_delete-Keeps unanswered id s h = delete-Keeps id s h

  move_by-Keeps :
      (inserting deleting : Sent) (id : String) (v : V) (s : Stores V)
      → Dict.get s.redis id ≡ some v
      → Keeps s (move_by inserting deleting id v s).1
  move_by-Keeps answered d id v s h =
      Keeps-trans (insert-Keeps id v s h)
        (after_delete-Keeps d id (insert id v s) (insert_there id v s))
  move_by-Keeps refused d id v s h = Keeps-refl s
  move_by-Keeps unanswered d id v s h = insert-Keeps id v s h

  loaded-found : (falsy : V → Bool) (o : Option V) (v : V) → loaded falsy o ≡ some v → o ≡ some v
  loaded-found falsy o v h = ground (arith, h)

  -- A loop's rest keeps what it starts with.
  abbrev KeepsFrom : (Stores V → Bool × ℕ × Stores V) → Type 0
  KeepsFrom rest = (s : Stores V) → Keeps s (rest s).2

  module _ (falsy : V → Bool) (calls : Calls) where
    move_next-Keeps :
        (o : Option V) (id : String) (s : Stores V) (rest : Stores V → Bool × ℕ × Stores V)
        → ((v : V) → o ≡ some v → Dict.get s.redis id ≡ some v)
        → KeepsFrom rest
        → Keeps s (move_next falsy calls o id s rest).2
    move_next-Keeps none id s rest h k = k s
    move_next-Keeps (some v) id s rest h k =
        let moved = move_by (calls.inserting id) (calls.deleting id) id v s in
        Keeps-trans (move_by-Keeps (calls.inserting id) (calls.deleting id) id v s (h v refl))
          (k moved.1)

    move_all-Keeps : (ids : List String) (s : Stores V) → Keeps s (move_all falsy calls ids s).2
    unfolding move_all
    move_all-Keeps [] s = Keeps-refl s
    move_all-Keeps (id ∷ ids) s = elim (Bool-cases (calls.get_raises id)) [
      | inl e ↦ rw e (Keeps-refl s)
      | inr e ↦ rw e (
          move_next-Keeps (loaded falsy (Dict.get s.redis id)) id s (move_all falsy calls ids)
            (λ v h. loaded-found falsy (Dict.get s.redis id) v h) (move_all-Keeps ids))
    ]

  abbrev AllThere : List String → Stores V → Type 0
  AllThere ids s = All (λ id. is_there s.postgres id ≡ true) ids

  clean_next-Keeps :
      (answer : Sent) (id : String) (s : Stores V) (rest : Stores V → Bool × ℕ × Stores V)
      → is_there s.postgres id ≡ true
      → Keeps (delete id s) (rest (delete id s)).2
      → Keeps s (clean_next answer id s rest).2
  clean_next-Keeps answered id s rest h k = Keeps-trans (delete-Keeps id s h) k
  clean_next-Keeps refused id s rest h k = Keeps-refl s
  clean_next-Keeps unanswered id s rest h k = delete-Keeps id s h

  clean-Keeps :
      (calls : Calls) (ids : List String) (s : Stores V)
      → AllThere ids s
      → Keeps s (clean calls ids s).2
  unfolding clean
  clean-Keeps calls [] s h = Keeps-refl s
  clean-Keeps calls (id ∷ ids) s h =
      clean_next-Keeps (calls.cleaning id) id s (clean calls ids) h.0
        (clean-Keeps calls ids (delete id s) h.1)

  total_of-stores : (n : ℕ) (r : Bool × ℕ × Stores V) → r.2 ≡ (total_of n r).1
  total_of-stores n (true, m, s) = refl
  total_of-stores n (false, m, s) = refl

  pub find_missing_online :
      (ids : List String) (s : Stores V)
      → s.connected ≡ true
      → find_missing_ids s ids ≡ keep (λ id. not (is_there s.postgres id)) ids
  find_missing_online ids s h =
      ap (λ (b : Bool). if b then keep (λ id. not (is_there s.postgres id)) ids else []) h

  module _ (falsy : V → Bool) (calls : Calls) where
    after_clean-Keeps :
        (missing : List String) (r : Bool × ℕ × Stores V)
        → Keeps r.2 (after_clean falsy calls missing r).1
    after_clean-Keeps missing (true, n, s) = Keeps-refl s
    after_clean-Keeps [] (false, n, s) = Keeps-refl s
    after_clean-Keeps (id ∷ missing) (false, n, s) =
        subst (λ t. Keeps s t) (total_of-stores n (move_all falsy calls (id ∷ missing) s))
          (move_all-Keeps falsy calls (id ∷ missing) s)

    after_missing-Keeps :
        (missing ids : List String) (s : Stores V)
        → AllThere (existing_ids missing ids) s
        → Keeps s (after_clean falsy calls missing (clean calls (existing_ids missing ids) s)).1
    after_missing-Keeps missing ids s h =
        let cleaned = clean calls (existing_ids missing ids) s in
        Keeps-trans (clean-Keeps calls (existing_ids missing ids) s h)
          (after_clean-Keeps missing cleaned)

    sync_ids-Keeps :
        (ids : List String) (s : Stores V)
        → s.connected ≡ true
        → Keeps s (sync_ids falsy calls ids s).1
    sync_ids-Keeps [] s h = Keeps-refl s
    sync_ids-Keeps (id ∷ ids) s h =
        let all = id ∷ ids in
        let there : AllThere (existing_ids (find_missing_ids s all) all) s =
          subst (λ missing. AllThere (existing_ids missing all) s)
            (sym (find_missing_online all s h))
            (existing_from (is_there s.postgres) all all (λ j m. m)) in
        elim (Bool-cases calls.find_raises) [
          | inl e ↦ simp e (Keeps-refl s)
          | inr e ↦ simp e (after_missing-Keeps (find_missing_ids s all) all s there)
        ]

  pub sync_batch-Keeps :
      (falsy : V → Bool) (calls : Calls) (batch_limit : ℕ) (s : Stores V)
      → s.connected ≡ true
      → Keeps s (sync_batch falsy calls batch_limit s).1
  unfolding sync_batch
  sync_batch-Keeps falsy calls batch_limit s h = elim (Bool-cases calls.keys_raises) [
    | inl e ↦ simp e (Keeps-refl s)
    | inr e ↦ simp e (sync_ids-Keeps falsy calls (take batch_limit (Dict.keys s.redis)) s h)
  ]

  drain_next-Keeps :
      (rest : Stores V → ℕ × Stores V) (r : ℕ × Stores V)
      → Keeps r.1 (rest r.1).1
      → Keeps r.1 (drain_next rest r).1
  drain_next-Keeps rest (zero, s) k = Keeps-refl s
  drain_next-Keeps rest (suc n, s) k = k

  pub drain-Keeps :
      (falsy : V → Bool) (rounds : List Calls) (batch_limit : ℕ) (s : Stores V)
      → s.connected ≡ true
      → Keeps s (drain falsy rounds batch_limit s).1
  unfolding drain
  drain-Keeps falsy [] batch_limit s h = Keeps-refl s
  drain-Keeps falsy (calls ∷ rounds) batch_limit s h =
      let k = sync_batch-Keeps falsy calls batch_limit s h in
      let r = sync_batch falsy calls batch_limit s in
      Keeps-trans k (
        drain_next-Keeps (drain falsy rounds batch_limit) r
          (drain-Keeps falsy rounds batch_limit r.1 (k.online ∙ h)))

  grown :
      (d d' : Dict V) (id : String)
      → (is_there d id ≡ true → is_there d' id ≡ true)
      → (is_there d id ≡ false) ⊎ (is_there d' id ≡ true)
  grown d d' id f = elim (Bool-cases (is_there d id)) [ inl e ↦ inr (f e) | inr e ↦ inl e ]

  -- With PostgreSQL connected, the rounds of `start` keep for every id the dataset that the databases
  -- hold together, PostgreSQL's first, whichever of their calls raise and whether a call that raised
  -- came through or not; and an id that PostgreSQL has it never loses.
  pub drain_loses_nothing :
      (falsy : V → Bool) (rounds : List Calls) (batch_limit : ℕ) (s : Stores V) (id : String)
      → s.connected ≡ true
      → (stored_for (drain falsy rounds batch_limit s).1 id ≡ stored_for s id)
        × ((is_there s.postgres id ≡ false)
            ⊎ (is_there (drain falsy rounds batch_limit s).1.postgres id ≡ true))
  drain_loses_nothing falsy rounds batch_limit s id h =
      let t = (drain falsy rounds batch_limit s).1 in
      let k = drain-Keeps falsy rounds batch_limit s h in
      (k.same id, grown s.postgres t.postgres id (k.grows id))
