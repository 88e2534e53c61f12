-- ===== src/Persistence/Storage/Found.antt =====
-- storage.py: a dataset that was saved is found.
use mathlib.Core.Path.{subst}
use havoc_forge.Base.{
  String, Bool, true, false, not, Option, none, some, List, [], ◌∷◌, ◌==◌, eq_iff, ◌≡◌, refl, sym,
  ap, ◌∙◌, arith, inl, inr, ◌⊎◌, Bool-cases,
}
use havoc_forge.Base.Dict
use havoc_forge.Base.Dict.{get-set, get-pop, mem_str}
use havoc_forge.Base.Find.{All, keep}
use havoc_forge.Pregeneration.Worker.{Sent, answered, refused, unanswered}
use havoc_forge.Persistence.BatchSync.{Stores, is_there, delete, loaded}
use havoc_forge.Persistence.BatchSync.Kept.{prefer, sync_batch-Keeps}
use havoc_forge.Persistence.Storage.{
  Replies, set_key, call, save_dataset, after_copy, retrieve_cold, retrieve_hot, retrieve,
  StorageCall, saving, retrieving, deleting, syncing, key_expires, row_expires, act, select_row,
  delete_both, act_all,
}
use havoc_forge.Persistence.Storage.Held.{
  Holds, set_key-Untouched, delete-Untouched, delete_row-Untouched, Untouched-Holds, Keeps-Holds,
  get-set_same, copy-Holds,
}
use havoc_forge.Persistence.Storage.Effects.{call_either, delete_cold_either, retrieve_either}

-- A step is about another id, or it is one that does not change datasets.
abbrev pub spares : {V : Type 0} → String → StorageCall V → Bool
spares id (saving r j v) = not (j == id)
spares id (retrieving r j) = true
spares id (deleting r j) = not (j == id)
spares id (syncing calls batch_limit) = true
spares id (key_expires j) = not (j == id)
spares id (row_expires j) = not (j == id)

module _ {V : Type 0} (falsy : V → Bool) (id : String) (v : V) where
  other_id : (j : String) → not (j == id) ≡ true → (j == id) ≡ false
  other_id j h = ground (arith, h)

  copied-Holds :
      (j : String) (s : Stores V)
      → Holds id v s
      → (w : V) → Dict.get s.postgres j ≡ some w
      → Holds id v (set_key j w s)
  copied-Holds j s h w e = elim (Bool-cases (j == id)) [
    | inl same ↦
        let is : j ≡ id = (eq_iff j id).0 same in
        subst (λ k. Holds id v (set_key k w s)) (sym is)
          (copy-Holds id v w s h (subst (λ k. Dict.get s.postgres k ≡ some w) is e))
    | inr other ↦ Untouched-Holds (set_key-Untouched id j other w s) h
  ]

  -- The row is not one that has expired.
  Lives : List String × Stores V → Type 0
  Lives (expired, s) = (mem_str id expired ≡ false) × Holds id v s

  mem-keep :
      (p : String → Bool) (l : List String) → mem_str id l ≡ false → mem_str id (keep p l) ≡ false
  mem-keep p [] h = h
  mem-keep p (j ∷ l) h = ground (arith, h, mem-keep p l, eq_iff j id)

  act-Lives :
      (q : StorageCall V) (state : List String × Stores V)
      → spares id q ≡ true
      → Lives state
      → Lives (act falsy q state)
  unfolding Lives
  act-Lives (saving r j w) (expired, s) p (live, h) = (
    live,
    call_either (Holds id v) r.setting (set_key j w) s h
        (Untouched-Holds (set_key-Untouched id j (other_id j p) w s) h),
  )
  act-Lives (retrieving r j) (expired, s) p (live, h) =
      (live, retrieve_either (Holds id v) r j s h expired falsy (copied-Holds j s h))
  act-Lives (deleting r j) (expired, s) p (live, h) =
      let other = other_id j p in
      let hot_gone = call r.hot_deletion (delete j) s in
      let g =
        call_either (Holds id v) r.hot_deletion (delete j) s h
          (Untouched-Holds (delete-Untouched id j other s) h) in
      (
        mem-keep (λ k. is_there (delete_both r j s).1.postgres k) expired live,
        delete_cold_either (Holds id v) r j (is_there s.redis j) hot_gone g
            (Untouched-Holds (delete_row-Untouched id j other hot_gone.1) g),
      )
  act-Lives (syncing calls batch_limit) (expired, s) p (live, h) =
      (live, Keeps-Holds (sync_batch-Keeps falsy calls batch_limit s h.online) h)
  act-Lives (key_expires j) (expired, s) p (live, h) =
      (live, Untouched-Holds (delete-Untouched id j (other_id j p) s) h)
  act-Lives (row_expires j) (expired, s) p (live, h) =
      let apart : mem_str id (j ∷ expired) ≡ false = rw (other_id j p) live in
      (mem-keep (λ k. is_there s.postgres k) (j ∷ expired) apart, h)

  act_all-Lives :
      (qs : List (StorageCall V)) (state : List String × Stores V)
      → All (λ q. spares id q ≡ true) qs
      → Lives state
      → Lives (act_all falsy qs state)
  act_all-Lives [] state p h = h
  act_all-Lives (q ∷ qs) state p h =
      act_all-Lives qs (act falsy q state) p.1 (act-Lives q state p.0 h)

  -- What a retrieval may answer: it raises, or it finds the dataset; and it finds it where its calls
  -- are answered.
  record Finds (r : Replies) (res : Option (Option V)) : Type 0 where
    only : (res ≡ none) ⊎ (res ≡ some (some v))
    found :
        r.get_raises ≡ false → r.select_raises ≡ false → r.setting ≡ answered → res ≡ some (some v)

  found_now : (r : Replies) → Finds r (some (some v))
  found_now r = record { only = inr refl; found = λ g c a. refl }

  after_copy_answer :
      (r : Replies) (answer : Sent) (f : Stores V → Stores V) (s : Stores V)
      → r.setting ≡ answer
      → Finds r (after_copy v (call answer f s)).0
  after_copy_answer r answered f s e = found_now r
  after_copy_answer r refused f s e = record { only = inl refl; found = λ g c a. cc (e, a) }
  after_copy_answer r unanswered f s e = record { only = inl refl; found = λ g c a. cc (e, a) }

  hot_answer :
      (r : Replies) (expired : List String) (s : Stores V) (o : Option V)
      → (o ≡ some v) ⊎ ((o ≡ none) × (select_row expired id s ≡ some v))
      → Finds r (retrieve_hot expired r id o s).0
  hot_answer r expired s o (inl e) =
      subst (λ l. Finds r (retrieve_hot expired r id l s).0) (sym e) (found_now r)
  hot_answer r expired s o (inr (e, c)) =
      subst (λ l. Finds r (retrieve_hot expired r id l s).0) (sym e)
        (elim (Bool-cases r.select_raises) [
          | inl raises ↦ simp raises (record { only = inl refl; found = λ g d a. cc (raises, d) })
          | inr fine ↦ simp fine (
              subst (λ l. Finds r (retrieve_cold r id l s).0) (sym c)
                (after_copy_answer r r.setting (set_key id v) s refl))
        ])

  cold_found : (a b : Option V) → b ≡ none → prefer a b ≡ some v → a ≡ some v
  cold_found none b e h = sym e ∙ h
  cold_found (some w) b e h = h

  loaded_answer :
      (expired : List String) (s : Stores V)
      → falsy v ≡ false
      → mem_str id expired ≡ false
      → Holds id v s
      → (loaded falsy (Dict.get s.redis id) ≡ some v)
        ⊎ ((loaded falsy (Dict.get s.redis id) ≡ none) × (select_row expired id s ≡ some v))
  loaded_answer expired s full live h = elim h.hot [
    | inl e ↦ inr (
      ap (loaded falsy) e,
      rw live (cold_found (Dict.get s.postgres id) (Dict.get s.redis id) e h.kept),
    )
    | inr e ↦ inl (ap (loaded falsy) e ∙ rw full refl)
  ]

  retrieve_answer :
      (r : Replies) (expired : List String) (s : Stores V)
      → falsy v ≡ false
      → Lives (expired, s)
      → Finds r (retrieve expired falsy r id s).0
  unfolding Lives
  retrieve_answer r expired s full (live, h) = elim (Bool-cases r.get_raises) [
    | inl raises ↦ simp raises (record { only = inl refl; found = λ g d a. cc (raises, g) })
    | inr fine ↦ simp fine (
        hot_answer r expired s (loaded falsy (Dict.get s.redis id))
          (loaded_answer expired s full live h))
  ]

  saved-Holds :
      (answer : Sent) (s : Stores V)
      → s.connected ≡ true
      → Dict.get s.postgres id ≡ none
      → (call answer (set_key id v) s).0 ≡ true
      → Holds id v (call answer (set_key id v) s).1
  saved-Holds answered s h new ok =
      let there = get-set_same s.redis id v in
      record {
        online = h;
        hot = inr there;
        kept = ap (λ o. prefer o (Dict.get (Dict.set s.redis id v) id)) new ∙ there;
      }
  saved-Holds refused s h new ok = cc
  saved-Holds unanswered s h new ok = cc

-- Every call of a request is answered.
abbrev pub all_well : Replies
all_well = record {
  get_raises = false;
  select_raises = false;
  setting = answered;
  hot_deletion = answered;
  cold_deletion = answered;
}

-- A dataset that `save` stored under a new id, with PostgreSQL connected, is what a retrieval of the
-- id finds, or the retrieval raises, and it is found where the calls are answered: after any requests
-- and any batches of the sync in between, whichever calls of theirs raise, as long as none of them
-- saves under the id or deletes it, neither its key nor its row expires, and it is not empty.
pub saved_is_found :
    {V : Type 0} (falsy : V → Bool) (id : String) (v : V) (saving_replies r : Replies)
    (expired : List String) (s : Stores V) (qs : List (StorageCall V))
    → s.connected ≡ true
    → Dict.get s.postgres id ≡ none
    → mem_str id expired ≡ false
    → falsy v ≡ false
    → (save_dataset saving_replies id v s).0 ≡ true
    → All (λ q. spares id q ≡ true) qs
    → let (expired', s') = act_all falsy qs (expired, (save_dataset saving_replies id v s).1) in
      (((retrieve expired' falsy r id s').0 ≡ none)
        ⊎ ((retrieve expired' falsy r id s').0 ≡ some (some v)))
      × ((retrieve expired' falsy all_well id s').0 ≡ some (some v))
unfolding Lives
saved_is_found falsy id v saving_replies r expired s qs online new live full ok p =
    let start = (save_dataset saving_replies id v s).1 in
    let h =
      act_all-Lives falsy id v qs (expired, start) p
        (live, saved-Holds falsy id v saving_replies.setting s online new ok) in
    let (expired', t) = act_all falsy qs (expired, start) in
    (
      (retrieve_answer falsy id v r expired' t full h).only,
      (retrieve_answer falsy id v all_well expired' t full h).found refl refl refl,
    )
