-- ===== src/Tests/Persistence.antt =====
-- Batch sync at concrete databases. A dataset is a number, and 0 is empty.
use havoc_forge.Base.{ℕ, Bool, true, false, none, some, List, [], ◌∷◌, eqb, ◌≡◌, ◌⊎◌, refl, arith}
use havoc_forge.Base.Dict
use havoc_forge.Pregeneration.Worker.{answered, refused, unanswered}
use havoc_forge.Persistence.BatchSync.{Stores, Calls, is_there, sync_batch, drain}
use havoc_forge.Persistence.BatchSync.Kept.{stored_for, drain_loses_nothing}
use havoc_forge.Persistence.BatchSync.Moves.{all_answered, rounds_of}
use havoc_forge.Persistence.Storage.{
  Replies, save_dataset, retrieve, StorageCall, retrieving, deleting, syncing, key_expires,
  row_expires, act_all,
}
use havoc_forge.Persistence.Storage.Found.{all_well, saved_is_found}
use havoc_forge.Persistence.BatchSync.Drained.{drain_stores_all}

abbrev stores : Stores ℕ
stores = record {
  redis = ("a", 1) ∷ ("b", 2) ∷ ("c", 3) ∷ [];
  postgres = ("b", 5) ∷ [];
  connected = true;
}

abbrev falsy : ℕ → Bool
falsy n = eqb n 0

abbrev never : ℕ → Bool
never n = false

-- The reply to every insert gets lost.
abbrev troubled : Calls
troubled = record {
  keys_raises = false;
  find_raises = false;
  cleaning = λ id. answered;
  get_raises = λ id. false;
  inserting = λ id. unanswered;
  deleting = λ id. refused;
}

troubled_batch : sync_batch falsy troubled 3 stores ≡ (
  1,
  record {
    redis = ("a", 1) ∷ ("c", 3) ∷ [];
    postgres = ("b", 5) ∷ ("a", 1) ∷ ("c", 3) ∷ [];
    connected = true;
  },
)
unfolding sync_batch Dict.keys Dict.get Dict.pop Dict.set
troubled_batch = refl

answered_batch :
    sync_batch falsy all_answered 2 stores
    ≡ (2, record { redis = ("c", 3) ∷ []; postgres = ("b", 5) ∷ ("a", 1) ∷ []; connected = true })
unfolding sync_batch Dict.keys Dict.get Dict.pop Dict.set
answered_batch = refl

drain_loses_nothing_example :
    (stored_for (drain falsy (troubled ∷ all_answered ∷ []) 3 stores).1 "b" ≡ stored_for stores "b")
    × ((is_there stores.postgres "b" ≡ false)
        ⊎ (is_there (drain falsy (troubled ∷ all_answered ∷ []) 3 stores).1.postgres "b" ≡ true))
drain_loses_nothing_example =
    drain_loses_nothing falsy (troubled ∷ all_answered ∷ []) 3 stores "b" refl

drain_stores_all_example :
    ((drain never (rounds_of 3) 2 stores).1.redis ≡ [])
    × (Dict.get (drain never (rounds_of 3) 2 stores).1.postgres "a" ≡ stored_for stores "a")
drain_stores_all_example = drain_stores_all never (λ v. refl) 1 3 stores "a" refl (omega arith)

-- The reply to a call is lost, and so is a deletion.
abbrev shaky : Replies
shaky = record {
  get_raises = false;
  select_raises = false;
  setting = unanswered;
  hot_deletion = unanswered;
  cold_deletion = refused;
}

-- `d` is moved to PostgreSQL, copied back to Redis while `c` is deleted, and taken off again.
abbrev requests : List (StorageCall ℕ)
requests =
    syncing troubled 4
    ∷ row_expires "b"
    ∷ key_expires "a"
    ∷ retrieving shaky "d"
    ∷ syncing all_answered 4
    ∷ deleting shaky "c"
    ∷ retrieving all_well "d"
    ∷ []

requests_run : act_all falsy requests ([], (save_dataset all_well "d" 7 stores).1) ≡ (
  "b" ∷ [],
  record {
    redis = ("d", 7) ∷ [];
    postgres = ("b", 5) ∷ ("a", 1) ∷ ("c", 3) ∷ ("d", 7) ∷ [];
    connected = true;
  },
)
unfolding sync_batch Dict.keys Dict.get Dict.pop Dict.set
requests_run = refl

saved_is_found_example :
    let (expired, s) = act_all falsy requests ([], (save_dataset all_well "d" 7 stores).1) in
    (((retrieve expired falsy shaky "d" s).0 ≡ none)
      ⊎ ((retrieve expired falsy shaky "d" s).0 ≡ some (some 7)))
    × ((retrieve expired falsy all_well "d" s).0 ≡ some (some 7))
unfolding Dict.get
saved_is_found_example =
    saved_is_found falsy "d" 7 all_well shaky [] stores requests refl refl refl refl refl
      (refl, (refl, (refl, (refl, (refl, (refl, (refl, tt)))))))
