-- ===== src/Persistence/Storage.antt =====
-- havocforge/persistence/storage.py: `StorageManager`, with the calls of the two clients. A dataset
-- stands for what a retrieval makes of it, so the fields that `save` adds are left out, and so is how
-- the seed and empty metadata are written to a row. When a key's time to live or a row's `expires_at`
-- passes is a step of its own; a row whose time has passed stays in the table.
pub mod Held
pub mod Effects
pub mod Found
use havoc_forge.Base.{
  ℕ, String, Bool, true, false, Option, none, some, List, [], ◌∷◌, if◌then◌else◌,
}
use havoc_forge.Base.Dict
use havoc_forge.Base.Dict.{mem_str}
use havoc_forge.Base.Find.{keep}
use havoc_forge.Pregeneration.Worker.{Sent, answered, refused, unanswered}
use havoc_forge.Persistence.BatchSync.{Stores, Calls, is_there, delete, loaded, sync_batch}

-- How the calls of a request come out: `redis.get`, `postgres.get`, `redis.set` and the deletions.
pub record Replies : Type 0 where
  pub get_raises : Bool
  pub select_raises : Bool
  pub setting : Sent
  pub hot_deletion : Sent
  pub cold_deletion : Sent

module _ {V : Type 0} where
  abbrev pub set_key : String → V → Stores V → Stores V
  set_key id v s = record s { redis = Dict.set s.redis id v }

  abbrev pub delete_row : String → Stores V → Stores V
  delete_row id s = record s { postgres = Dict.pop s.postgres id }

  -- Whether a call returns, and the databases after it.
  abbrev pub call : Sent → (Stores V → Stores V) → Stores V → Bool × Stores V
  call answered f s = (true, f s)
  call refused f s = (false, s)
  call unanswered f s = (false, f s)

  -- `save` with the id that was generated; it raises where the call does.
  abbrev pub save_dataset : Replies → String → V → Stores V → Bool × Stores V
  save_dataset r id v s = call r.setting (set_key id v) s

  abbrev pub after_copy : V → Bool × Stores V → Option (Option V) × Stores V
  after_copy v (true, s) = (some (some v), s)
  after_copy v (false, s) = (none, s)

  abbrev pub retrieve_cold : Replies → String → Option V → Stores V → Option (Option V) × Stores V
  retrieve_cold r id none s = (some none, s)
  retrieve_cold r id (some v) s = after_copy v (call r.setting (set_key id v) s)

  module _ (expired : List String) where
    -- `WHERE id = $1 AND expires_at > NOW()`
    abbrev pub select_row : String → Stores V → Option V
    select_row id s = if mem_str id expired then none else Dict.get s.postgres id

    abbrev pub retrieve_hot : Replies → String → Option V → Stores V → Option (Option V) × Stores V
    retrieve_hot r id none s =
        if r.select_raises then (none, s) else retrieve_cold r id (select_row id s) s
    retrieve_hot r id (some v) s = (some (some v), s)

    -- `retrieve`: none where it raises.
    abbrev pub retrieve : (V → Bool) → Replies → String → Stores V → Option (Option V) × Stores V
    retrieve falsy r id s =
        if r.get_raises then (none, s) else retrieve_hot r id (loaded falsy (Dict.get s.redis id)) s

  abbrev pub told : Bool → Bool × Stores V → Option Bool × Stores V
  told found (true, s) = (some found, s)
  told found (false, s) = (none, s)

  abbrev pub delete_cold : Replies → String → Bool → Bool × Stores V → Option Bool × Stores V
  delete_cold r id hot (true, s) =
      told (if hot then true else is_there s.postgres id) (call r.cold_deletion (delete_row id) s)
  delete_cold r id hot (false, s) = (none, s)

  -- `StorageManager.delete`
  abbrev pub delete_both : Replies → String → Stores V → Option Bool × Stores V
  delete_both r id s = delete_cold r id (is_there s.redis id) (call r.hot_deletion (delete id) s)

-- What happens to the databases: requests, the batch sync, and that a key of Redis or a row expires.
pub data StorageCall (V : Type 0) : Type 0 where
  saving : Replies → String → V → StorageCall V
  retrieving : Replies → String → StorageCall V
  deleting : Replies → String → StorageCall V
  syncing : Calls → ℕ → StorageCall V
  key_expires : String → StorageCall V
  row_expires : String → StorageCall V

-- The ids of the expired rows that are still in the table.
abbrev pub still_there : {V : Type 0} → List String → Stores V → List String
still_there expired s = keep (λ id. is_there s.postgres id) expired

module _ {V : Type 0} (falsy : V → Bool) where
  abbrev pub act : StorageCall V → List String × Stores V → List String × Stores V
  act (saving r id v) (expired, s) = (expired, (save_dataset r id v s).1)
  act (retrieving r id) (expired, s) = (expired, (retrieve expired falsy r id s).1)
  act (deleting r id) (expired, s) = let s' = (delete_both r id s).1 in (still_there expired s', s')
  act (syncing calls batch_limit) (expired, s) = (expired, (sync_batch falsy calls batch_limit s).1)
  act (key_expires id) (expired, s) = (expired, delete id s)
  act (row_expires id) (expired, s) = (still_there (id ∷ expired) s, s)

  abbrev pub act_all : List (StorageCall V) → List String × Stores V → List String × Stores V
  act_all [] state = state
  act_all (q ∷ qs) state = act_all qs (act q state)
