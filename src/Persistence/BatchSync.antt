-- ===== src/Persistence/BatchSync.antt =====
-- havocforge/persistence/batch_sync.py, which moves datasets from Redis to PostgreSQL, with the calls
-- of havocforge/persistence/client.py. A dataset stands for the row that it gives, in both databases;
-- the keys of Redis come in the order of the entries. While a batch runs nothing expires.
pub mod Existing
pub mod Kept
pub mod Moves
pub mod Drained
use havoc_forge.Base.{
  ℕ, zero, suc, ◌+◌, String, Bool, true, false, not, Option, none, some, List, [], ◌∷◌, take,
  if◌then◌else◌,
}
use havoc_forge.Base.Dict
use havoc_forge.Base.Dict.{Dict, mem_str}
use havoc_forge.Base.Find.{keep}
use havoc_forge.Pregeneration.Worker.{Sent, answered, refused, unanswered}

-- The two databases; `connected` tells whether the pool of PostgreSQL is there.
pub record Stores (V : Type 0) : Type 0 where
  pub redis : Dict V
  pub postgres : Dict V
  pub connected : Bool

-- How the calls of a batch come out, those for a dataset by its id.
pub record Calls : Type 0 where
  pub keys_raises : Bool
  pub find_raises : Bool
  pub cleaning : String → Sent
  pub get_raises : String → Bool
  pub inserting : String → Sent
  pub deleting : String → Sent

abbrev pub is_there : {V : Type 0} → Dict V → String → Bool
is_there d id = elim (Dict.get d id) [ none ↦ false | some v ↦ true ]

-- `find_missing_ids`: without a pool nothing is missing.
abbrev pub find_missing_ids : {V : Type 0} → Stores V → List String → List String
find_missing_ids s ids = if s.connected then keep (λ id. not (is_there s.postgres id)) ids else []

abbrev pub existing_ids : List String → List String → List String
existing_ids missing ids = keep (λ id. not (mem_str id missing)) ids

-- `if not data: continue`, where falsy tells an empty dataset.
abbrev pub loaded : {V : Type 0} → (V → Bool) → Option V → Option V
loaded falsy none = none
loaded falsy (some v) = if falsy v then none else some v

module _ {V : Type 0} where
  -- `ON CONFLICT (id) DO NOTHING`
  abbrev pub insert : String → V → Stores V → Stores V
  insert id v s = record s {
    postgres = if is_there s.postgres id then s.postgres else Dict.set s.postgres id v;
  }

  abbrev pub delete : String → Stores V → Stores V
  delete id s = record s { redis = Dict.pop s.redis id }

  abbrev pub after_delete : Sent → String → Stores V → Stores V
  after_delete answered id s = delete id s
  after_delete refused id s = s
  after_delete unanswered id s = delete id s

  -- One more dataset is deleted and counted; whether the loop raises is the first part.
  abbrev pub count_one : Bool × ℕ × Stores V → Bool × ℕ × Stores V
  count_one (raised, n, s) = (raised, suc n, s)

  abbrev pub total_of : ℕ → Bool × ℕ × Stores V → ℕ × Stores V
  total_of cleaned (true, n, s) = (0, s)
  total_of cleaned (false, n, s) = (cleaned + n, s)

  abbrev pub add_count : ℕ → Bool × ℕ × Stores V → Bool × ℕ × Stores V
  add_count n (raised, m, s) = (raised, n + m, s)

  abbrev pub clean_next :
      Sent → String → Stores V → (Stores V → Bool × ℕ × Stores V) → Bool × ℕ × Stores V
  clean_next answered id s rest = count_one (rest (delete id s))
  clean_next refused id s rest = (true, 0, s)
  clean_next unanswered id s rest = (true, 0, delete id s)

  -- The inner `try`: how many are counted, and the databases. An insert that came through counts,
  -- also where the deletion after it raises.
  abbrev pub move_by : Sent → Sent → String → V → Stores V → ℕ × Stores V
  move_by answered deleting id v s = (1, after_delete deleting id (insert id v s))
  move_by refused deleting id v s = (0, s)
  move_by unanswered deleting id v s = (0, insert id v s)

  abbrev pub and_then : ℕ × Stores V → (Stores V → Bool × ℕ × Stores V) → Bool × ℕ × Stores V
  and_then (n, s) rest = add_count n (rest s)

  -- The loop over the ids that PostgreSQL has.
  unfoldable pub clean : Calls → List String → Stores V → Bool × ℕ × Stores V
  clean calls [] s = (false, 0, s)
  clean calls (id ∷ ids) s = clean_next (calls.cleaning id) id s (clean calls ids)

  module _ (falsy : V → Bool) (calls : Calls) where
    abbrev pub move_next :
        Option V → String → Stores V → (Stores V → Bool × ℕ × Stores V) → Bool × ℕ × Stores V
    move_next none id s rest = rest s
    move_next (some v) id s rest =
        and_then (move_by (calls.inserting id) (calls.deleting id) id v s) rest

    -- The loop over the missing ids. A `get` that raises ends it: it stands outside the inner `try`.
    unfoldable pub move_all : List String → Stores V → Bool × ℕ × Stores V
    move_all [] s = (false, 0, s)
    move_all (id ∷ ids) s =
        let found = loaded falsy (Dict.get s.redis id) in
        let rest = move_all ids in
        if calls.get_raises id then (true, 0, s) else move_next found id s rest

    abbrev pub after_clean : List String → Bool × ℕ × Stores V → ℕ × Stores V
    after_clean missing (true, n, s) = (0, s)
    after_clean [] (false, n, s) = (n, s)
    after_clean (id ∷ missing) (false, n, s) = total_of n (move_all (id ∷ missing) s)

    abbrev pub sync_ids : List String → Stores V → ℕ × Stores V
    sync_ids [] s = (0, s)
    sync_ids (id ∷ ids) s =
        let missing = find_missing_ids s (id ∷ ids) in
        if calls.find_raises
        then (0, s)
        else after_clean missing (clean calls (existing_ids missing (id ∷ ids)) s)

    -- `_sync_batch`: the number of datasets that were handled, 0 also where something raised.
    unfoldable pub sync_batch : ℕ → Stores V → ℕ × Stores V
    unfolding clean move_all
    sync_batch batch_limit s =
        if calls.keys_raises then (0, s) else sync_ids (take batch_limit (Dict.keys s.redis)) s

  abbrev pub drain_next : (Stores V → ℕ × Stores V) → ℕ × Stores V → ℕ × Stores V
  drain_next rest (zero, s) = (0, s)
  drain_next rest (suc n, s) = let (m, s') = rest s in (suc n + m, s')

  -- The inner loop of `start`: batch after batch, until one handles nothing.
  unfoldable pub drain : (V → Bool) → List Calls → ℕ → Stores V → ℕ × Stores V
  unfolding sync_batch
  drain falsy [] batch_limit s = (0, s)
  drain falsy (calls ∷ rest) batch_limit s =
      drain_next (drain falsy rest batch_limit) (sync_batch falsy calls batch_limit s)
