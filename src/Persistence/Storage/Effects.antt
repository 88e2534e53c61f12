-- ===== src/Persistence/Storage/Effects.antt =====
-- storage.py: the calls of a request, each of which may raise.

use havoc_forge.Base.{
  String, Bool, true, false, Option, none, some, List, arith, ◌≡◌, refl, inl, inr, Bool-cases,
  if◌then◌else◌,
}
use havoc_forge.Base.Dict
use havoc_forge.Base.Dict.{get-set, get-pop}
use havoc_forge.Pregeneration.Worker.{Sent, answered, refused, unanswered}
use havoc_forge.Persistence.BatchSync.{Stores, is_there, loaded}
use havoc_forge.Persistence.Storage.{
  Replies, set_key, delete_row, call, after_copy, retrieve_cold, select_row, retrieve_hot, retrieve,
  told, delete_cold,
}

module _ {V : Type 0} where
  -- What holds of the databases before a call that may raise, and after its effect, holds whatever
  -- comes of the call.
  module _ (P : Stores V → Type 0) where
    pub call_either :
        (answer : Sent) (f : Stores V → Stores V) (s : Stores V)
        → P s
        → P (f s)
        → P (call answer f s).1
    call_either answered f s h k = k
    call_either refused f s h k = h
    call_either unanswered f s h k = k

    after_copy_either : (v : V) (r : Bool × Stores V) → P r.1 → P (after_copy v r).1
    after_copy_either v (true, s) h = h
    after_copy_either v (false, s) h = h

    told_either : (b : Bool) (r : Bool × Stores V) → P r.1 → P (told b r).1
    told_either b (true, s) h = h
    told_either b (false, s) h = h

    pub delete_cold_either :
        (r : Replies) (id : String) (hot : Bool) (res : Bool × Stores V)
        → P res.1
        → P (delete_row id res.1)
        → P (delete_cold r id hot res).1
    delete_cold_either r id hot (false, s) h k = h
    delete_cold_either r id hot (true, s) h k =
        told_either (if hot then true else is_there s.postgres id)
          (call r.cold_deletion (delete_row id) s)
          (call_either r.cold_deletion (delete_row id) s h k)

    module _ (r : Replies) (id : String) (s : Stores V) (h : P s) where
      retrieve_cold_either :
          (o : Option V)
          → ((w : V) → o ≡ some w → P (set_key id w s))
          → P (retrieve_cold r id o s).1
      retrieve_cold_either none k = h
      retrieve_cold_either (some w) k =
          after_copy_either w (call r.setting (set_key id w) s)
            (call_either r.setting (set_key id w) s h (k w refl))

      selected :
          (expired : List String) (w : V)
          → select_row expired id s ≡ some w
          → Dict.get s.postgres id ≡ some w
      selected expired w e = ground (arith, e)

      retrieve_hot_either :
          (expired : List String) (o : Option V)
          → ((w : V) → Dict.get s.postgres id ≡ some w → P (set_key id w s))
          → P (retrieve_hot expired r id o s).1
      retrieve_hot_either expired (some w) k = h
      retrieve_hot_either expired none k = elim (Bool-cases r.select_raises) [
        | inl e ↦ simp e h
        | inr e ↦
            simp e
              (retrieve_cold_either (select_row expired id s) (λ w e. k w (selected expired w e)))
      ]

      pub retrieve_either :
          (expired : List String) (falsy : V → Bool)
          → ((w : V) → Dict.get s.postgres id ≡ some w → P (set_key id w s))
          → P (retrieve expired falsy r id s).1
      retrieve_either expired falsy k = elim (Bool-cases r.get_raises) [
        | inl e ↦ simp e h
        | inr e ↦ simp e (retrieve_hot_either expired (loaded falsy (Dict.get s.redis id)) k)
      ]
