-- ===== src/Server/Stream/Events.antt =====
-- The messages that go out of a batch are those of its first items.
use havoc_forge.Base.{
  ℕ, suc, inl, inr, Bool-cases, String, Option, some, List, [], ◌∷◌, ◌++◌, length, take, ◌≡◌, refl,
  ap,
}
use havoc_forge.Base.Int.{ℤ}
use havoc_forge.Base.Dict.{Dict}
use havoc_forge.Server.UserState.{Values, Meta, FieldMeta, apply_items, apply_stateful_user_batch}
use havoc_forge.Server.Session.{
  Session, BatchItem, ChaosMeta, event, is_full, Message, Delivery, delivered, gone, broken, Turn,
  Exit,
}
use havoc_forge.Server.Stream.{deliver, send_all}

pub append_nil : {A : Type 0} (xs : List A) → xs ++ [] ≡ xs
append_nil [] = refl
append_nil (x ∷ xs) = ap (λ l. x ∷ l) (append_nil xs)

module _ {V : Type 0} where
  -- The messages of items, numbered from `n` on.
  abbrev pub events_of : List String → Option ChaosMeta → ℕ → List (BatchItem V) → List (Message V)
  events_of said m n [] = []
  events_of said m n (x ∷ rest) = event n x said m ∷ events_of said m (suc n) rest

  -- What goes out of a batch is a beginning of it.
  abbrev Begins :
      List String → Option ChaosMeta → ℕ → List (BatchItem V) → List (Message V) → Type 0
  Begins said m n batch sent = sent ≡ events_of said m n (take (length sent) batch)

  deliver-Begins :
      (said : List String) (m : Option ChaosMeta) (n : ℕ) (x : BatchItem V)
      (batch : List (BatchItem V)) (d : Delivery) (rest : List (Message V) × Exit)
      → Begins said m (suc n) batch rest.0
      → Begins said m n (x ∷ batch) (deliver d (event n x said m) rest).0
  deliver-Begins said m n x batch delivered (sent, exit) h = ap (λ l. event n x said m ∷ l) h
  deliver-Begins said m n x batch gone rest h = refl
  deliver-Begins said m n x batch broken rest h = refl

  pub send_all-Begins :
      (ses : Session) (t : Turn V) (said : List String) (m : Option ChaosMeta)
      (batch : List (BatchItem V)) (n : ℕ)
      → Begins said m n batch (send_all ses t said m batch n).0
  unfolding send_all
  send_all-Begins ses t said m [] n = refl
  send_all-Begins ses t said m (x ∷ batch) n = elim (Bool-cases (is_full ses.max_events n)) [
    | inl e ↦ rw e refl
    | inr e ↦ rw e (
        deliver-Begins said m n x batch (t.delivery n) (send_all ses t said m batch (suc n))
          (send_all-Begins ses t said m batch (suc n)))
  ]

module _ {V : Type 0} (values : Values V) (ses : Session) (t : Turn V) where
  abbrev pub updated_by : List (Dict V) → Dict ℤ → Option (List (Dict V) × Dict ℤ)
  updated_by raw state =
      apply_stateful_user_batch values raw state ses.stateful_meta ses.cfg.increment_mode
        t.state_time

  pub no_items :
      (state : Dict ℤ) (m : Meta)
      → apply_stateful_user_batch values [] state m ses.cfg.increment_mode t.state_time
        ≡ some ([], state)
  unfolding apply_stateful_user_batch apply_items
  no_items state m = by_fields m.fields
    where
      by_fields :
          (fields : List FieldMeta)
          → apply_stateful_user_batch values [] state
              (record m { fields = fields })
              ses.cfg.increment_mode
              t.state_time
            ≡ some ([], state)
      by_fields [] = refl
      by_fields (f ∷ fields) = refl
