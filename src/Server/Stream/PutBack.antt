-- ===== src/Server/Stream/PutBack.antt =====
-- The lengths of batches, and what `retain` puts back.
use havoc_forge.Base.{
  ℕ, suc, ◌+◌, ◌≤◌, String, true, Option, none, some, List, [], ◌∷◌, ◌++◌, length, length-append,
  length-drop, take-append-drop, take, drop, ◌≡◌, refl, sym, ap, ◌∙◌, arith, inl, inr, Bool-cases,
  Option-cases, eq_refl,
}
use mathlib.Core.List.{reverse, reverse_aux, reverse_aux-eq}
use havoc_forge.Base.Int.{ℤ}
use havoc_forge.Base.Dict.{Dict, get-set}
use havoc_forge.Pregeneration.Worker.{Redis, answered, queue, queue_key, lpush}
use havoc_forge.Server.UserState.{
  Values, Meta, Mode, elapsed_of, FieldMeta, apply_items, apply_fields, apply_stateful_user_batch,
}
use havoc_forge.Server.Session.{
  Session, BatchItem, ChaosMeta, Message, event, Delivery, delivered, gone, broken, Turn, Exit,
  is_full,
}
use havoc_forge.Server.Stream.{deliver, send_all, push_unsent, retain}

lpush_lem : {A : Type 0} (xs q : List A) → lpush xs q ≡ reverse xs ++ q
unfolding lpush
lpush_lem xs q = in_turn xs q ∙ reverse_aux-eq xs q
  where
    in_turn : {A : Type 0} (xs q : List A) → lpush xs q ≡ reverse_aux xs q
    in_turn [] q = refl
    in_turn (x ∷ xs) q = in_turn xs (x ∷ q)

length-lpush : {A : Type 0} (xs q : List A) → length (lpush xs q) ≡ length xs + length q
unfolding lpush
length-lpush [] q = omega arith
length-lpush (x ∷ xs) q = omega (arith, length-lpush xs (x ∷ q))

pub length-put_back :
    {A : Type 0} (k n : ℕ) (q : List A)
    → k ≤ length (take n q)
    → k + length (reverse (drop k (take n q)) ++ drop n q) ≡ length q
length-put_back k n q h =
    let batch = take n q in
    let put : length (reverse (drop k batch) ++ drop n q)
        ≡ length (drop k batch) + length (drop n q) =
      ap length (sym (lpush_lem (drop k batch) (drop n q)))
      ∙ length-lpush (drop k batch) (drop n q) in
    let whole : length batch + length (drop n q) ≡ length q =
      sym (length-append batch (drop n q)) ∙ ap length (take-append-drop n q) in
    omega (arith, put, whole, length-drop k batch, h)

abbrev pub OfLength : {A B : Type 0} → ℕ → Option (List A × B) → Type 0
OfLength n none = Unit
OfLength n (some p) = length p.0 ≡ n

module _ {V : Type 0} (values : Values V) where
  length-apply_items :
      (elapsed : Option ℤ) (fields : List FieldMeta) (raw : List (Dict V)) (state : Dict ℤ)
      → OfLength (length raw) (apply_items values elapsed fields raw state)
  unfolding apply_items
  length-apply_items elapsed fields [] state = refl
  length-apply_items elapsed fields (item ∷ raw) state =
      elim (Option-cases (apply_fields values elapsed fields item state)) [
        | inl n ↦ rw (n, OfLength) tt
        | inr (p, n) ↦
            rw (n, OfLength)
              (with_rest p.0 (apply_items values elapsed fields raw p.1)
                (length-apply_items elapsed fields raw p.1))
      ]
    where
      with_rest :
          (payload : Dict V) (o : Option (List (Dict V) × Dict ℤ))
          → OfLength (length raw) o
          → OfLength (suc (length raw)) (elim o [
            | none ↦ none
            | some q ↦ let (out, state'') = q in some (payload ∷ out, state'')
          ])
      with_rest payload none h = tt
      with_rest payload (some q) h = ap suc h

  pub length-apply_stateful :
      (raw : List (Dict V)) (state : Dict ℤ) (m : Meta) (mode : Mode) (now : ℤ)
      → OfLength (length raw) (apply_stateful_user_batch values raw state m mode now)
  unfolding apply_stateful_user_batch
  length-apply_stateful raw state m mode now = by_fields m.fields
    where
      by_fields :
          (fields : List FieldMeta)
          → OfLength
              (length raw)
              (apply_stateful_user_batch values raw state (record m { fields = fields }) mode now)
      by_fields [] = refl
      by_fields (f ∷ fields) =
          length-apply_items (elapsed_of mode (record m { fields = f ∷ fields }) now) (f ∷ fields)
            raw state

module _ {V X : Type 0} (ses : Session) where
  abbrev pub stored : Redis (Dict V) X → List (Dict V)
  stored = queue ses.cfg.pregen ses.schema

  -- After `k` items of a batch were sent, the others are at the front of the queue, the last first.
  pub record PutBack (raw : List (Dict V)) (k : ℕ) (before after : Redis (Dict V) X) : Type 0 where
    pub in_queue : stored after ≡ reverse (drop k raw) ++ stored before
    pub counters : after.counters ≡ before.counters

  module _ (t : Turn V) (answers : t.push_back ≡ answered) where
    push_unsent-PutBack :
        (unsent : List (Dict V)) (r : Redis (Dict V) X)
        → PutBack unsent 0 r (push_unsent ses t unsent r).1
    push_unsent-PutBack [] r = record { in_queue = refl; counters = refl }
    push_unsent-PutBack (x ∷ unsent) r = rw answers (record {
      in_queue =
          rw get-set (
            rw (eq_refl (queue_key ses.cfg.pregen ses.schema)) (lpush_lem (x ∷ unsent) (stored r)));
      counters = refl;
    })

    pub retain-PutBack :
        (raw : List (Dict V)) (k : ℕ) (r : Redis (Dict V) X)
        → ses.cfg.batch_retention ≡ true
        → PutBack raw k r (retain ses t raw k r).1
    unfolding retain
    retain-PutBack raw k r retention =
        let h = push_unsent-PutBack (drop k raw) r in
        rw (retain, retention) (record { in_queue = h.in_queue; counters = h.counters })

module _ {V : Type 0} (ses : Session) (t : Turn V) (said : List String) (m : Option ChaosMeta) where
  length-deliver :
      (d : Delivery) (msg : Message V) (rest : List (Message V) × Exit)
      → length (deliver d msg rest).0 ≤ suc (length rest.0)
  length-deliver delivered msg rest = omega arith
  length-deliver gone msg rest = omega arith
  length-deliver broken msg rest = omega arith

  pub length-send_all :
      (batch : List (BatchItem V)) (seq : ℕ)
      → length (send_all ses t said m batch seq).0 ≤ length batch
  unfolding send_all
  length-send_all [] seq = omega arith
  length-send_all (x ∷ batch) seq = elim (Bool-cases (is_full ses.max_events seq)) [
    | inl e ↦ rw e (omega arith)
    | inr e ↦
        let rest = send_all ses t said m batch (suc seq) in
        rw e (
          omega (
            arith,
            length-deliver (t.delivery seq) (event seq x said m) rest,
            length-send_all batch (suc seq),
          ))
  ]
