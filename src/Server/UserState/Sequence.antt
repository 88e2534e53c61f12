-- ===== src/Server/UserState/Sequence.antt =====
-- What a user sees of a stateful field: one increment for each item, across batches.
use havoc_forge.Base.{
  ℕ, zero, suc, String, true, false, ◌≡◌, refl, sym, ap, arith, inl, inr, ◌⊎◌, Bool-cases,
  Option-cases, ◌∙◌, Option, none, some, List, [], ◌∷◌, ◌++◌, length, ◌==◌, eq_refl,
}
use havoc_forge.Base.Int.{ℤ, ◌+ℤ◌}
use havoc_forge.Base.Dict
use havoc_forge.Base.Dict.{Dict, get-set}
use havoc_forge.Base.Find.{All, any}
use havoc_forge.Server.UserState.{
  FieldMeta, sequential, Values, last_value, shown, apply_fields, apply_items,
  apply_stateful_user_batch,
}
use mathlib.Core.Option.{get_or}

-- `v` after `n` increments
pub increased : ℤ → ℕ → ℤ → ℤ
increased by zero v = v
increased by (suc n) v = increased by n (v +ℤ by)

abbrev pub Differs : String → FieldMeta → Type 0
Differs name f = (f.field == name) ≡ false

module _ {V : Type 0} (values : Values V) where
  -- What the field shows in one item after another, `n` of them, when its last value was `v`.
  pub series : FieldMeta → ℕ → ℤ → List (Option V)
  series f zero v = []
  series f (suc n) v = shown values f (v +ℤ f.increment) ∷ series f n (v +ℤ f.increment)

  abbrev pub values_of : String → List (Dict V) → List (Option V)
  values_of name [] = []
  values_of name (item ∷ items) = Dict.get item name ∷ values_of name items

  shown-cases :
      (f : FieldMeta) (v : ℤ)
      → ((shown values f v ≡ none) × (f.is_datetime ≡ true))
        ⊎ ((x : V) × (shown values f v ≡ some x))
  shown-cases f v = elim (Bool-cases f.is_datetime) [
    | inl dated ↦ elim (Option-cases (values.strftime v f.tz f.format)) [
      | inl e ↦ inl (rw (dated, e) refl, dated)
      | inr (x, e) ↦ inr (x, rw (dated, e) refl)
    ]
    | inr plain ↦ inr (values.number v, rw plain refl)
  ]

  -- It raised, which takes a field that holds times.
  abbrev pub Raised : {A : Type 0} → List FieldMeta → Option A → Type 0
  Raised fields res = (res ≡ none) × (any (λ f. f.is_datetime) fields ≡ true)

  -- Fields of other names leave a field alone.
  record Leaves (name : String) (fields : List FieldMeta) (payload : Dict V) (state : Dict ℤ)
      : Type 0 where
    out : Dict V
    after : Dict ℤ
    returns : apply_fields values none fields payload state ≡ some (out, after)
    payload_is : Dict.get out name ≡ Dict.get payload name
    state_is : Dict.get after name ≡ Dict.get state name

  leaves :
      (name : String) (fields : List FieldMeta) (payload : Dict V) (state : Dict ℤ)
      → All (Differs name) fields
      → Raised fields (apply_fields values none fields payload state)
        ⊎ Leaves name fields payload state
  unfolding apply_fields
  leaves name [] payload state h =
      inr (record {
        out = payload;
        after = state;
        returns = refl;
        payload_is = refl;
        state_is = refl;
      })
  leaves name (f ∷ fields) payload state h =
      let v = last_value f state +ℤ f.increment in
      let state' = Dict.set state f.field v in
      elim (shown-cases f v) [
        | inl (e, dated) ↦ inl (rw (apply_fields, e) refl, rw dated refl)
        | inr (x, e) ↦ elim (leaves name fields (Dict.set payload f.field x) state' h.1) [
          | inl (raised, dated) ↦ inl (rw (apply_fields, e) raised, ground (arith, dated))
          | inr rest ↦ inr (record {
            out = rest.out;
            after = rest.after;
            returns = rw (apply_fields, e) rest.returns;
            payload_is = rest.payload_is ∙ rw (get-set payload f.field x name, h.0) refl;
            state_is = rest.state_is ∙ rw (get-set state f.field v name, h.0) refl;
          })
        ]
      ]

  -- One item: the field shows its value and one increment, and the state keeps that.
  record Advances (f : FieldMeta) (fields : List FieldMeta) (payload : Dict V) (state : Dict ℤ)
      : Type 0 where
    out : Dict V
    after : Dict ℤ
    returns : apply_fields values none fields payload state ≡ some (out, after)
    payload_is : Dict.get out f.field ≡ shown values f (last_value f state +ℤ f.increment)
    state_is : Dict.get after f.field ≡ some (last_value f state +ℤ f.increment)

  advances :
      (before : List FieldMeta) (f : FieldMeta) (rest : List FieldMeta) (payload : Dict V)
      (state : Dict ℤ)
      → All (Differs f.field) before
      → All (Differs f.field) rest
      → Raised (before ++ f ∷ rest) (apply_fields values none (before ++ f ∷ rest) payload state)
        ⊎ Advances f (before ++ f ∷ rest) payload state
  unfolding apply_fields
  advances [] f rest payload state h k =
      let v = last_value f state +ℤ f.increment in
      let state' = Dict.set state f.field v in
      elim (shown-cases f v) [
        | inl (e, dated) ↦ inl (rw (apply_fields, e) refl, rw dated refl)
        | inr (x, e) ↦ elim (leaves f.field rest (Dict.set payload f.field x) state' k) [
          | inl (raised, dated) ↦ inl (rw (apply_fields, e) raised, ground (arith, dated))
          | inr l ↦ inr (record {
            out = l.out;
            after = l.after;
            returns = rw (apply_fields, e) l.returns;
            payload_is =
                l.payload_is ∙ rw (get-set payload f.field x f.field, eq_refl f.field) refl ∙ sym e;
            state_is = l.state_is ∙ rw (get-set state f.field v f.field, eq_refl f.field) refl;
          })
        ]
      ]
  advances (g ∷ before) f rest payload state h k =
      let v = last_value g state +ℤ g.increment in
      let state' = Dict.set state g.field v in
      let same : Dict.get state' f.field ≡ Dict.get state f.field =
        rw (get-set state g.field v f.field, h.0) refl in
      let same_last : last_value f state' ≡ last_value f state = ap (λ x. get_or x f.start) same in
      elim (shown-cases g v) [
        | inl (e, dated) ↦ inl (rw (apply_fields, e) refl, rw dated refl)
        | inr (x, e) ↦ elim (advances before f rest (Dict.set payload g.field x) state' h.1 k) [
          | inl (raised, dated) ↦ inl (rw (apply_fields, e) raised, ground (arith, dated))
          | inr a ↦ inr (record {
            out = a.out;
            after = a.after;
            returns = rw (apply_fields, e) a.returns;
            payload_is = a.payload_is ∙ ap (λ y. shown values f (y +ℤ f.increment)) same_last;
            state_is = a.state_is ∙ ap (λ y. some (y +ℤ f.increment)) same_last;
          })
        ]
      ]

  -- What a batch does to one field.
  pub record Runs (f : FieldMeta) (items : List (Dict V)) (state : Dict ℤ)
      (res : Option (List (Dict V) × Dict ℤ)) : Type 0 where
    pub out : List (Dict V)
    pub after : Dict ℤ
    pub returns : res ≡ some (out, after)
    pub shows : values_of f.field out ≡ series f (length items) (last_value f state)
    pub ends : last_value f after ≡ increased f.increment (length items) (last_value f state)

  module _ (before : List FieldMeta) (f : FieldMeta) (rest : List FieldMeta)
      (h : All (Differs f.field) before) (k : All (Differs f.field) rest) where
    runs :
        (items : List (Dict V)) (state : Dict ℤ)
        → Raised (before ++ f ∷ rest) (apply_items values none (before ++ f ∷ rest) items state)
          ⊎ Runs f items state (apply_items values none (before ++ f ∷ rest) items state)
    unfolding apply_items series increased
    runs [] state =
        inr (record { out = []; after = state; returns = refl; shows = refl; ends = refl })
    runs (item ∷ items) state = elim (advances before f rest item state h k) [
      | inl (raised, dated) ↦ inl (rw (apply_items, raised) refl, dated)
      | inr a ↦
          let last_is : last_value f a.after ≡ last_value f state +ℤ f.increment =
            ap (λ x. get_or x f.start) a.state_is in
          elim (runs items a.after) [
            | inl (raised, dated) ↦ inl (rw (apply_items, a.returns, raised) refl, dated)
            | inr r ↦ inr (record {
              out = a.out ∷ r.out;
              after = r.after;
              returns = rw (apply_items, a.returns, r.returns) refl;
              shows =
                  rw (a.payload_is, r.shows)
                    (ap
                      (λ x.
                        shown values f (last_value f state +ℤ f.increment)
                        ∷ series f (length items) x)
                      last_is);
              ends = r.ends ∙ ap (λ x. increased f.increment (length items) x) last_is;
            })
          ]
    ]

  -- In sequential mode a batch raises only if one of its fields holds times, whatever the clock says;
  -- else a field whose name no other field has shows in one item after another its last value and
  -- one, two, three … increments, and the state keeps the last of them for the next batch.
  pub sequential-Runs :
      (before : List FieldMeta) (f : FieldMeta) (rest : List FieldMeta) (started : Option ℤ)
      (now : ℤ) (items : List (Dict V)) (state : Dict ℤ)
      → All (Differs f.field) before
      → All (Differs f.field) rest
      → let res =
          apply_stateful_user_batch values items state
            (record { fields = before ++ f ∷ rest; worker_start_time = started })
            sequential
            now in
        Raised (before ++ f ∷ rest) res ⊎ Runs f items state res
  unfolding apply_stateful_user_batch
  sequential-Runs [] f rest started now items state h k = runs [] f rest h k items state
  sequential-Runs (g ∷ before) f rest started now items state h k =
      runs (g ∷ before) f rest h k items state
