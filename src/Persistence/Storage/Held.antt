-- ===== src/Persistence/Storage/Held.antt =====
-- storage.py: what the two databases hold for an id, and what leaves it.

use havoc_forge.Base.{
  String, true, false, none, some, ◌==◌, eq_iff, ◌≡◌, refl, sym, ap, ◌∙◌, inl, inr, ◌⊎◌,
}
use havoc_forge.Base.Dict
use havoc_forge.Base.Dict.{get-set, get-pop}
use havoc_forge.Persistence.BatchSync.{Stores, delete}
use havoc_forge.Persistence.BatchSync.Kept.{Keeps, prefer, stored_for}
use havoc_forge.Persistence.Storage.{set_key, delete_row}

module _ {V : Type 0} where
  -- Neither database changed at an id.
  pub record Untouched (id : String) (s t : Stores V) : Type 0 where
    pub hot : Dict.get t.redis id ≡ Dict.get s.redis id
    pub cold : Dict.get t.postgres id ≡ Dict.get s.postgres id
    pub online : t.connected ≡ s.connected

  Untouched-refl : (id : String) (s : Stores V) → Untouched id s s
  Untouched-refl id s = record { hot = refl; cold = refl; online = refl }

  Untouched-trans :
      {id : String} {s t u : Stores V} → Untouched id s t → Untouched id t u → Untouched id s u
  Untouched-trans a b = record {
    hot = b.hot ∙ a.hot;
    cold = b.cold ∙ a.cold;
    online = b.online ∙ a.online;
  }

  module _ (id j : String) (other : (j == id) ≡ false) where
    pub set_key-Untouched : (v : V) (s : Stores V) → Untouched id s (set_key j v s)
    set_key-Untouched v s = record {
      hot = get-set s.redis j v id ∙ rw other refl;
      cold = refl;
      online = refl;
    }

    pub delete-Untouched : (s : Stores V) → Untouched id s (delete j s)
    delete-Untouched s = record {
      hot = get-pop s.redis j id ∙ rw other refl;
      cold = refl;
      online = refl;
    }

    pub delete_row-Untouched : (s : Stores V) → Untouched id s (delete_row j s)
    delete_row-Untouched s = record {
      hot = refl;
      cold = get-pop s.postgres j id ∙ rw other refl;
      online = refl;
    }

  -- A dataset stands in one of the databases and nothing else stands in the other.
  pub record Holds (id : String) (v : V) (s : Stores V) : Type 0 where
    pub online : s.connected ≡ true
    pub hot : (Dict.get s.redis id ≡ none) ⊎ (Dict.get s.redis id ≡ some v)
    pub kept : stored_for s id ≡ some v

  stored_same :
      {id : String} {s t : Stores V} → Untouched id s t → stored_for t id ≡ stored_for s id
  stored_same u = rw (u.hot, u.cold) refl

  pub Untouched-Holds :
      {id : String} {v : V} {s t : Stores V} → Untouched id s t → Holds id v s → Holds id v t
  Untouched-Holds u h = record {
    online = u.online ∙ h.online;
    hot = elim h.hot [ inl e ↦ inl (u.hot ∙ e) | inr e ↦ inr (u.hot ∙ e) ];
    kept = stored_same u ∙ h.kept;
  }

  pub Keeps-Holds : {id : String} {v : V} {s t : Stores V} → Keeps s t → Holds id v s → Holds id v t
  Keeps-Holds {id} k h = record {
    online = k.online ∙ h.online;
    hot = elim (k.shrinks id) [
      | inl e ↦ inl e
      | inr e ↦ elim h.hot [ inl d ↦ inl (e ∙ d) | inr d ↦ inr (e ∙ d) ]
    ];
    kept = k.same id ∙ h.kept;
  }

  cold_value :
      {id : String} {v : V} (w : V) {s : Stores V}
      → Holds id v s
      → Dict.get s.postgres id ≡ some w
      → some w ≡ some v
  cold_value {id} w {s} h e = ap (λ o. prefer o (Dict.get s.redis id)) (sym e) ∙ h.kept

  pub get-set_same :
      (d : Dict.Dict V) (id : String) (v : V) → Dict.get (Dict.set d id v) id ≡ some v
  get-set_same d id v = get-set d id v id ∙ rw ((eq_iff id id).1 refl) refl

  -- A retrieval copies a row back to Redis.
  pub copy-Holds :
      (id : String) (v w : V) (s : Stores V)
      → Holds id v s
      → Dict.get s.postgres id ≡ some w
      → Holds id v (set_key id w s)
  copy-Holds id v w s h e = record {
    online = h.online;
    hot = inr (get-set_same s.redis id w ∙ cold_value w h e);
    kept = ap (λ o. prefer o (Dict.get (Dict.set s.redis id w) id)) e ∙ cold_value w h e;
  }
