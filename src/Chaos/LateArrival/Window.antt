-- ===== src/Chaos/LateArrival/Window.antt =====
-- The timestamps that come late are of the time that the tracker has seen.
use havoc_forge.Base.{String, Bool, true, false, ◌≡◌, Option, none, some, List, [], ◌∷◌, ◌⊎◌}
use havoc_forge.Base.Int.{ℤ, ◌+ℤ◌, ◌≤ℤ◌}
use havoc_forge.Base.Dict
use havoc_forge.Base.Dict.{Dict, mem_str}
use havoc_forge.Chaos.LateArrival.{
  Stamps, Item, rec_of, other, Body, dict, LateArrivalOp, micros, discover_stateful_fields,
}

-- What the documentation of `randint` says of it.
abbrev pub IsBounded : {R : Type 0} → (ℤ → ℤ → R → ℤ × R) → Type 0
IsBounded {R} randint =
    (lo hi : ℤ) (r : R) → lo ≤ℤ hi → (lo ≤ℤ (randint lo hi r).0) × ((randint lo hi r).0 ≤ℤ hi)

module _ {V : Type 0} (s : Stamps V) where
  -- A value that is read as the time `t`: a number of microseconds or seconds, or a text.
  abbrev pub Writes : ℤ → V → Type 0
  Writes t w =
      ((w ≡ s.number t) ⊎ (w ≡ s.number (s.seconds t))) ⊎ ((w ≡ s.iso_z t) ⊎ (w ≡ s.plain t))

  abbrev pub is_time : Option V → Bool
  is_time none = false
  is_time (some val) = elim (s.parse_timestamp val) [ none ↦ false | some kind ↦ true ]

  -- What a key has afterwards: the same, if it is none of the fields or held no timestamp, or else the
  -- time.
  abbrev pub IsAssigned : ℤ → Bool → Option V → Option V → Type 0
  IsAssigned t among before after =
      ((after ≡ before) × ((among ≡ false) ⊎ (is_time before ≡ false)))
      ⊎ ((among ≡ true) × (w : V) × (after ≡ some w) × Writes t w)

  pub record IsStamped (t : ℤ) (fields : List String) (before after : Dict V) : Type 0 where
    pub at : (k : String) → IsAssigned t (mem_str k fields) (Dict.get before k) (Dict.get after k)

  -- Every record is stamped with a time of its own between the two; the other items are the same.
  abbrev pub AreStamped : ℤ → ℤ → List String → List (Item V) → List (Item V) → Type 0
  AreStamped lo hi fields [] [] = Unit
  AreStamped lo hi fields (other v ∷ items) (other w ∷ items') =
      (v ≡ w) × AreStamped lo hi fields items items'
  AreStamped lo hi fields (rec_of rec ∷ items) (rec_of rec' ∷ items') =
      ((late_ts : ℤ) × (lo ≤ℤ late_ts) × (late_ts ≤ℤ hi) × IsStamped late_ts fields rec rec')
      × AreStamped lo hi fields items items'
  AreStamped lo hi fields _ _ = ⊥

  module _ {R : Type 0} (randint : ℤ → ℤ → R → ℤ × R) (law : IsBounded randint) where
    -- A body whose items are the same, or stamped within the window and the tracker's range.
    pub data IsLate (op : LateArrivalOp) (first current : ℤ) (items : List (Item V))
        (name : Option String) : Body V → Type 0 where
      same : IsLate op first current items name (dict (some items) name)
      late :
          (lo : ℤ) (items' : List (Item V))
          → first ≤ℤ lo
          → current ≤ℤ lo +ℤ micros op.late_window_seconds
          → AreStamped lo current (discover_stateful_fields s items) items items'
          → IsLate op first current items name (dict (some items') name)
