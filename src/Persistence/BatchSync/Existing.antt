-- ===== src/Persistence/BatchSync/Existing.antt =====
-- batch_sync.py: the ids that are not missing are those that PostgreSQL has.
use havoc_forge.Base.{
  String, Bool, true, false, not, List, [], ◌∷◌, eq_iff, ◌≡◌, arith, inl, inr, Bool-cases,
}
use havoc_forge.Base.Dict.{mem_str}
use havoc_forge.Base.Find.{All, keep}
use havoc_forge.Persistence.BatchSync.{existing_ids}

pub mem_head : (id : String) (ids : List String) → mem_str id (id ∷ ids) ≡ true
mem_head id ids = ground (arith, eq_iff id id)

mem_tail : (id j : String) (ids : List String) → mem_str id ids ≡ true → mem_str id (j ∷ ids) ≡ true
mem_tail id j ids h = ground (arith, h)

-- What is not among the missing ids of a list that holds it passes the test for being there.
module _ (there : String → Bool) where
  mem-keep :
      (id : String) (ids : List String)
      → there id ≡ false
      → mem_str id ids ≡ true
      → mem_str id (keep (λ j. not (there j)) ids) ≡ true
  mem-keep id [] f m = m
  mem-keep id (j ∷ ids) f m = ground (arith, mem-keep id ids f, eq_iff j id)

  there_or : (b : Bool) (id : String) → (there id ≡ false → b ≡ true) → b ≡ false → there id ≡ true
  there_or b id f h = elim (Bool-cases (there id)) [ inl t ↦ t | inr t ↦ cc (f t, h) ]

  pub existing_from :
      (all ids : List String)
      → ((id : String) → mem_str id ids ≡ true → mem_str id all ≡ true)
      → All (λ id. there id ≡ true) (existing_ids (keep (λ j. not (there j)) all) ids)
  existing_from all [] f = tt
  existing_from all (id ∷ ids) f =
      let missing = keep (λ j. not (there j)) all in
      let rest = existing_from all ids (λ j m. f j (mem_tail j id ids m)) in
      elim (Bool-cases (mem_str id missing)) [
        | inl e ↦ rw e rest
        | inr e ↦ rw e (
          there_or (mem_str id missing) id (λ t. mem-keep id all t (f id (mem_head id ids))) e,
          rest,
        )
      ]
