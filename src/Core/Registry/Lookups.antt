-- ===== src/Core/Registry/Lookups.antt =====
-- What registration does to the lookups.
use havoc_forge.Base.Find.{All-map}
use havoc_forge.Base.{
  String, false, ◌||◌, Option, none, some, List, [], ◌∷◌, ◌==◌, eq_iff, eq_refl, if◌then◌else◌, ◌≡◌,
  refl, ap, arith, Bool-cases, Option-cases, inl, inr, ◌∙◌,
}
use havoc_forge.Base.Dict
use havoc_forge.Base.Dict.{Dict, get-set}
use havoc_forge.Base.Find.{All}
use havoc_forge.Base.Result.{ok}
use havoc_forge.Core.Registry.{
  Class, Registry, key_of, is_some, add_aliases, classes_of, enter, register_key, register, lookup,
}
use mathlib.Core.Option.{get_or}

-- A key that is bound stays bound to the same class.
add_alias-keeps :
    (key a : String) (c d : Class) (m : Dict Class) (k : String)
    → Dict.get m k ≡ some d
    → Dict.get (if a == key || is_some (Dict.get m a) then m else Dict.set m a c) k ≡ some d
add_alias-keeps key a c d m k h = ground (arith, get-set m a c k, eq_iff a k)

add_aliases-keeps :
    (key : String) (c d : Class) (l : List String) (m : Dict Class) (k : String)
    → Dict.get m k ≡ some d
    → Dict.get (add_aliases key c l m) k ≡ some d
unfolding add_aliases
add_aliases-keeps key c d [] m k h = h
add_aliases-keeps key c d (a ∷ l) m k h =
    add_aliases-keeps key c d l _ k (add_alias-keeps key a c d m k h)

add_alias-binds :
    (key a : String) (c d : Class) (m : Dict Class)
    → Dict.get m key ≡ some d
    → (e : Class) × (Dict.get (if a == key || is_some (Dict.get m a) then m else Dict.set m a c) a
        ≡ some e)
add_alias-binds key a c d m h = elim (Bool-cases (a == key)) [
  | inl same ↦ let same' : a ≡ key = (eq_iff a key).0 same in (d, rw same (rw same' h))
  | inr other ↦ elim (Option-cases (Dict.get m a)) [
    | inl free ↦ (c, rw (other, free, get-set, eq_refl a))
    | inr (e, bound) ↦ (e, rw (other, bound) bound)
  ]
]

add_aliases-binds :
    (key : String) (c d : Class) (l : List String) (m : Dict Class)
    → Dict.get m key ≡ some d
    → All (λ a. (e : Class) × (Dict.get (add_aliases key c l m) a ≡ some e)) l
unfolding add_aliases
add_aliases-binds key c d [] m h = tt
add_aliases-binds key c d (a ∷ l) m h =
    let (e, bound) = add_alias-binds key a c d m h in
    (
      (e, add_aliases-keeps key c e l _ a bound),
      add_aliases-binds key c d l _ (add_alias-keeps key a c d m key h),
    )

lookup-set :
    (reg : Registry) (base : String) (m : Dict Class) (base' k : String)
    → lookup (Dict.set reg base m) base' k
      ≡ (if base == base' then Dict.get m k else lookup reg base' k)
unfolding lookup
lookup-set reg base m base' k = elim (Bool-cases (base == base')) [
  | inl e ↦ rw (lookup, get-set, e)
  | inr e ↦ rw (lookup, get-set, e)
]

lookup-touch :
    (reg : Registry) (base base' k : String)
    → lookup (Dict.set reg base (classes_of reg base)) base' k ≡ lookup reg base' k
unfolding lookup
lookup-touch reg base base' k = elim (Bool-cases (base == base')) [
  | inl e ↦
      let same : base ≡ base' = (eq_iff base base').0 e in
      rw (lookup, get-set, e) (ap (λ b. Dict.get (classes_of reg b) k) same)
  | inr e ↦ rw (lookup, get-set, e)
]

enter-keeps :
    (key : String) (c : Class) (m : Dict Class) (k : String) (d : Class)
    → is_some (Dict.get m key) ≡ false
    → Dict.get m k ≡ some d
    → Dict.get (enter key c m) k ≡ some d
enter-keeps key c m k d free h =
    add_aliases-keeps key c d (get_or c.aliases []) _ k
      (ground (arith, get-set m key c k, eq_iff key k))

register_key-keeps :
    (base : String) (c : Class) (reg : Registry) (key : Option String) (base' k : String)
    (d : Class)
    → lookup reg base' k ≡ some d
    → lookup (register_key base c reg key).1 base' k ≡ some d
register_key-keeps base c reg none base' k d h = rw lookup-touch h
register_key-keeps base c reg (some key) base' k d h =
    elim (Bool-cases (is_some (Dict.get (classes_of reg base) key))) [
      | inl taken ↦ rw (taken, lookup-touch) h
      | inr free ↦ elim (Bool-cases (base == base')) [
        | inr e ↦ rw (free, lookup-set, e) h
        | inl e ↦
            let same : base ≡ base' = (eq_iff base base').0 e in
            let h' : Dict.get (classes_of reg base) k ≡ some d = rw same (unfold lookup in h) in
            rw (free, lookup-set, e) (enter-keeps key c (classes_of reg base) k d free h')
      ]
    ]

-- Registration, whether it succeeds or raises, changes no lookup that had a result, under any base.
pub register-keeps :
    (base : String) (c : Class) (reg : Registry) (base' k : String) (d : Class)
    → lookup reg base' k ≡ some d
    → lookup (register base c reg).1 base' k ≡ some d
unfolding register
register-keeps base c reg base' k d h = register_key-keeps base c reg (key_of c) base' k d h

-- A class that registers has a key; afterwards the lookup of that key gives the class, and the
-- lookup of each of its aliases gives a class.
pub record IsRegistered (base : String) (c : Class) (reg : Registry) : Type 0 where
  pub key : String
  pub keyed : key_of c ≡ some key
  pub found : lookup reg base key ≡ some c
  pub aliased : All (λ a. (e : Class) × (lookup reg base a ≡ some e)) (get_or c.aliases [])

register_key-IsRegistered :
    (base : String) (c : Class) (reg : Registry) (o : Option String) (c' : Class)
    → key_of c ≡ o
    → (register_key base c reg o).0 ≡ ok c'
    → IsRegistered base c (register_key base c reg o).1
register_key-IsRegistered base c reg none c' e h = absurd (cc)
register_key-IsRegistered base c reg (some key) c' e h =
    elim (Bool-cases (is_some (Dict.get (classes_of reg base) key))) [
      | inl taken ↦ let h' = rw taken at h in absurd (cc)
      | inr free ↦
          let m = classes_of reg base in
          let here : Dict.get (Dict.set m key c) key ≡ some c = rw (get-set, eq_refl key) in
          rw free (record {
            key = key;
            keyed = e;
            found =
                rw (lookup-set, eq_refl base)
                  (add_aliases-keeps key c c (get_or c.aliases []) (Dict.set m key c) key here);
            aliased =
                All-map
                  (λ a (x, bound).
                    (x, lookup-set reg base (enter key c m) base a ∙ rw (eq_refl base) bound))
                  (get_or c.aliases [])
                  (add_aliases-binds key c c (get_or c.aliases []) (Dict.set m key c) here);
          })
    ]

IsRegistered-register :
    (base : String) (c : Class) (reg : Registry) (base' : String) (d : Class)
    → IsRegistered base c reg
    → IsRegistered base c (register base' d reg).1
IsRegistered-register base c reg base' d h = record {
  key = h.key;
  keyed = h.keyed;
  found = register-keeps base' d reg base h.key c h.found;
  aliased =
      All-map (λ a (e, bound). (e, register-keeps base' d reg base a e bound)) (get_or c.aliases [])
        h.aliased;
}

-- Registrations one after another, whether they succeed or raise.
abbrev pub register_all : List (String × Class) → Registry → Registry
register_all [] reg = reg
register_all ((base, c) ∷ more) reg = register_all more (register base c reg).1

IsRegistered-register_all :
    (base : String) (c : Class) (more : List (String × Class)) (reg : Registry)
    → IsRegistered base c reg
    → IsRegistered base c (register_all more reg)
IsRegistered-register_all base c [] reg h = h
IsRegistered-register_all base c ((base', d) ∷ more) reg h =
    IsRegistered-register_all base c more (register base' d reg).1
      (IsRegistered-register base c reg base' d h)

-- A class whose registration succeeds has a key: after any further registrations the lookup of that
-- key gives the class, and the lookup of each of its aliases gives some class.
pub register-IsRegistered :
    (base : String) (c c' : Class) (reg : Registry) (more : List (String × Class))
    → (register base c reg).0 ≡ ok c'
    → IsRegistered base c (register_all more (register base c reg).1)
unfolding register
register-IsRegistered base c c' reg more h =
    IsRegistered-register_all base c more (register base c reg).1
      (register_key-IsRegistered base c reg (key_of c) c' refl h)
