-- ===== src/Core/Registry.antt =====
-- havocforge/registry.py, and `GeneratorFactory.resolve` of havocforge/core/factory.py: the classes
-- registered under each base class, by key and by alias. A base class stands as its name; of a class
-- the registry reads the two attributes `key` and `__aliases__` only.
pub mod Lookups
use havoc_forge.Base.{
  String, Bool, true, false, ◌||◌, Option, none, some, List, [], ◌∷◌, ◌==◌, if◌then◌else◌,
}
use havoc_forge.Base.Dict
use havoc_forge.Base.Dict.{Dict}
use havoc_forge.Base.Result.{Result, ok, err}
use mathlib.Core.Option.{get_or}

pub record Class : Type 0 where
  pub name : String
  pub key : Option String
  pub aliases : Option (List String)

pub data RegistryError : Type 0 where
  missing_key : String → RegistryError
  duplicate_key : String → RegistryError

abbrev pub Registry : Type 0
Registry = Dict (Dict Class)

-- `getattr(target_class, "key", None)`, which counts if it is not empty
abbrev pub own_key : Option String → Option String
own_key none = none
own_key (some k) = if k == "" then none else some k

abbrev pub first_alias : Option (List String) → Option String
first_alias none = none
first_alias (some []) = none
first_alias (some (a ∷ l)) = some a

abbrev pub key_of : Class → Option String
key_of c = elim (own_key c.key) [ some k ↦ some k | none ↦ first_alias c.aliases ]

abbrev pub is_some {ℓ} : {A : Type ℓ} → Option A → Bool
is_some none = false
is_some (some a) = true

-- An alias that is taken, or that is the key, is passed over.
unfoldable pub add_aliases : String → Class → List String → Dict Class → Dict Class
add_aliases key c [] d = d
add_aliases key c (a ∷ l) d =
    add_aliases key c l (if a == key || is_some (Dict.get d a) then d else Dict.set d a c)

abbrev pub classes_of : Registry → String → Dict Class
classes_of reg base = get_or (Dict.get reg base) []

abbrev pub enter : String → Class → Dict Class → Dict Class
enter key c d = add_aliases key c (get_or c.aliases []) (Dict.set d key c)

-- The rest of `wrapper`, with the class's key and what the registry has under that key. The base
-- class has its entry by then, also where the call raises.
abbrev pub register_key :
    String → Class → Registry → Option String → Result RegistryError Class × Registry
register_key base c reg none = (err (missing_key c.name), Dict.set reg base (classes_of reg base))
register_key base c reg (some key) =
    if is_some (Dict.get (classes_of reg base) key)
    then (err (duplicate_key key), Dict.set reg base (classes_of reg base))
    else (ok c, Dict.set reg base (enter key c (classes_of reg base)))

unfoldable pub register : String → Class → Registry → Result RegistryError Class × Registry
unfolding add_aliases
register base c reg = register_key base c reg (key_of c)

unfoldable pub lookup : Registry → String → String → Option Class
lookup reg base key = Dict.get (classes_of reg base) key

unfoldable pub get_all : Registry → String → Dict Class
get_all reg base = classes_of reg base

unfoldable pub clear : Option String → Registry → Registry
clear none reg = []
clear (some base) reg = Dict.pop reg base

pub data FactoryError : Type 0 where
  unknown_generator : String → List String → FactoryError
  missing_configure : String → FactoryError

-- A class's instance is configured by the class itself: `configure` is what its method makes of the
-- keyword arguments, or `none` where it has no such method. The names in the message stand unsorted.
unfoldable pub resolve :
    {K G : Type 0}
    → (Class → Option (K → Result FactoryError G))
    → String
    → Registry
    → String
    → K
    → Result FactoryError G
resolve configure generator_base reg name kwargs = elim (lookup reg generator_base name) [
  | none ↦ err (unknown_generator name (Dict.keys (get_all reg generator_base)))
  | some c ↦ elim (configure c) [ none ↦ err (missing_configure c.name) | some f ↦ f kwargs ]
]
