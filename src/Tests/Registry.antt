-- ===== src/Tests/Registry.antt =====
-- The registry of classes at concrete inputs.
use havoc_forge.Base.{◌≡◌, refl, none, some, [], ◌∷◌}
use havoc_forge.Base.Dict
use havoc_forge.Base.Result.{ok, err}
use havoc_forge.Core.Registry.{Class, Registry, duplicate_key, register, lookup, add_aliases}
use havoc_forge.Core.Registry.Lookups.{IsRegistered, register_all, register-IsRegistered}

abbrev ga4 : Class
ga4 = record { name = "Ga4Generator"; key = some "ga4"; aliases = some ("google" ∷ []) }

abbrev other : Class
other = record { name = "OtherGenerator"; key = none; aliases = some ("other" ∷ "google" ∷ []) }

abbrev filled : Registry
filled = (register "Generator" ga4 []).1

registers_other : (register "Generator" other filled).0 ≡ ok other
unfolding register Dict.get Dict.set add_aliases
registers_other = refl

registers_twice : (register "Generator" ga4 filled).0 ≡ err (duplicate_key "ga4")
unfolding register Dict.get Dict.set add_aliases
registers_twice = refl

filled_google : lookup filled "Generator" "google" ≡ some ga4
unfolding register lookup Dict.get Dict.set add_aliases
filled_google = refl

register-IsRegistered_example : IsRegistered "Generator" other (
    register_all (("Generator", ga4) ∷ ("Other", other) ∷ []) (register "Generator" other filled).1)
register-IsRegistered_example =
    register-IsRegistered "Generator" other other filled
      (("Generator", ga4) ∷ ("Other", other) ∷ []) registers_other
