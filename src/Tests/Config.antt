-- ===== src/Tests/Config.antt =====
-- Configurations at concrete inputs: an object is a prefix of keys, and `"bad"` is refused.
use havoc_forge.Base.{String, ◌≡◌, refl, none, some, List, [], ◌∷◌, ◌==◌, if◌then◌else◌}
use havoc_forge.Base.Dict
use havoc_forge.Base.Dict.{Dict}
use havoc_forge.Base.Result.{ok}
use havoc_forge.Base.Text.{join}
use havoc_forge.Config.Tree.{
  Override, value, mapping, Overrides, end, entry, MetaNode, node, no_more, member, group, scalar,
  find,
}
use havoc_forge.Config.Manager.{
  Models, Assigned, taken, invalid, failed, BuiltRoot, ConfigManager, new_manager, load, apply_leaf,
  config_error, assign, apply_override_file, apply_entries, apply_files, apply_roots, finish,
  compute_summary, counts,
}
use havoc_forge.Config.Manager.Status.{IsReported, load-IsReported}
use havoc_forge.Config.Manager.FirstWriter.{AllProven, load-AllProven, refused-locks}
use havoc_forge.Config.Access.{Files, ConfigAccess, get_config_manager}
use havoc_forge.Config.Access.Shared.{IsStuck, get_config_manager-IsStuck}

abbrev Heap : Type 0
Heap = Dict (Override String)

abbrev write : Heap → String → String → Override String → Assigned Heap
write heap o attr (value v) =
    if v == "bad" then invalid "refused" heap else taken (Dict.set heap attr (value v))
write heap o attr (mapping entries) = failed "a mapping" heap

abbrev text : Override String → String
text (value v) = v
text (mapping entries) = "{}"

abbrev models : Models String Heap String
models = record {
  getattr = λ heap o attr. Dict.get heap attr;
  child = λ heap o attr. some attr;
  setattr = write;
  field_default = λ o attr. some (value "0");
  repr = text;
  safe_attr_name = λ name. name;
}

abbrev port : MetaNode String
port = node scalar (some (value "80")) no_more no_more

abbrev built : Dict (BuiltRoot String String)
built =
    (
      "server",
      record { meta = node group none (member "port" port no_more) no_more; runtime = "server" },
    )
    ∷ []

abbrev heap : Heap
heap = ("port", value "80") ∷ []

abbrev sets : String → Overrides String
sets v = entry "port" (value v) end

abbrev overrides : List (String × List (String × Overrides String))
overrides =
    ("server", ("a.yaml", sets "81") ∷ ("b.yaml", sets "82") ∷ ("c.yaml", sets "81") ∷ [])
    ∷ ("nowhere", ("d.yaml", sets "83") ∷ [])
    ∷ []

abbrev fresh : ConfigManager String Heap String
fresh = new_manager heap

load_counts :
    let m = (load models (ok built, heap) overrides 7 fresh).1 in
    (m.summary ≡ ("APPLIED", 2) ∷ ("CONFLICT", 1) ∷ ("ERROR", 1) ∷ [])
    × (m.heap ≡ ("port", value "81") ∷ [])
unfolding load apply_roots apply_files apply_override_file apply_entries apply_leaf assign finish
    compute_summary counts find join Dict.get Dict.set
load_counts = (refl, refl)

load-AllProven_example : AllProven (load models (ok built, heap) overrides 7 fresh).1
load-AllProven_example = load-AllProven models built heap overrides 7 fresh

load-IsReported_example : IsReported (load models (ok built, heap) overrides 7 fresh)
load-IsReported_example = load-IsReported models built heap overrides 7 fresh

refused-locks_example :
    let m' =
      apply_leaf models
        ("server" ∷ "port" ∷ [])
        port
        (some "server")
        "port"
        (value "bad")
        "a.yaml"
        fresh in
    let m'' =
      apply_leaf models
        ("server" ∷ "port" ∷ [])
        port
        (some "server")
        "port"
        (value "82")
        "b.yaml"
        m' in
    (m'.heap ≡ heap) × (m'.hard_errors ≡ 0) × (m''.heap ≡ heap) × (m''.hard_errors ≡ 1)
unfolding Dict.get Dict.set
refused-locks_example =
    refused-locks models ("server" ∷ "port" ∷ []) port "server" "port" (value "bad") (value "82")
      (value "80") "a.yaml" "b.yaml" "refused" fresh refl refl refl refl refl

abbrev nothing_shared : ConfigAccess String Heap String
nothing_shared = record { manager_singleton = none; last_conf_hash = some "d0" }

-- The first files conflict, the second do not.
abbrev conflicting : Files String Heap String
conflicting = record { build = (ok built, heap); overrides = overrides; now = 7; digest = "d1" }

abbrev repaired : Files String Heap String
repaired = record { build = (ok built, heap); overrides = []; now = 8; digest = "d1" }

get_config_manager-IsStuck_example :
    IsStuck models (get_config_manager models conflicting nothing_shared).1 repaired
unfolding get_config_manager load apply_roots apply_files apply_override_file apply_entries
    apply_leaf assign finish compute_summary counts find join Dict.get Dict.set
get_config_manager-IsStuck_example =
    get_config_manager-IsStuck models nothing_shared conflicting repaired config_error refl refl
