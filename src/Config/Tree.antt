-- ===== src/Config/Tree.antt =====
-- The trees of a configuration: the overrides that a YAML file holds, and the meta nodes of
-- havocforge/config/schema.py that say what may be overridden.
use havoc_forge.Base.{String, Bool, true, false, Option, none, some, ◌==◌, if◌then◌else◌}

-- A value of an override file: a mapping, or anything else.
mutual
  pub data Override (V : Type 0) : Type 0 where
    value : V → Override V
    mapping : Overrides V → Override V

  pub data Overrides (V : Type 0) : Type 0 where
    end : Overrides V
    entry : String → Override V → Overrides V → Overrides V

pub data Kind : Type 0 where
  scalar array object group : Kind

-- A node has a default, the children of a group and the properties of an object.
mutual
  pub data MetaNode (V : Type 0) : Type 0 where
    node : Kind → Option (Override V) → MetaNodes V → MetaNodes V → MetaNode V

  pub data MetaNodes (V : Type 0) : Type 0 where
    no_more : MetaNodes V
    member : String → MetaNode V → MetaNodes V → MetaNodes V

-- `kind in ("group", "object")`
abbrev pub is_nested : Kind → Bool
is_nested group = true
is_nested object = true
is_nested _ = false

module _ {V : Type 0} where
  abbrev pub kind : MetaNode V → Kind
  kind (node k default_value children properties) = k

  abbrev pub default_value : MetaNode V → Option (Override V)
  default_value (node k d children properties) = d

  -- `meta_node.children or meta_node.properties or {}`
  abbrev pub members : MetaNode V → MetaNodes V
  members (node k d no_more properties) = properties
  members (node k d (member name m rest) properties) = member name m rest

  unfoldable pub find : MetaNodes V → String → Option (MetaNode V)
  find no_more key = none
  find (member name m rest) key = if name == key then some m else find rest key
