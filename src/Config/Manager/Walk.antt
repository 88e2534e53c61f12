-- ===== src/Config/Manager/Walk.antt =====
-- What every leaf and every reported error keeps, a whole load keeps.
use havoc_forge.Base.{
  String, Option, none, some, List, [], ◌∷◌, ◌++◌, inl, inr, Option-cases, if_both,
}
use havoc_forge.Base.Dict
use havoc_forge.Base.Text.{join}
use havoc_forge.Config.Tree.{
  Override, value, mapping, Overrides, end, entry, MetaNode, MetaNodes, is_nested, kind, members,
  find,
}
use havoc_forge.Config.Manager.{
  Models, BuiltRoot, ConfigManager, Said, root_not_found, expected_group, path_not_found,
  hard_error, child_on, apply_leaf, apply_override, apply_entries, apply_override_file, apply_files,
  apply_roots,
}

-- The errors that are reported where a path leads nowhere.
pub data IsUnplaced : Said → Type 0 where
  no_root : IsUnplaced root_not_found
  no_group : IsUnplaced expected_group
  no_path : IsUnplaced path_not_found

module _ {V H O : Type 0} (py : Models V H O) (P : ConfigManager V H O → Type 0)
    (error_keeps : (path : String) (said : Said) (file : Option String) (m : ConfigManager V H O)
      → IsUnplaced said
      → P m
      → P (hard_error path said file m))
    (leaf_keeps : (path_parts : List String) (leaf : MetaNode V) (parent : Option O) (name : String)
        (v : Override V) (file : String) (m : ConfigManager V H O)
      → P m
      → P (apply_leaf py path_parts leaf parent name v file m)) where
  mutual
    unfolding apply_entries

    override_keeps :
        (key_parts : List String) (key : String) (meta : MetaNode V) (runtime : Option O)
        (v : Override V) (file : String) (m : ConfigManager V H O)
        → P m
        → P (apply_override py key_parts key meta runtime v file m)
    override_keeps key_parts key meta runtime (value v) file m h =
        leaf_keeps key_parts meta runtime key (value v) file m h
    override_keeps key_parts key meta runtime (mapping o) file m h =
        let nested =
          entries_keep key_parts (members meta) (child_on py m.heap runtime (py.safe_attr_name key))
            o file m h in
        if_both P (is_nested (kind meta)) nested
          (leaf_keeps key_parts meta runtime key (mapping o) file m h)

    entries_keep :
        (path_parts : List String) (children : MetaNodes V) (runtime : Option O) (o : Overrides V)
        (file : String) (m : ConfigManager V H O)
        → P m
        → P (apply_entries py path_parts children runtime o file m)
    entries_keep path_parts children runtime end file m h = h
    entries_keep path_parts children runtime (entry key v rest) file m h =
        let key_parts = path_parts ++ key ∷ [] in
        entries_keep path_parts children runtime rest file _
          (elim (Option-cases (find children key)) [
            | inl missing ↦
                rw missing (error_keeps (join "." key_parts) path_not_found (some file) m no_path h)
            | inr (meta, found) ↦ rw found (override_keeps key_parts key meta runtime v file m h)
          ])

  file_keeps :
      (root_name : String) (bundle : BuiltRoot V O) (file : String) (payload : Overrides V)
      (m : ConfigManager V H O)
      → P m
      → P (apply_override_file py root_name bundle file payload m)
  unfolding apply_override_file
  file_keeps root_name bundle file payload m h =
      if_both P (is_nested (kind bundle.meta))
        (entries_keep (root_name ∷ []) (members bundle.meta) (some bundle.runtime) payload file m h)
        (error_keeps root_name expected_group (some file) m no_group h)

  files_keep :
      (root_name : String) (bundle : BuiltRoot V O) (files : List (String × Overrides V))
      (m : ConfigManager V H O)
      → P m
      → P (apply_files py root_name bundle files m)
  unfolding apply_files
  files_keep root_name bundle [] m h = h
  files_keep root_name bundle ((file, payload) ∷ files) m h =
      files_keep root_name bundle files _ (file_keeps root_name bundle file payload m h)

  pub roots_keep :
      (roots : List (String × List (String × Overrides V))) (m : ConfigManager V H O)
      → P m
      → P (apply_roots py roots m)
  unfolding apply_roots
  roots_keep [] m h = h
  roots_keep ((root_name, files) ∷ roots) m h =
      roots_keep roots _ (elim (Option-cases (Dict.get m.built root_name)) [
        | inl missing ↦ rw missing (error_keeps root_name root_not_found none m no_root h)
        | inr (bundle, found) ↦ rw found (files_keep root_name bundle files m h)
      ])
