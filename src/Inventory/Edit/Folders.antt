-- ===== src/Inventory/Edit/Folders.antt =====
-- Changes of the nodes of a folder, which is found by its path or made on the way
-- (src/inventory/edit.rs).
pub mod Tallies
pub mod Laws
pub mod Relocation
use mathlib.Core.Option
use color_ssh.Base.{
  ℕ, Text, codes, text_eq, trim, is_empty, contains, Result, ok, err, Option, none, some, Bool,
  true, false, ◌&&◌, ◌||◌, List, [], ◌∷◌, ◌++◌, if◌then◌else◌, guard, ◌>>=◌, ◌>>◌, ok_or,
}
use color_ssh.Inventory.Value.{
  Value, null, bool, number, string, sequence, mapping, Items, nil, cons, Fields, end, field,
  insert, push, is_host_mapping, canonical_top_level_key, canonical_host_key,
}
use color_ssh.Inventory.Edit.{EditableInventoryHost, editable_host_mapping, is_folder}
use color_ssh.Inventory.Edit.Hosts.{
  update_host_entry_in_nodes, delete_host_entry_in_nodes, take_host_entry_in_nodes,
  find_host_folder_path_in_nodes, count_hosts_in_node,
}

-- The errors of the editor, with what their messages name.
pub data EditError : Type 0 where
  host_not_found folder_not_found folder_not_list folder_exists : Text → EditError
  empty_name slash_in_name empty_segment root_folder into_itself : EditError
  no_name_key root_not_mapping inventory_not_list : EditError

abbrev pub Edit : Type 0 → Type 0
Edit A = Items → Result EditError (A × Items)

abbrev pub behind : {A B C : Type 0} → (B → C) → Result EditError (A × B) → Result EditError (A × C)
behind f (ok (a, b)) = ok (a, f b)
behind f (err e) = err e

-- `folder_items_mut` of a node that holds one key
abbrev pub in_list : {A : Type 0} → Edit A → Text → Value → Result EditError (A × Value)
in_list f segment (sequence items) = behind sequence (f items)
in_list f segment _ = err (folder_not_list segment)

abbrev pub in_only_list : {A : Type 0} → Edit A → Text → Fields → Result EditError (A × Fields)
in_only_list f segment end = err (folder_not_list segment)
in_only_list f segment (field k v end) = behind (λ w. field k w end) (in_list f segment v)
in_only_list f segment (field k v (field l w rest)) = err (folder_not_list segment)

unfoldable pub in_folder : {A : Type 0} → Edit A → Text → Value → Result EditError (A × Value)
unfolding is_host_mapping
in_folder f segment (mapping fields) =
    if is_host_mapping fields
    then err (folder_not_list segment)
    else behind mapping (in_only_list f segment fields)
in_folder f segment _ = err (folder_not_list segment)

-- The first folder with a name, or `none`.
unfoldable pub enter : {A : Type 0} → Edit A → Text → Items → Option (Result EditError (A × Items))
unfolding in_folder is_folder
enter f segment nil = none
enter f segment (cons v rest) = elim (is_folder segment v) [
  | true ↦ some (behind (λ w. cons w rest) (in_folder f segment v))
  | false ↦ Option.map (behind (λ others. cons v others)) (enter f segment rest)
]

abbrev pub folder_node : Text → Items → Value
folder_node name items = mapping (field name (sequence items) end)

unfoldable pub ensure_folder_nodes : {A : Type 0} → Edit A → List Text → Edit A
unfolding enter trim
ensure_folder_nodes f [] nodes = f nodes
ensure_folder_nodes {A = A} f (segment ∷ path) nodes =
    let below : Edit A = λ items. ensure_folder_nodes f path items in
    if is_empty (trim segment) then err empty_segment else elim (enter below segment nodes) [
      | some result ↦ result
      | none ↦ behind (λ made. push made nodes) (in_folder below segment (folder_node segment nil))
    ]

unfoldable pub find_folder_nodes : {A : Type 0} → Edit A → List Text → Edit A
unfolding enter trim
find_folder_nodes f [] nodes = f nodes
find_folder_nodes f (segment ∷ path) nodes =
    if is_empty (trim segment)
    then err empty_segment
    else elim (enter (λ items. find_folder_nodes f path items) segment nodes) [
      | some result ↦ result
      | none ↦ err (folder_not_found segment)
    ]

-- `inventory_nodes_mut`
abbrev pub in_inventory_value : {A : Type 0} → Edit A → Value → Result EditError (A × Value)
in_inventory_value f null = behind sequence (f nil)
in_inventory_value f (sequence items) = behind sequence (f items)
in_inventory_value f _ = err inventory_not_list

unfoldable pub in_inventory_field : {A : Type 0} → Edit A → Fields → Result EditError (A × Fields)
unfolding canonical_top_level_key
in_inventory_field f end = behind (λ nodes. field (codes "inventory") (sequence nodes) end) (f nil)
in_inventory_field f (field k v rest) =
    elim (text_eq (canonical_top_level_key k) (codes "inventory")) [
      | true ↦ behind (λ w. field k w rest) (in_inventory_value f v)
      | false ↦ behind (λ others. field k v others) (in_inventory_field f rest)
    ]

unfoldable pub inventory_nodes_mut : {A : Type 0} → Edit A → Value → Result EditError (A × Value)
unfolding in_inventory_field
inventory_nodes_mut f (mapping root) = behind mapping (in_inventory_field f root)
inventory_nodes_mut f _ = err root_not_mapping

-- What `update_inventory_host_entry` and the other operations do to the nodes.
module _ (remove : Text → Fields → Fields) where
  unfoldable pub update_entry : Text → EditableInventoryHost → Edit Unit
  unfolding update_host_entry_in_nodes
  update_entry original_name host nodes =
      elim (update_host_entry_in_nodes remove original_name host nodes) [
        | none ↦ err (host_not_found original_name)
        | some left ↦ ok (tt, left)
      ]

  -- The folder under its new name.
  unfoldable pub renamed : Text → Value → Result EditError Value
  unfolding insert
  renamed name (mapping (field k v rest)) = ok (mapping (insert name v (remove k (field k v rest))))
  renamed name (mapping end) = err no_name_key
  renamed name _ = err root_not_mapping

unfoldable pub delete_entry : Text → Edit Unit
unfolding delete_host_entry_in_nodes
delete_entry host_name nodes = elim (delete_host_entry_in_nodes host_name nodes) [
  | none ↦ err (host_not_found host_name)
  | some left ↦ ok (tt, left)
]

abbrev pub push_node : Value → Edit Unit
push_node node nodes = ok (tt, push node nodes)

unfoldable pub create_entry : List Text → EditableInventoryHost → Edit Unit
unfolding ensure_folder_nodes push
create_entry folder_path host nodes =
    ensure_folder_nodes (push_node (mapping (editable_host_mapping host))) folder_path nodes

unfoldable pub any_folder : Text → Items → Bool
unfolding is_folder
any_folder name nil = false
any_folder name (cons v rest) = is_folder name v || any_folder name rest

-- The folder is pushed unless one with its name is there.
unfoldable pub push_folder : Text → Value → Edit Unit
unfolding any_folder push
push_folder name node nodes =
    if any_folder name nodes then err (folder_exists name) else ok (tt, push node nodes)

unfoldable pub checked_name : Text → Result EditError Text
unfolding trim
checked_name name =
    let sanitized = trim name in
    if is_empty sanitized
    then err empty_name
    else if contains b'/' sanitized
    then err slash_in_name
    else ok sanitized

unfoldable pub create_folder : List Text → Text → Edit Unit
unfolding ensure_folder_nodes push_folder
create_folder parent_folder_path name nodes =
    ensure_folder_nodes (push_folder name (folder_node name nil)) parent_folder_path nodes

abbrev pub paths_eq : List Text → List Text → Bool
paths_eq [] [] = true
paths_eq [] (t ∷ ts) = false
paths_eq (s ∷ ss) [] = false
paths_eq (s ∷ ss) (t ∷ ts) = text_eq s t && paths_eq ss ts

-- `starts_with` of a slice of segments
abbrev pub starts_with : List Text → List Text → Bool
starts_with path [] = true
starts_with [] (t ∷ ts) = false
starts_with (s ∷ ss) (t ∷ ts) = text_eq s t && starts_with ss ts

-- The result says whether the nodes are changed, for `move_inventory_host_entry` writes no file
-- where the host is in the folder already.
unfoldable pub move_entry : Text → List Text → Edit Bool
unfolding find_host_folder_path_in_nodes take_host_entry_in_nodes ensure_folder_nodes push
move_entry host_name target_folder_path nodes =
    elim (find_host_folder_path_in_nodes host_name [] nodes) [
      | none ↦ err (host_not_found host_name)
      | some current ↦
          if paths_eq current target_folder_path
          then ok (false, nodes)
          else elim (take_host_entry_in_nodes host_name [] nodes) [
            | none ↦ err (host_not_found host_name)
            | some t ↦
                ensure_folder_nodes (λ items. ok (true, push t.entry items)) target_folder_path
                  t.left
          ]
    ]

-- `position` of a folder, and its removal
unfoldable pub take_folder : Text → Items → Option (Value × Items)
unfolding is_folder
take_folder name nil = none
take_folder name (cons v rest) = elim (is_folder name v) [
  | true ↦ some (v, rest)
  | false ↦ Option.map (λ r. (r.0, cons v r.1)) (take_folder name rest)
]

abbrev pub remove_folder : Text → Edit Value
remove_folder name nodes = ok_or (take_folder name nodes) (folder_not_found name)

-- A path without its last segment, and that segment.
unfoldable pub split_last : List Text → Option (List Text × Text)
split_last [] = none
split_last (s ∷ []) = some ([], s)
split_last (s ∷ t ∷ ts) = Option.map (λ r. (s ∷ r.0, r.1)) (split_last (t ∷ ts))

module _ (remove : Text → Fields → Fields) where
  abbrev pub place :
      List Text → Text → Result EditError (Value × Items) → Result EditError (Unit {0} × Items)
  place target name (err e) = err e
  place target name (ok (node, left)) = elim (renamed remove name node) [
    | err e ↦ err e
    | ok folder ↦ ensure_folder_nodes (push_folder name folder) target left
  ]

  -- `relocate_inventory_folder` on the nodes, behind its checks of the names
  unfoldable pub relocate : List Text → Text → List Text → Text → Edit Unit
  unfolding renamed ensure_folder_nodes find_folder_nodes push_folder take_folder
  relocate parent current_name target name nodes =
      place target name (find_folder_nodes (remove_folder current_name) parent nodes)

unfoldable pub delete_folder : List Text → Text → Edit ℕ
unfolding find_folder_nodes take_folder
delete_folder parent_path folder_name nodes =
    elim (find_folder_nodes (remove_folder folder_name) parent_path nodes) [
      | err e ↦ err e
      | ok (removed, left) ↦ ok (count_hosts_in_node removed, left)
    ]
