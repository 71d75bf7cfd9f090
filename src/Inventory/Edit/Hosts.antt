-- ===== src/Inventory/Edit/Hosts.antt =====
-- The search for a host entry by its name, through folders: to change it, to remove it, to take it,
-- and to find its folder (src/inventory/edit.rs).
pub mod Laws
pub mod Found
pub mod Updates
use mathlib.Core.Option
use color_ssh.Base.{
  ℕ, ◌+◌, Text, Option, none, some, Bool, true, false, List, [], ◌∷◌, ◌++◌, if◌then◌else◌,
}
use color_ssh.Inventory.Value.{
  Value, null, bool, number, string, sequence, mapping, Items, nil, cons, Fields, end, field,
  is_host_mapping,
}
use color_ssh.Inventory.Edit.{
  EditableInventoryHost, apply_editable_host_to_mapping, host_name_matches,
}

-- `count_hosts_in_nodes`, of the host entries that pass a test. The program counts all of them.
module _ (p : Fields → Bool) where
  unfoldable mutual
    pub tally_node : Value → ℕ
    tally_node null = 0
    tally_node (bool b) = 0
    tally_node (number n) = 0
    tally_node (string s) = 0
    tally_node (sequence items) = 0
    tally_node (mapping fields) =
        if is_host_mapping fields then (if p fields then 1 else 0) else tally_folder fields

    pub tally_folder : Fields → ℕ
    tally_folder end = 0
    tally_folder (field k v end) = tally_list v
    tally_folder (field k v (field l w rest)) = 0

    pub tally_list : Value → ℕ
    tally_list null = 0
    tally_list (bool b) = 0
    tally_list (number n) = 0
    tally_list (string s) = 0
    tally_list (sequence items) = tally items
    tally_list (mapping fields) = 0

    pub tally : Items → ℕ
    tally nil = 0
    tally (cons v rest) = tally_node v + tally rest

abbrev pub any_host : Fields → Bool
any_host fields = true

abbrev pub count_hosts_in_node : Value → ℕ
count_hosts_in_node node = tally_node any_host node

abbrev pub count_hosts_in_nodes : Items → ℕ
count_hosts_in_nodes nodes = tally any_host nodes

-- The nodes behind a change, or `none` where no host entry has the name.
module _ (remove : Text → Fields → Fields) (original_name : Text)
    (host : EditableInventoryHost) where
  unfoldable mutual
    pub update_host_entry : Value → Option Value
    update_host_entry null = none
    update_host_entry (bool b) = none
    update_host_entry (number n) = none
    update_host_entry (string s) = none
    update_host_entry (sequence items) = none
    update_host_entry (mapping fields) =
        if is_host_mapping fields
        then if host_name_matches fields original_name
          then some (mapping (apply_editable_host_to_mapping remove fields host))
          else none
        else Option.map mapping (update_in_folder fields)

    pub update_in_folder : Fields → Option Fields
    update_in_folder end = none
    update_in_folder (field k v end) = Option.map (λ w. field k w end) (update_in_list v)
    update_in_folder (field k v (field l w rest)) = none

    pub update_in_list : Value → Option Value
    update_in_list null = none
    update_in_list (bool b) = none
    update_in_list (number n) = none
    update_in_list (string s) = none
    update_in_list (sequence items) = Option.map sequence (update_host_entry_in_nodes items)
    update_in_list (mapping fields) = none

    pub update_host_entry_in_nodes : Items → Option Items
    update_host_entry_in_nodes nil = none
    update_host_entry_in_nodes (cons v rest) = elim (update_host_entry v) [
      | some w ↦ some (cons w rest)
      | none ↦ Option.map (λ others. cons v others) (update_host_entry_in_nodes rest)
    ]

-- A node that matches is a host itself.
abbrev pub is_target : Text → Value → Bool
is_target host_name (mapping fields) =
    if is_host_mapping fields then host_name_matches fields host_name else false
is_target host_name _ = false

module _ (host_name : Text) where
  unfoldable mutual
    pub delete_below : Value → Option Value
    delete_below null = none
    delete_below (bool b) = none
    delete_below (number n) = none
    delete_below (string s) = none
    delete_below (sequence items) = none
    delete_below (mapping fields) =
        if is_host_mapping fields then none else Option.map mapping (delete_in_folder fields)

    pub delete_in_folder : Fields → Option Fields
    delete_in_folder end = none
    delete_in_folder (field k v end) = Option.map (λ w. field k w end) (delete_in_list v)
    delete_in_folder (field k v (field l w rest)) = none

    pub delete_in_list : Value → Option Value
    delete_in_list null = none
    delete_in_list (bool b) = none
    delete_in_list (number n) = none
    delete_in_list (string s) = none
    delete_in_list (sequence items) = Option.map sequence (delete_host_entry_in_nodes items)
    delete_in_list (mapping fields) = none

    pub delete_host_entry_in_nodes : Items → Option Items
    delete_host_entry_in_nodes nil = none
    delete_host_entry_in_nodes (cons v rest) = elim (is_target host_name v) [
      | true ↦ some rest
      | false ↦ elim (delete_below v) [
        | some w ↦ some (cons w rest)
        | none ↦ Option.map (λ others. cons v others) (delete_host_entry_in_nodes rest)
      ]
    ]

-- What is taken: the entry, the folders that it was in, and what the place holds without it.
pub record Taken {ℓ} (A : Type ℓ) : Type ℓ where
  pub entry : Value
  pub path : List Text
  pub left : A

abbrev pub with_left {ℓ κ} : {A : Type ℓ} {B : Type κ} → (A → B) → Taken A → Taken B
with_left f t = record { entry = t.entry; path = t.path; left = f t.left }

module _ (host_name : Text) where
  unfoldable mutual
    pub take_below : List Text → Value → Option (Taken Value)
    take_below path null = none
    take_below path (bool b) = none
    take_below path (number n) = none
    take_below path (string s) = none
    take_below path (sequence items) = none
    take_below path (mapping fields) =
        if is_host_mapping fields
        then none
        else Option.map (with_left mapping) (take_in_folder path fields)

    pub take_in_folder : List Text → Fields → Option (Taken Fields)
    take_in_folder path end = none
    take_in_folder path (field k v end) =
        Option.map (with_left (λ w. field k w end)) (take_in_list (path ++ k ∷ []) v)
    take_in_folder path (field k v (field l w rest)) = none

    pub take_in_list : List Text → Value → Option (Taken Value)
    take_in_list path null = none
    take_in_list path (bool b) = none
    take_in_list path (number n) = none
    take_in_list path (string s) = none
    take_in_list path (sequence items) =
        Option.map (with_left sequence) (take_host_entry_in_nodes path items)
    take_in_list path (mapping fields) = none

    pub take_host_entry_in_nodes : List Text → Items → Option (Taken Items)
    take_host_entry_in_nodes path nil = none
    take_host_entry_in_nodes path (cons v rest) = elim (is_target host_name v) [
      | true ↦ some (record { entry = v; path = path; left = rest })
      | false ↦ elim (take_below path v) [
        | some t ↦ some (with_left (λ w. cons w rest) t)
        | none ↦
            Option.map (with_left (λ others. cons v others)) (take_host_entry_in_nodes path rest)
      ]
    ]

  unfoldable mutual
    pub find_below : List Text → Value → Option (List Text)
    find_below path null = none
    find_below path (bool b) = none
    find_below path (number n) = none
    find_below path (string s) = none
    find_below path (sequence items) = none
    find_below path (mapping fields) =
        if is_host_mapping fields then none else find_in_folder path fields

    pub find_in_folder : List Text → Fields → Option (List Text)
    find_in_folder path end = none
    find_in_folder path (field k v end) = find_in_list (path ++ k ∷ []) v
    find_in_folder path (field k v (field l w rest)) = none

    pub find_in_list : List Text → Value → Option (List Text)
    find_in_list path null = none
    find_in_list path (bool b) = none
    find_in_list path (number n) = none
    find_in_list path (string s) = none
    find_in_list path (sequence items) = find_host_folder_path_in_nodes path items
    find_in_list path (mapping fields) = none

    pub find_host_folder_path_in_nodes : List Text → Items → Option (List Text)
    find_host_folder_path_in_nodes path nil = none
    find_host_folder_path_in_nodes path (cons v rest) = elim (is_target host_name v) [
      | true ↦ some path
      | false ↦ elim (find_below path v) [
        | some found ↦ some found
        | none ↦ find_host_folder_path_in_nodes path rest
      ]
    ]
