-- ===== src/Inventory/Edit/Hosts/Found.antt =====
-- A host entry is found exactly where one has the name.
use color_ssh.Base.{
  Text, none, some, Bool, true, false, List, [], ◌∷◌, ◌++◌, ◌≡◌, refl, inl, inr, arith, Bool-cases,
  Option-cases,
}
use color_ssh.Inventory.Value.{
  Value, null, bool, number, string, sequence, mapping, Items, nil, cons, Fields, end, field,
}
use color_ssh.Inventory.Edit.{host_name_matches}
use color_ssh.Inventory.Edit.Hosts.{
  tally_node, tally_folder, tally_list, tally, is_target, Taken, take_below, take_in_folder,
  take_in_list, take_host_entry_in_nodes,
}

module _ (host_name : Text) where
  mutual
    unfolding take_below

    take_below-is_target :
        (path : List Text) (v : Value) (t : Taken Value)
        → take_below host_name path v ≡ some t
        → is_target host_name t.entry ≡ true
    take_below-is_target path null t h = cc
    take_below-is_target path (bool b) t h = cc
    take_below-is_target path (number n) t h = cc
    take_below-is_target path (string s) t h = cc
    take_below-is_target path (sequence items) t h = cc
    take_below-is_target path (mapping fields) t h =
        elim (Option-cases (take_in_folder host_name path fields)) [
          | inl n ↦ absurd (ground (arith, n))
          | inr (u, f) ↦ ground (arith, take_in_folder-is_target path fields u f, f)
        ]

    take_in_folder-is_target :
        (path : List Text) (fields : Fields) (t : Taken Fields)
        → take_in_folder host_name path fields ≡ some t
        → is_target host_name t.entry ≡ true
    take_in_folder-is_target path end t h = cc
    take_in_folder-is_target path (field k v end) t h =
        elim (Option-cases (take_in_list host_name (path ++ k ∷ []) v)) [
          | inl n ↦ absurd (ground (arith, n))
          | inr (u, f) ↦ ground (arith, take_in_list-is_target (path ++ k ∷ []) v u f, f)
        ]
    take_in_folder-is_target path (field k v (field l w rest)) t h = cc

    take_in_list-is_target :
        (path : List Text) (v : Value) (t : Taken Value)
        → take_in_list host_name path v ≡ some t
        → is_target host_name t.entry ≡ true
    take_in_list-is_target path null t h = cc
    take_in_list-is_target path (bool b) t h = cc
    take_in_list-is_target path (number n) t h = cc
    take_in_list-is_target path (string s) t h = cc
    take_in_list-is_target path (sequence items) t h =
        elim (Option-cases (take_host_entry_in_nodes host_name path items)) [
          | inl n ↦ absurd (ground (arith, n))
          | inr (u, f) ↦ ground (arith, take-is_target path items u f, f)
        ]
    take_in_list-is_target path (mapping fields) t h = cc

    pub take-is_target :
        (path : List Text) (items : Items) (t : Taken Items)
        → take_host_entry_in_nodes host_name path items ≡ some t
        → is_target host_name t.entry ≡ true
    take-is_target path nil t h = cc
    take-is_target path (cons v rest) t h = elim (Bool-cases (is_target host_name v)) [
      | inl e ↦ ground (arith, e)
      | inr e ↦ elim (Option-cases (take_below host_name path v)) [
        | inr (u, f) ↦ ground (arith, take_below-is_target path v u f, e, f)
        | inl n ↦ elim (Option-cases (take_host_entry_in_nodes host_name path rest)) [
          | inl m ↦ absurd (ground (arith, e, n, m))
          | inr (u, f) ↦ ground (arith, take-is_target path rest u f, e, n, f)
        ]
      ]
    ]

  abbrev has_name : Fields → Bool
  has_name fields = host_name_matches fields host_name

  -- What is not found is not there.
  mutual
    unfolding take_below tally_node

    take_below-none :
        (path : List Text) (v : Value)
        → take_below host_name path v ≡ none
        → is_target host_name v ≡ false
        → tally_node has_name v ≡ 0
    take_below-none path null h n = refl
    take_below-none path (bool b) h n = refl
    take_below-none path (number m) h n = refl
    take_below-none path (string s) h n = refl
    take_below-none path (sequence items) h n = refl
    take_below-none path (mapping fields) h n = ground (arith, take_in_folder-none path fields)

    take_in_folder-none :
        (path : List Text) (fields : Fields)
        → take_in_folder host_name path fields ≡ none
        → tally_folder has_name fields ≡ 0
    take_in_folder-none path end h = refl
    take_in_folder-none path (field k v end) h =
        ground (arith, take_in_list-none (path ++ k ∷ []) v)
    take_in_folder-none path (field k v (field l w rest)) h = refl

    take_in_list-none :
        (path : List Text) (v : Value)
        → take_in_list host_name path v ≡ none
        → tally_list has_name v ≡ 0
    take_in_list-none path null h = refl
    take_in_list-none path (bool b) h = refl
    take_in_list-none path (number m) h = refl
    take_in_list-none path (string s) h = refl
    take_in_list-none path (sequence items) h = ground (arith, take_none path items)
    take_in_list-none path (mapping fields) h = refl

    pub take_none :
        (path : List Text) (items : Items)
        → take_host_entry_in_nodes host_name path items ≡ none
        → tally has_name items ≡ 0
    take_none path nil h = refl
    take_none path (cons v rest) h = ground (arith, take_below-none path v, take_none path rest)
