-- ===== src/Inventory/Edit/Hosts/Laws.antt =====
-- What the search for a host entry takes out of the nodes, and that the searches agree.
use mathlib.Core.Option
use color_ssh.Base.{
  ◌+◌, Text, some, Bool, List, [], ◌∷◌, ◌++◌, ◌≡◌, refl, inl, inr, arith, Bool-cases, Option-cases,
}
use color_ssh.Inventory.Value.{
  Value, null, bool, number, string, sequence, mapping, Items, nil, cons, Fields, end, field,
  is_host_mapping,
}
use color_ssh.Inventory.Edit.Hosts.{
  tally_node, tally_folder, tally_list, tally, is_target, Taken, take_below, take_in_folder,
  take_in_list, take_host_entry_in_nodes, delete_below, delete_in_folder, delete_in_list,
  delete_host_entry_in_nodes, find_below, find_in_folder, find_in_list,
  find_host_folder_path_in_nodes,
}

module _ (p : Fields → Bool) (host_name : Text) where
  mutual
    unfolding tally_node take_below is_host_mapping

    tally-take_below :
        (path : List Text) (v : Value) (t : Taken Value)
        → take_below host_name path v ≡ some t
        → tally_node p v ≡ tally_node p t.entry + tally_node p t.left
    tally-take_below path null t h = cc
    tally-take_below path (bool b) t h = cc
    tally-take_below path (number n) t h = cc
    tally-take_below path (string s) t h = cc
    tally-take_below path (sequence items) t h = cc
    tally-take_below path (mapping fields) t h =
        elim (Option-cases (take_in_folder host_name path fields)) [
          | inl n ↦ absurd (ground (arith, n))
          | inr (u, f) ↦
              let ih = tally-take_in_folder path fields u f in ground (arith, ih.0, ih.1, f)
        ]

    tally-take_in_folder :
        (path : List Text) (fields : Fields) (t : Taken Fields)
        → take_in_folder host_name path fields ≡ some t
        → (tally_folder p fields ≡ tally_node p t.entry + tally_folder p t.left)
          × (is_host_mapping t.left ≡ is_host_mapping fields)
    tally-take_in_folder path end t h = cc
    tally-take_in_folder path (field k v end) t h =
        elim (Option-cases (take_in_list host_name (path ++ k ∷ []) v)) [
          | inl n ↦ absurd (ground (arith, n))
          | inr (u, f) ↦ ground (arith, tally-take_in_list (path ++ k ∷ []) v u f, f)
        ]
    tally-take_in_folder path (field k v (field l w rest)) t h = cc

    tally-take_in_list :
        (path : List Text) (v : Value) (t : Taken Value)
        → take_in_list host_name path v ≡ some t
        → tally_list p v ≡ tally_node p t.entry + tally_list p t.left
    tally-take_in_list path null t h = cc
    tally-take_in_list path (bool b) t h = cc
    tally-take_in_list path (number n) t h = cc
    tally-take_in_list path (string s) t h = cc
    tally-take_in_list path (sequence items) t h =
        elim (Option-cases (take_host_entry_in_nodes host_name path items)) [
          | inl n ↦ absurd (ground (arith, n))
          | inr (u, f) ↦ ground (arith, tally-take path items u f, f)
        ]
    tally-take_in_list path (mapping fields) t h = cc

    pub tally-take :
        (path : List Text) (items : Items) (t : Taken Items)
        → take_host_entry_in_nodes host_name path items ≡ some t
        → tally p items ≡ tally_node p t.entry + tally p t.left
    tally-take path nil t h = cc
    tally-take path (cons v rest) t h = elim (Bool-cases (is_target host_name v)) [
      | inl e ↦ ground (arith, e)
      | inr e ↦ elim (Option-cases (take_below host_name path v)) [
        | inr (u, f) ↦ ground (arith, tally-take_below path v u f, e, f)
        | inl n ↦ elim (Option-cases (take_host_entry_in_nodes host_name path rest)) [
          | inl m ↦ absurd (ground (arith, e, n, m))
          | inr (u, f) ↦ ground (arith, tally-take path rest u f, e, n, f)
        ]
      ]
    ]

module _ (host_name : Text) where
  mutual
    unfolding take_below delete_below

    delete-take_below :
        (path : List Text) (v : Value)
        → delete_below host_name v ≡ Option.map (λ t. t.left) (take_below host_name path v)
    delete-take_below path null = refl
    delete-take_below path (bool b) = refl
    delete-take_below path (number n) = refl
    delete-take_below path (string s) = refl
    delete-take_below path (sequence items) = refl
    delete-take_below path (mapping fields) = ground (arith, delete-take_in_folder path fields)

    delete-take_in_folder :
        (path : List Text) (fields : Fields)
        → delete_in_folder host_name fields
          ≡ Option.map (λ t. t.left) (take_in_folder host_name path fields)
    delete-take_in_folder path end = refl
    delete-take_in_folder path (field k v end) =
        ground (arith, delete-take_in_list (path ++ k ∷ []) v)
    delete-take_in_folder path (field k v (field l w rest)) = refl

    delete-take_in_list :
        (path : List Text) (v : Value)
        → delete_in_list host_name v ≡ Option.map (λ t. t.left) (take_in_list host_name path v)
    delete-take_in_list path null = refl
    delete-take_in_list path (bool b) = refl
    delete-take_in_list path (number n) = refl
    delete-take_in_list path (string s) = refl
    delete-take_in_list path (sequence items) = ground (arith, delete-take path items)
    delete-take_in_list path (mapping fields) = refl

    delete-take :
        (path : List Text) (items : Items)
        → delete_host_entry_in_nodes host_name items
          ≡ Option.map (λ t. t.left) (take_host_entry_in_nodes host_name path items)
    delete-take path nil = refl
    delete-take path (cons v rest) = ground (arith, delete-take_below path v, delete-take path rest)

  mutual
    unfolding take_below find_below

    find-take_below :
        (path : List Text) (v : Value)
        → find_below host_name path v ≡ Option.map (λ t. t.path) (take_below host_name path v)
    find-take_below path null = refl
    find-take_below path (bool b) = refl
    find-take_below path (number n) = refl
    find-take_below path (string s) = refl
    find-take_below path (sequence items) = refl
    find-take_below path (mapping fields) = ground (arith, find-take_in_folder path fields)

    find-take_in_folder :
        (path : List Text) (fields : Fields)
        → find_in_folder host_name path fields
          ≡ Option.map (λ t. t.path) (take_in_folder host_name path fields)
    find-take_in_folder path end = refl
    find-take_in_folder path (field k v end) = ground (arith, find-take_in_list (path ++ k ∷ []) v)
    find-take_in_folder path (field k v (field l w rest)) = refl

    find-take_in_list :
        (path : List Text) (v : Value)
        → find_in_list host_name path v ≡ Option.map (λ t. t.path) (take_in_list host_name path v)
    find-take_in_list path null = refl
    find-take_in_list path (bool b) = refl
    find-take_in_list path (number n) = refl
    find-take_in_list path (string s) = refl
    find-take_in_list path (sequence items) = ground (arith, find-take path items)
    find-take_in_list path (mapping fields) = refl

    find-take :
        (path : List Text) (items : Items)
        → find_host_folder_path_in_nodes host_name path items
          ≡ Option.map (λ t. t.path) (take_host_entry_in_nodes host_name path items)
    find-take path nil = refl
    find-take path (cons v rest) = ground (arith, find-take_below path v, find-take path rest)

  -- The three searches for a host by name agree: what is deleted is what is taken, and the folder
  -- that is found is the one it is taken from.
  pub searches_agree :
      (path : List Text) (items : Items)
      → let taken = take_host_entry_in_nodes host_name path items in
        (delete_host_entry_in_nodes host_name items ≡ Option.map (λ t. t.left) taken)
        × (find_host_folder_path_in_nodes host_name path items ≡ Option.map (λ t. t.path) taken)
  searches_agree path items = (delete-take path items, find-take path items)
