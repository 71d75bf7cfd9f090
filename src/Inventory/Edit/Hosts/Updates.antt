-- ===== src/Inventory/Edit/Hosts/Updates.antt =====
-- What an update of a host entry does to the entries.
use color_ssh.Base.{
  ◌||◌, ◌+◌, Text, Option, none, some, Bool, true, false, List, [], ◌∷◌, ◌++◌, ◌≡◌, refl, inl, inr,
  arith, Bool-cases, Option-cases,
}
use color_ssh.Inventory.Value.{
  Value, null, bool, number, string, sequence, mapping, Items, nil, cons, Fields, end, field,
  is_host_mapping,
}
use color_ssh.Inventory.Edit.{EditableInventoryHost, apply_editable_host_to_mapping}
use color_ssh.Inventory.Edit.Hosts.{
  tally_node, tally_folder, tally_list, tally, is_target, Taken, take_below, take_in_folder,
  take_in_list, take_host_entry_in_nodes, update_host_entry, update_in_folder, update_in_list,
  update_host_entry_in_nodes,
}

module _ (remove : Text → Fields → Fields) (name : Text) (host : EditableInventoryHost) where
  -- The entry as the editor writes it.
  abbrev pub rewritten : Value → Value
  rewritten (mapping fields) = mapping (apply_editable_host_to_mapping remove fields host)
  rewritten v = v

  abbrev is_some : {A : Type 0} → Option A → Bool
  is_some none = false
  is_some (some _) = true

  mutual
    unfolding take_below update_host_entry

    update_node-is_some :
        (path : List Text) (v : Value)
        → is_some (update_host_entry remove name host v)
          ≡ (is_target name v || is_some (take_below name path v))
    update_node-is_some path null = refl
    update_node-is_some path (bool b) = refl
    update_node-is_some path (number m) = refl
    update_node-is_some path (string s) = refl
    update_node-is_some path (sequence items) = refl
    update_node-is_some path (mapping fields) = ground (arith, update_folder-is_some path fields)

    update_folder-is_some :
        (path : List Text) (fields : Fields)
        → is_some (update_in_folder remove name host fields)
          ≡ is_some (take_in_folder name path fields)
    update_folder-is_some path end = refl
    update_folder-is_some path (field k v end) =
        ground (arith, update_list-is_some (path ++ k ∷ []) v)
    update_folder-is_some path (field k v (field l w rest)) = refl

    update_list-is_some :
        (path : List Text) (v : Value)
        → is_some (update_in_list remove name host v) ≡ is_some (take_in_list name path v)
    update_list-is_some path null = refl
    update_list-is_some path (bool b) = refl
    update_list-is_some path (number m) = refl
    update_list-is_some path (string s) = refl
    update_list-is_some path (sequence items) = ground (arith, update-is_some path items)
    update_list-is_some path (mapping fields) = refl

    pub update-is_some :
        (path : List Text) (items : Items)
        → is_some (update_host_entry_in_nodes remove name host items)
          ≡ is_some (take_host_entry_in_nodes name path items)
    update-is_some path nil = refl
    update-is_some path (cons v rest) =
        ground (arith, update_node-is_some path v, update-is_some path rest)

  module _ (p : Fields → Bool) where
    target-update :
        (v w : Value)
        → is_target name v ≡ true
        → update_host_entry remove name host v ≡ some w
        → tally_node p w ≡ tally_node p (rewritten v)
    unfolding update_host_entry
    target-update null w n h = cc
    target-update (bool b) w n h = cc
    target-update (number m) w n h = cc
    target-update (string s) w n h = cc
    target-update (sequence items) w n h = cc
    target-update (mapping fields) w n h = ground arith

    mutual
      unfolding tally_node take_below update_host_entry is_host_mapping

      tally-update_node :
          (path : List Text) (v w : Value) (t : Taken Value)
          → update_host_entry remove name host v ≡ some w
          → take_below name path v ≡ some t
          → tally_node p w + tally_node p t.entry
            ≡ tally_node p v + tally_node p (rewritten t.entry)
      tally-update_node path null w t h k = cc
      tally-update_node path (bool b) w t h k = cc
      tally-update_node path (number m) w t h k = cc
      tally-update_node path (string s) w t h k = cc
      tally-update_node path (sequence items) w t h k = cc
      tally-update_node path (mapping fields) w t h k =
          elim (Option-cases (update_in_folder remove name host fields)) [
            | inl n ↦ absurd (ground (arith, n))
            | inr (u, f) ↦ elim (Option-cases (take_in_folder name path fields)) [
              | inl n ↦ absurd (ground (arith, n))
              | inr (s, g) ↦
                  let ih = tally-update_folder path fields u s f g in
                  ground (arith, ih.0, ih.1, f, g)
            ]
          ]

      tally-update_folder :
          (path : List Text) (fields w : Fields) (t : Taken Fields)
          → update_in_folder remove name host fields ≡ some w
          → take_in_folder name path fields ≡ some t
          → (tally_folder p w + tally_node p t.entry
              ≡ tally_folder p fields + tally_node p (rewritten t.entry))
            × (is_host_mapping w ≡ is_host_mapping fields)
      tally-update_folder path end w t h k = cc
      tally-update_folder path (field l v end) w t h k =
          elim (Option-cases (update_in_list remove name host v)) [
            | inl n ↦ absurd (ground (arith, n))
            | inr (u, f) ↦ elim (Option-cases (take_in_list name (path ++ l ∷ []) v)) [
              | inl n ↦ absurd (ground (arith, n))
              | inr (s, g) ↦ ground (arith, tally-update_list (path ++ l ∷ []) v u s f g, f, g)
            ]
          ]
      tally-update_folder path (field l v (field j x rest)) w t h k = cc

      tally-update_list :
          (path : List Text) (v w : Value) (t : Taken Value)
          → update_in_list remove name host v ≡ some w
          → take_in_list name path v ≡ some t
          → tally_list p w + tally_node p t.entry
            ≡ tally_list p v + tally_node p (rewritten t.entry)
      tally-update_list path null w t h k = cc
      tally-update_list path (bool b) w t h k = cc
      tally-update_list path (number m) w t h k = cc
      tally-update_list path (string s) w t h k = cc
      tally-update_list path (sequence items) w t h k =
          elim (Option-cases (update_host_entry_in_nodes remove name host items)) [
            | inl n ↦ absurd (ground (arith, n))
            | inr (u, f) ↦ elim (Option-cases (take_host_entry_in_nodes name path items)) [
              | inl n ↦ absurd (ground (arith, n))
              | inr (s, g) ↦ ground (arith, tally-update path items u s f g, f, g)
            ]
          ]
      tally-update_list path (mapping fields) w t h k = cc

      pub tally-update :
          (path : List Text) (items w : Items) (t : Taken Items)
          → update_host_entry_in_nodes remove name host items ≡ some w
          → take_host_entry_in_nodes name path items ≡ some t
          → tally p w + tally_node p t.entry ≡ tally p items + tally_node p (rewritten t.entry)
      tally-update path nil w t h k = cc
      tally-update path (cons v rest) w t h k =
          elim (Option-cases (update_host_entry remove name host v)) [
            | inr (u, f) ↦ elim (Bool-cases (is_target name v)) [
              | inl e ↦ ground (arith, target-update v u e f, e, f)
              | inr e ↦ elim (Option-cases (take_below name path v)) [
                | inr (s, g) ↦ ground (arith, tally-update_node path v u s f g, e, f, g)
                | inl n ↦ absurd (ground (arith, update_node-is_some path v, e, f, n))
              ]
            ]
            | inl m ↦ elim (Bool-cases (is_target name v)) [
              | inl e ↦ absurd (ground (arith, update_node-is_some path v, e, m))
              | inr e ↦ elim (Option-cases (take_below name path v)) [
                | inr (s, g) ↦ absurd (ground (arith, update_node-is_some path v, m, g))
                | inl n ↦ elim (Option-cases (update_host_entry_in_nodes remove name host rest)) [
                  | inl x ↦ absurd (ground (arith, m, x))
                  | inr (u, f) ↦ elim (Option-cases (take_host_entry_in_nodes name path rest)) [
                    | inl x ↦ absurd (ground (arith, e, n, x))
                    | inr (s, g) ↦ ground (arith, tally-update path rest u s f g, e, m, n, f, g)
                  ]
                ]
              ]
            ]
          ]
