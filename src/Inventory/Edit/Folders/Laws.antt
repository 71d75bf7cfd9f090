-- ===== src/Inventory/Edit/Folders/Laws.antt =====
-- What the operations of the editor keep, add and remove, for hosts and for folders.
use color_ssh.Base.{
  ℕ, ◌+◌, Text, Result, ok, err, some, Bool, true, List, [], ◌≡◌, refl, inl, inr, arith,
  if◌then◌else◌, Bool-cases, Option-cases, Result-cases,
}
use color_ssh.Inventory.Value.{Value, mapping, Items, nil, cons, Fields, push}
use color_ssh.Inventory.Edit.{
  is_folder, host_name_matches, EditableInventoryHost, editable_host_mapping,
}
use color_ssh.Inventory.Edit.Hosts.{
  tally_node, tally, is_target, take_host_entry_in_nodes, find_host_folder_path_in_nodes, any_host,
  count_hosts_in_nodes, update_host_entry_in_nodes,
}
use color_ssh.Inventory.Edit.Hosts.Laws.{tally-take, searches_agree}
use color_ssh.Inventory.Edit.Hosts.Found.{take-is_target, take_none}
use color_ssh.Inventory.Edit.Hosts.Updates.{rewritten, tally-update, update-is_some}
use color_ssh.Inventory.Edit.Applied.{editable-is_host_mapping}
use color_ssh.Inventory.Edit.Folders.{
  EditError, host_not_found, push_node, paths_eq, move_entry, create_entry, delete_entry,
  update_entry, find_folder_nodes, take_folder, remove_folder, delete_folder,
}
use color_ssh.Inventory.Edit.Folders.Tallies.{Shifts, shift-ensure, shift-find, tally-push}

module _ (p : Fields → Bool) where
  shift-push_node : (v : Value) → Shifts p (λ _. 0) (tally_node p v) (push_node v)
  shift-push_node v = record { shift = λ nodes left x h. ground (arith, tally-push p v nodes) }

  shift-push :
      (v : Value) → Shifts {A = Bool} p (λ _. 0) (tally_node p v) (λ items. ok (true, push v items))
  shift-push v = record { shift = λ nodes left x h. ground (arith, tally-push p v nodes) }

  -- Moving a host to another folder changes no host entry and loses none: as many pass any test as
  -- before.
  pub move_keeps :
      (host_name : Text) (target : List Text) (nodes left : Items) (moved : Bool)
      → move_entry host_name target nodes ≡ ok (moved, left)
      → tally p left ≡ tally p nodes
  unfolding move_entry
  move_keeps host_name target nodes left moved h =
      elim (Option-cases (find_host_folder_path_in_nodes host_name [] nodes)) [
        | inl n ↦ absurd (ground (arith, n))
        | inr (current, f) ↦ elim (Bool-cases (paths_eq current target)) [
          | inl e ↦ ground (arith, f, e)
          | inr e ↦ elim (Option-cases (take_host_entry_in_nodes host_name [] nodes)) [
            | inl n ↦ absurd (ground (arith, f, e, n))
            | inr (t, g) ↦ ground (
              arith,
              tally-take p host_name [] nodes t g,
              (shift-ensure p (λ _. 0) (tally_node p t.entry)
                    (λ items. ok (true, push t.entry items)) (shift-push t.entry) target).shift
                  t.left left moved (ground (arith, f, e, g)),
            )
          ]
        ]
      ]

  -- A host is created once, in its folder or in one made for it; no other entry is changed.
  pub create_adds :
      (folder_path : List Text) (host : EditableInventoryHost) (nodes left : Items)
      → create_entry folder_path host nodes ≡ ok (tt, left)
      → tally p left ≡ tally p nodes + (if p (editable_host_mapping host) then 1 else 0)
  unfolding create_entry tally_node
  create_adds folder_path host nodes left h =
      let node = mapping (editable_host_mapping host) in
      ground (
        arith,
        (shift-ensure p (λ _. 0) (tally_node p node) (push_node node) (shift-push_node node)
              folder_path).shift
            nodes left tt h,
        editable-is_host_mapping host,
      )

  abbrev IsDeleted : Text → Items → Result EditError (Unit {0} × Items) → Type 0
  IsDeleted host_name nodes (ok (done, left)) =
      (v : Value) × (is_target host_name v ≡ true) × (tally p nodes ≡ tally_node p v + tally p left)
  IsDeleted host_name nodes (err e) =
      (e ≡ host_not_found host_name)
      × (tally (λ fields. host_name_matches fields host_name) nodes ≡ 0)

  -- Deleting a host takes out one entry with its name and keeps every other; it fails only where no
  -- entry has the name.
  pub delete_removes :
      (host_name : Text) (nodes : Items) → IsDeleted host_name nodes (delete_entry host_name nodes)
  unfolding delete_entry
  delete_removes host_name nodes =
      elim (Option-cases (take_host_entry_in_nodes host_name [] nodes)) [
        | inl n ↦
            let missing : delete_entry host_name nodes ≡ err (host_not_found host_name) =
              ground (arith, (searches_agree host_name [] nodes).0, n) in
            rw missing (refl, take_none host_name [] nodes n)
        | inr (t, g) ↦
            let done : delete_entry host_name nodes ≡ ok (tt, t.left) =
              ground (arith, (searches_agree host_name [] nodes).0, g) in
            rw done
              (t.entry, take-is_target host_name [] nodes t g, tally-take p host_name [] nodes t g)
      ]

  -- Updating a host rewrites one entry with its name, in its place, and keeps every other.
  pub update_rewrites :
      (remove : Text → Fields → Fields) (name : Text) (host : EditableInventoryHost)
      (nodes left : Items)
      → update_entry remove name host nodes ≡ ok (tt, left)
      → (v : Value) × (is_target name v ≡ true)
        × (tally p left + tally_node p v
            ≡ tally p nodes + tally_node p (rewritten remove name host v))
  unfolding update_entry
  update_rewrites remove name host nodes left h =
      elim (Option-cases (update_host_entry_in_nodes remove name host nodes)) [
        | inl n ↦ absurd (ground (arith, n))
        | inr (u, f) ↦ elim (Option-cases (take_host_entry_in_nodes name [] nodes)) [
          | inl n ↦ absurd (ground (arith, update-is_some remove name host [] nodes, f, n))
          | inr (t, g) ↦ (
            t.entry,
            take-is_target name [] nodes t g,
            ground (arith, tally-update remove name host p [] nodes u t f g, f),
          )
        ]
      ]

  pub tally-take_folder :
      (name : Text) (nodes left : Items) (v : Value)
      → take_folder name nodes ≡ some (v, left)
      → tally p left + tally_node p v ≡ tally p nodes + 0
  unfolding take_folder tally_node
  tally-take_folder name nil left v h = cc
  tally-take_folder name (cons u rest) left v h = elim (Bool-cases (is_folder name u)) [
    | inl e ↦ ground (arith, e)
    | inr e ↦ elim (Option-cases (take_folder name rest)) [
      | inl n ↦ absurd (ground (arith, e, n))
      | inr ((w, l), n) ↦ ground (arith, tally-take_folder name rest l w n, e, n)
    ]
  ]

  pub shift-remove_folder : (name : Text) → Shifts p (tally_node p) 0 (remove_folder name)
  shift-remove_folder name = record {
    shift = λ nodes left x h. elim (Option-cases (take_folder name nodes)) [
      | inl n ↦ absurd (ground (arith, n))
      | inr (r, n) ↦ tally-take_folder name nodes left x (ground (arith, n))
    ];
  }

-- The number that the deletion of a folder returns is the number of hosts that the inventory has
-- fewer.
pub delete_folder_count :
    (parent_path : List Text) (folder_name : Text) (nodes left : Items) (n : ℕ)
    → delete_folder parent_path folder_name nodes ≡ ok (n, left)
    → count_hosts_in_nodes nodes ≡ count_hosts_in_nodes left + n
unfolding delete_folder
delete_folder_count parent_path folder_name nodes left n h =
    elim (Result-cases (find_folder_nodes (remove_folder folder_name) parent_path nodes)) [
      | inr (e, m) ↦ absurd (ground (arith, m))
      | inl ((v, l), m) ↦ ground (
        arith,
        (shift-find any_host (tally_node any_host) 0 (remove_folder folder_name)
              (shift-remove_folder any_host folder_name) parent_path).shift
            nodes l v m,
        m,
      )
    ]
