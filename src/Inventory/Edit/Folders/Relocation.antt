-- ===== src/Inventory/Edit/Folders/Relocation.antt =====
-- A folder that is renamed or moved keeps its hosts (src/inventory/edit.rs).
use color_ssh.Base.{
  ℕ, ◌+◌, Text, Result, ok, err, some, Bool, true, false, List, ◌≡◌, inl, inr, arith, Bool-cases,
  Option-cases, Result-cases,
}
use color_ssh.Inventory.Value.{
  Value, null, bool, number, string, sequence, mapping, Items, nil, cons, Fields, end, field,
  insert, is_host_mapping,
}
use color_ssh.Inventory.Edit.{is_folder}
use color_ssh.Inventory.Edit.Applied.{names_host}
use color_ssh.Inventory.Edit.Hosts.{tally_node, tally}
use color_ssh.Inventory.Edit.Folders.{
  EditError, find_folder_nodes, take_folder, remove_folder, relocate, renamed, push_folder,
  any_folder,
}
use color_ssh.Inventory.Edit.Folders.Tallies.{Shifts, shift-ensure, shift-find, tally-push}

module _ (remove : Text → Fields → Fields)
    (remove_only : (k : Text) (v : Value) → remove k (field k v end) ≡ end) (p : Fields → Bool)
    (name : Text) (folder_name : names_host name ≡ false) where
  abbrev tally_result : Result EditError Value → ℕ
  tally_result (ok node) = tally_node p node
  tally_result (err e) = 0

  tally-renamed :
      (current : Text) (v : Value)
      → is_folder current v ≡ true
      → tally_result (renamed remove name v) ≡ tally_node p v
  unfolding renamed is_folder tally_node is_host_mapping insert
  tally-renamed current (mapping (field k v end)) h = ground (arith, remove_only k v, folder_name)
  tally-renamed current (mapping (field k v (field l w rest))) h = absurd (ground arith)
  tally-renamed current (mapping end) h = absurd (ground arith)
  tally-renamed current null h = absurd (ground arith)
  tally-renamed current (bool b) h = absurd (ground arith)
  tally-renamed current (number b) h = absurd (ground arith)
  tally-renamed current (string b) h = absurd (ground arith)
  tally-renamed current (sequence b) h = absurd (ground arith)

  tally-take :
      (current : Text) (nodes left : Items) (v : Value)
      → take_folder current nodes ≡ some (v, left)
      → tally p left + tally_result (renamed remove name v) ≡ tally p nodes
  unfolding take_folder tally_node
  tally-take current nil left v h = cc
  tally-take current (cons u rest) left v h = elim (Bool-cases (is_folder current u)) [
    | inl e ↦ ground (arith, e, tally-renamed current u e)
    | inr e ↦ elim (Option-cases (take_folder current rest)) [
      | inl n ↦ absurd (ground (arith, e, n))
      | inr ((w, l), n) ↦ ground (arith, tally-take current rest l w n, e, n)
    ]
  ]

  shift-remove :
      (current : Text)
      → Shifts p (λ v. tally_result (renamed remove name v)) 0 (remove_folder current)
  shift-remove current = record {
    shift = λ nodes left x h. elim (Option-cases (take_folder current nodes)) [
      | inl n ↦ absurd (ground (arith, n))
      | inr (r, n) ↦ ground (arith, tally-take current nodes left x (ground (arith, n)))
    ];
  }

  shift-push_folder : (v : Value) → Shifts p (λ _. 0) (tally_node p v) (push_folder name v)
  unfolding push_folder
  shift-push_folder v = record {
    shift = λ nodes left x h. elim (Bool-cases (any_folder name nodes)) [
      | inl e ↦ absurd (ground (arith, e))
      | inr e ↦ ground (arith, tally-push p v nodes, e)
    ];
  }

  -- A folder that is moved or renamed, to a name that does not read as the key of a host's name,
  -- takes its hosts along: as many pass any test as before, where the library's removal of a
  -- mapping's only key leaves the mapping empty.
  pub relocate_keeps :
      (parent : List Text) (current : Text) (target : List Text) (nodes left : Items)
      → relocate remove parent current target name nodes ≡ ok (tt, left)
      → tally p left ≡ tally p nodes
  unfolding relocate
  relocate_keeps parent current target nodes left h =
      elim (Result-cases (find_folder_nodes (remove_folder current) parent nodes)) [
        | inr (e, m) ↦ absurd (ground (arith, m))
        | inl ((v, l), m) ↦ elim (Result-cases (renamed remove name v)) [
          | inr (e, g) ↦ absurd (ground (arith, m, g))
          | inl (folder, g) ↦ ground (
            arith,
            (shift-find p (λ v. tally_result (renamed remove name v)) 0 (remove_folder current)
                  (shift-remove current) parent).shift
                nodes l v m,
            (shift-ensure p (λ _. 0) (tally_node p folder) (push_folder name folder)
                  (shift-push_folder folder) target).shift
                l left tt (ground (arith, m, g)),
            m,
            g,
          )
        ]
      ]
