-- ===== src/Inventory/Parse/Documents/Laws.antt =====
-- The parser and the editor read one document alike (src/inventory/parse.rs, src/inventory/edit.rs).
use color_ssh.Base.{
  ℕ, ◌+◌, Text, codes, text_eq, text_eq_iff, trim, is_empty, Result, ok, err, Option, true, false,
  if◌then◌else◌, >>=-eq-ok, ◌≡◌, refl, subst, inl, inr, arith, Bool-cases,
}
use color_ssh.Inventory.Value.{
  Value, null, bool, number, string, sequence, mapping, Items, nil, cons, Fields, end, field,
  is_host_mapping, canonical_host_key,
}
use color_ssh.Inventory.Model.{
  InventoryHostRaw, InventoryNodeRaw, host, folder, Nodes, none_left, node,
}
use color_ssh.Inventory.Edit.Hosts.{
  tally_node, tally_folder, tally_list, tally, any_host, count_hosts_in_nodes,
}
use color_ssh.Inventory.Edit.Folders.{folder_node}
use color_ssh.Inventory.Edit.Applied.{names_host}
use color_ssh.Inventory.Parse.{mapped, not_scalar}
use color_ssh.Inventory.Parse.HostFields.{
  parse_inventory_host, set_fields, with_name, default_host, set_field,
}
use color_ssh.Inventory.Parse.Documents.{
  parse_inventory_node, parse_folder, parse_inventory_nodes, parse_items,
}

mapped-eq-ok :
    {A B : Type 0} (f : A → B) (r : Result Text A) (b : B)
    → mapped f r ≡ ok b
    → (a : A) × (r ≡ ok a) × (b ≡ f a)
mapped-eq-ok f (ok a) b h = (a, refl, cc)
mapped-eq-ok f (err e) b h = cc

-- The hosts among the nodes that are read.
unfoldable mutual
  pub hosts_read : InventoryNodeRaw → ℕ
  hosts_read (host raw) = 1
  hosts_read (folder name items) = all_hosts_read items

  pub all_hosts_read : Nodes → ℕ
  all_hosts_read none_left = 0
  all_hosts_read (node first rest) = hosts_read first + all_hosts_read rest

module _ (parse_port : Text → Option ℕ) where
  mutual
    unfolding hosts_read tally_node parse_inventory_node

    hosts_read-node :
        (v : Value) (n : InventoryNodeRaw)
        → parse_inventory_node parse_port v ≡ ok n
        → hosts_read n ≡ tally_node any_host v
    hosts_read-node null n h = cc
    hosts_read-node (bool b) n h = cc
    hosts_read-node (number b) n h = cc
    hosts_read-node (string b) n h = cc
    hosts_read-node (sequence b) n h = cc
    hosts_read-node (mapping fields) n h = elim (Bool-cases (is_host_mapping fields)) [
      | inl e ↦
          let (raw, m, is) =
            mapped-eq-ok host (parse_inventory_host parse_port fields) n (ground (arith, e)) in
          ground (arith, e, is)
      | inr e ↦ ground (arith, hosts_read-folder fields n (ground (arith, e)), e)
    ]

    hosts_read-folder :
        (fields : Fields) (n : InventoryNodeRaw)
        → parse_folder parse_port fields ≡ ok n
        → hosts_read n ≡ tally_folder any_host fields
    hosts_read-folder end n h = cc
    hosts_read-folder (field name v end) n h =
        let (items, m, is) = mapped-eq-ok (folder name) (parse_inventory_nodes parse_port v) n h in
        ground (arith, hosts_read-list v items m, is)
    hosts_read-folder (field name v (field k w rest)) n h = cc

    hosts_read-list :
        (v : Value) (ns : Nodes)
        → parse_inventory_nodes parse_port v ≡ ok ns
        → all_hosts_read ns ≡ tally_list any_host v
    hosts_read-list null ns h = cc
    hosts_read-list (bool b) ns h = cc
    hosts_read-list (number b) ns h = cc
    hosts_read-list (string b) ns h = cc
    hosts_read-list (sequence items) ns h = hosts_read-items items ns h
    hosts_read-list (mapping b) ns h = cc

    hosts_read-items :
        (items : Items) (ns : Nodes)
        → parse_items parse_port items ≡ ok ns
        → all_hosts_read ns ≡ tally any_host items
    hosts_read-items nil ns h = ground arith
    hosts_read-items (cons v rest) ns h =
        let (first, m, more) =
          >>=-eq-ok (parse_inventory_node parse_port v)
            (λ first. mapped (node first) (parse_items parse_port rest)) h in
        let (others, k, is) = mapped-eq-ok (node first) (parse_items parse_port rest) ns more in
        ground (arith, hosts_read-node v first m, hosts_read-items rest others k, is)

  -- Nodes that the parser accepts have as many hosts as the editor counts in them.
  pub all_hosts_read-count :
      (items : Items) (nodes : Nodes)
      → parse_inventory_nodes parse_port (sequence items) ≡ ok nodes
      → all_hosts_read nodes ≡ count_hosts_in_nodes items
  unfolding tally tally_list
  all_hosts_read-count items nodes h = hosts_read-list (sequence items) nodes h

  with_name-some :
      (r : InventoryHostRaw) (raw : InventoryHostRaw)
      → with_name parse_port r ≡ ok raw
      → is_empty (trim raw.name) ≡ false
  with_name-some r raw h = elim (Bool-cases (is_empty (trim r.name))) [
    | inl e ↦ absurd (ground (arith, h, e))
    | inr e ↦
        let is : r ≡ raw = ground (arith, h, e) in
        subst (λ raw. is_empty (trim raw.name) ≡ false) is e
  ]

  -- A host that the parser accepts has a name that is not blank.
  pub parse_inventory_host-name :
      (fields : Fields) (raw : InventoryHostRaw)
      → parse_inventory_host parse_port fields ≡ ok raw
      → is_empty (trim raw.name) ≡ false
  unfolding parse_inventory_host
  parse_inventory_host-name fields raw h =
      let (r, m, k) =
        >>=-eq-ok (set_fields parse_port fields default_host) (with_name parse_port) h in
      with_name-some r raw k

  list-set_field :
      (original canonical : Text) (raw : InventoryHostRaw)
      → text_eq canonical (codes "name") ≡ true
      → set_field parse_port original canonical (sequence nil) raw ≡ err (not_scalar (codes "name"))
  unfolding set_field
  list-set_field original canonical raw e =
      rw ((text_eq_iff canonical (codes "name")).0 e, set_field) refl

  -- The folder that the editor makes for a name is read as that folder, unless its name reads as the
  -- key of a host's name; then it is refused.
  pub folder_node-read :
      (name : Text)
      → parse_inventory_node parse_port (folder_node name nil)
        ≡ (if names_host name then err (not_scalar (codes "name")) else ok (folder name none_left))
  unfolding parse_inventory_node is_host_mapping parse_inventory_host set_fields
  folder_node-read name = elim (Bool-cases (names_host name)) [
    | inl e ↦ ground (arith, e, list-set_field name (canonical_host_key name) default_host e)
    | inr e ↦ ground (arith, e)
  ]
