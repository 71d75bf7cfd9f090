-- ===== src/Inventory/Tree/Loading/Examples.antt =====
-- An inventory of two files that include each other.
use color_ssh.Base.{
  Text, codes, text_eq, text_eq_iff, Result, ok, err, none, some, true, false, [], ◌∷◌, ◌≡◌, ◌≢◌,
  refl, arith,
}
use color_ssh.Inventory.Model.{
  ssh, InventoryHostRaw, host, none_left, node, ParsedInventoryDocument,
}
use color_ssh.Inventory.Patterns.{Paths}
use color_ssh.Inventory.Normalize.{InventoryError, normalized, invalid_inventory, unreadable}
use color_ssh.Inventory.Tree.Folders.{tree_folder, tree, none_left}
use color_ssh.Inventory.Tree.Loading.{
  InventoryTreeModel, build_inventory_tree, out_of_fuel, is_visited,
}
use color_ssh.Inventory.Tree.Loading.Bounded.{build_inventory_tree-ends}
use color_ssh.Inventory.Tree.Loading.Built.{IsTree, build_inventory_tree-IsTree}

abbrev paths : Paths
paths = record {
  home_dir = none;
  canonicalize = λ path. path;
  parent = λ path. codes "/";
  file_name = λ path. none;
  file_stem = λ path. none;
  is_file = λ path. true;
  read_dir = λ path. [];
}

abbrev raw : Text → InventoryHostRaw
raw name = record {
  name = name;
  description = none;
  protocol = ssh;
  host = some (codes "10.0.0.2");
  user = none;
  port = none;
  profile = none;
  vault_pass = none;
  hidden = false;
  identity_files = [];
  identities_only = none;
  proxy_jump = none;
  proxy_command = none;
  forward_agent = none;
  local_forward = [];
  remote_forward = [];
  ssh_options = [];
  rdp_domain = none;
  rdp_args = [];
}

abbrev including : Text → Text → ParsedInventoryDocument
including pattern name = record {
  include = (record { pattern = pattern; folder_path = [] }) ∷ [];
  inventory = node (host (raw name)) none_left;
}

abbrev a : Text
a = codes "/a"

abbrev b : Text
b = codes "/b"

unfoldable parse : Text → Result InventoryError ParsedInventoryDocument
parse path = elim (text_eq path a) [
  | true ↦ ok (including b (codes "web"))
  | false ↦ elim (text_eq path b) [
    | true ↦ ok (including a (codes "db"))
    | false ↦ err (invalid_inventory path (unreadable path))
  ]
]

readable :
    (path : Text) (document : ParsedInventoryDocument)
    → parse path ≡ ok document
    → is_visited path (a ∷ b ∷ []) ≡ true
unfolding parse
readable path document h =
    ground
      (arith, h, text_eq_iff path a, text_eq_iff path b, text_eq_iff a path, text_eq_iff b path)

build_inventory_tree-ends_example : build_inventory_tree paths parse 3 a ≢ err out_of_fuel
build_inventory_tree-ends_example = build_inventory_tree-ends (a ∷ b ∷ []) paths parse readable a

abbrev both : InventoryTreeModel
both = record {
  root =
      tree_folder 0 (codes "cossh-inventory.yaml") a
        (tree (tree_folder 1 (codes "include") b none_left (0 ∷ [])) none_left) (1 ∷ []);
  hosts =
      normalized none (raw (codes "db")) b (codes "include" ∷ []) (codes "10.0.0.2")
      ∷ normalized none (raw (codes "web")) a [] (codes "10.0.0.2")
      ∷ [];
}

build_inventory_tree-IsTree_example : IsTree both
unfolding build_inventory_tree parse
build_inventory_tree-IsTree_example = build_inventory_tree-IsTree paths parse 3 a both refl
