-- ===== src/Inventory/Parse/Documents/Examples.antt =====
-- Documents that are read.
use color_ssh.Base.{ℕ, Text, codes, err, Option, none, ◌≡◌}
use color_ssh.Inventory.Value.{
  string, sequence, mapping, Items, nil, cons, Fields, end, field, canonical_host_key,
}
use color_ssh.Inventory.Model.{InventoryHostRaw}
use color_ssh.Inventory.Edit.Folders.{folder_node}
use color_ssh.Inventory.Parse.{not_scalar}
use color_ssh.Inventory.Parse.HostFields.{default_host}
use color_ssh.Inventory.Parse.Documents.{parse_inventory_node}
use color_ssh.Inventory.Parse.Documents.Laws.{folder_node-read}

abbrev no_port : Text → Option ℕ
no_port text = none

abbrev web : Fields
web = field (codes "Name") (string (codes "web")) end

abbrev raw_web : InventoryHostRaw
raw_web = record default_host { name = codes "web" }

abbrev nodes : Items
nodes = cons (mapping (field (codes "lab") (sequence (cons (mapping web) nil)) end)) nil

folder_node-read_example :
    parse_inventory_node no_port (folder_node (codes "Name") nil) ≡ err (not_scalar (codes "name"))
unfolding canonical_host_key
folder_node-read_example = folder_node-read no_port (codes "Name")
