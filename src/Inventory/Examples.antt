-- ===== src/Inventory/Examples.antt =====
-- The inventory at concrete documents and files.
use color_ssh.Base.{
  ◌+◌, Text, codes, text_eq, none, some, true, false, [], ◌∷◌, ◌≡◌, ◌↔◌, refl, text_eq_refl,
}
use color_ssh.Inventory.Value.{
  Value, string, sequence, mapping, Items, nil, cons, Fields, end, field, is_host_mapping,
  canonical_host_key,
}
use color_ssh.Inventory.Model.{ssh, InventoryHostRaw, InventoryHost}
use color_ssh.Inventory.Edit.{
  EditableInventoryHost, editable_host_mapping, is_folder, host_name_matches,
}
use color_ssh.Inventory.Edit.Hosts.{tally, tally_node, is_target, any_host}
use color_ssh.Inventory.Edit.Folders.{move_entry, delete_entry, relocate}
use color_ssh.Inventory.Edit.Folders.Laws.{move_keeps, delete_removes}
use color_ssh.Inventory.Edit.Folders.Relocation.{relocate_keeps}
use color_ssh.Inventory.Patterns.{matches_pattern, Matches, matches_pattern_iff}
use color_ssh.Inventory.Normalize.{normalized}

abbrev web : Value
web = mapping (field (codes "name") (string (codes "web")) end)

abbrev db : Value
db = mapping (field (codes "name") (string (codes "db")) end)

abbrev two_hosts : Items
two_hosts = cons web (cons (mapping (field (codes "lab") (sequence (cons db nil)) end)) nil)

abbrev both_in_lab : Items
both_in_lab = cons (mapping (field (codes "lab") (sequence (cons db (cons web nil))) end)) nil

move_keeps_example : tally any_host both_in_lab ≡ tally any_host two_hosts
unfolding move_entry canonical_host_key host_name_matches
move_keeps_example =
    move_keeps any_host (codes "web") (codes "lab" ∷ []) two_hosts both_in_lab true refl

abbrev mail : EditableInventoryHost
mail = record {
  name = codes "mail";
  description = none;
  protocol = ssh;
  host = codes "10.0.0.1";
  user = none;
  port = none;
  profile = none;
  vault_pass = none;
  hidden = false;
  ssh_identity_files = [];
  ssh_identities_only = none;
  ssh_proxy_jump = none;
  ssh_proxy_command = none;
  ssh_forward_agent = none;
  ssh_local_forward = [];
  ssh_remote_forward = [];
  ssh_options = [];
  rdp_domain = none;
  rdp_args = [];
}

abbrev with_mail : Items
with_mail =
    cons
      (mapping
        (field (codes "lab") (sequence (cons (mapping (editable_host_mapping mail)) nil)) end))
      nil

matches_pattern_iff_example :
    (matches_pattern (codes "a.yaml") (codes "*.y?ml") ≡ true)
    ↔ Matches (codes "a.yaml") (codes "*.y?ml")
matches_pattern_iff_example = matches_pattern_iff (codes "a.yaml") (codes "*.y?ml")

delete_removes_example :
    (v : Value) × (is_target (codes "db") v ≡ true)
    × (tally any_host two_hosts
        ≡ tally_node any_host v
          + tally any_host (cons web (cons (mapping (field (codes "lab") (sequence nil) end)) nil)))
unfolding delete_entry canonical_host_key host_name_matches is_host_mapping
delete_removes_example = delete_removes any_host (codes "db") two_hosts

-- A removal that keeps the order of the entries.
unfoldable remove : Text → Fields → Fields
remove key end = end
remove key (field k v rest) = elim (text_eq k key) [
  | true ↦ rest
  | false ↦ field k v (remove key rest)
]

remove_only : (k : Text) (v : Value) → remove k (field k v end) ≡ end
unfolding remove
remove_only k v = rw (text_eq_refl k, remove) refl

abbrev mail_alone : Items
mail_alone = cons (mapping (editable_host_mapping mail)) nil

abbrev lab_in_site : Items
lab_in_site = cons web (
    cons
      (mapping (
        field (codes "site")
          (sequence (cons (mapping (field (codes "room") (sequence (cons db nil)) end)) nil)) end))
      nil)

relocate_keeps_example : tally any_host lab_in_site ≡ tally any_host two_hosts
unfolding relocate remove is_host_mapping canonical_host_key is_folder
relocate_keeps_example =
    relocate_keeps remove remove_only any_host (codes "room") refl [] (codes "lab")
      (codes "site" ∷ []) two_hosts lab_in_site refl

abbrev raw_web : InventoryHostRaw
raw_web = record {
  name = codes "web";
  description = none;
  protocol = ssh;
  host = some (codes "10.0.0.2");
  user = none;
  port = none;
  profile = none;
  vault_pass = some (codes "prod");
  hidden = false;
  identity_files = codes "~/.ssh/id" ∷ [];
  identities_only = none;
  proxy_jump = none;
  proxy_command = none;
  forward_agent = none;
  local_forward = [];
  remote_forward = [];
  ssh_options = [];
  rdp_domain = none;
  rdp_args = [];
}

abbrev web_host : InventoryHost
web_host = normalized (some (codes "/root")) raw_web (codes "/inventory.yaml") [] (codes "10.0.0.2")
