-- ===== src/Inventory/Model.antt =====
-- src/inventory/model.rs: hosts and folders of an inventory.
use color_ssh.Base.{
  ℕ, Text, codes, text_eq, trim, to_ascii_lowercase, lower, Option, Bool, ◌||◌, List, [],
  if◌then◌else◌,
}

abbrev pub SshOptionMap : Type 0
SshOptionMap = List (Text × List Text)

pub data ConnectionProtocol : Type 0 where
  ssh rdp : ConnectionProtocol
  other : Text → ConnectionProtocol

-- `ConnectionProtocol::parse`
unfoldable pub parse_protocol : Text → ConnectionProtocol
unfolding trim lower
parse_protocol value =
    let name = to_ascii_lowercase (trim value) in
    if text_eq name [] || text_eq name (codes "ssh")
    then ssh
    else if text_eq name (codes "rdp")
    then rdp
    else other name

abbrev pub as_str : ConnectionProtocol → Text
as_str ssh = codes "ssh"
as_str rdp = codes "rdp"
as_str (other value) = value

abbrev pub display_name : ConnectionProtocol → Text
display_name ssh = codes "SSH"
display_name rdp = codes "RDP"
display_name (other value) = value

pub record SshHostOptions : Type 0 where
  pub identity_files : List Text
  pub identities_only : Option Bool
  pub proxy_jump : Option Text
  pub proxy_command : Option Text
  pub forward_agent : Option Text
  pub local_forward : List Text
  pub remote_forward : List Text
  pub extra_options : SshOptionMap

pub record RdpHostOptions : Type 0 where
  pub domain : Option Text
  pub args : List Text

pub record InventoryHost : Type 0 where
  pub name : Text
  pub description : Option Text
  pub protocol : ConnectionProtocol
  pub host : Text
  pub user : Option Text
  pub port : Option ℕ
  pub profile : Option Text
  pub vault_pass : Option Text
  pub hidden : Bool
  pub ssh : SshHostOptions
  pub rdp : RdpHostOptions
  pub source_file : Text
  pub source_folder_path : List Text

pub record InventoryHostRaw : Type 0 where
  pub name : Text
  pub description : Option Text
  pub protocol : ConnectionProtocol
  pub host : Option Text
  pub user : Option Text
  pub port : Option ℕ
  pub profile : Option Text
  pub vault_pass : Option Text
  pub hidden : Bool
  pub identity_files : List Text
  pub identities_only : Option Bool
  pub proxy_jump : Option Text
  pub proxy_command : Option Text
  pub forward_agent : Option Text
  pub local_forward : List Text
  pub remote_forward : List Text
  pub ssh_options : SshOptionMap
  pub rdp_domain : Option Text
  pub rdp_args : List Text

pub record InventoryIncludeRaw : Type 0 where
  pub pattern : Text
  pub folder_path : List Text

-- A node of a document: a host, or a folder with its nodes.
mutual
  pub data InventoryNodeRaw : Type 0 where
    host : InventoryHostRaw → InventoryNodeRaw
    folder : (name : Text) → Nodes → InventoryNodeRaw

  pub data Nodes : Type 0 where
    none_left : Nodes
    node : InventoryNodeRaw → Nodes → Nodes

pub record ParsedInventoryDocument : Type 0 where
  pub include : List InventoryIncludeRaw
  pub inventory : Nodes
