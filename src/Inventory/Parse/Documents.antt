-- ===== src/Inventory/Parse/Documents.antt =====
-- The includes and the nodes of a document (src/inventory/parse.rs).
pub mod Laws
pub mod Examples
use color_ssh.Base.{
  ℕ, Text, codes, text_eq, Result, ok, err, Option, none, some, Bool, true, false, List, [], ◌∷◌,
  ◌++◌, if◌then◌else◌, ◌>>=◌,
}
use color_ssh.Inventory.Value.{
  Value, null, bool, number, string, sequence, mapping, Items, nil, cons, Fields, end, field,
  is_host_mapping, canonical_top_level_key,
}
use color_ssh.Inventory.Model.{
  InventoryIncludeRaw, InventoryNodeRaw, host, folder, Nodes, none_left, node,
  ParsedInventoryDocument,
}
use color_ssh.Inventory.Normalize.{InventoryError, invalid_inventory, unreadable}
use color_ssh.Inventory.Parse.{Reading, mapped, scalar_to_string}
use color_ssh.Inventory.Parse.HostFields.{parse_inventory_host}

abbrev pub include_of :
    Value → List Text → List InventoryIncludeRaw → Reading (List InventoryIncludeRaw)
include_of value folder_path include =
    mapped (λ pattern. include ++ record { pattern = pattern; folder_path = folder_path } ∷ [])
      (scalar_to_string value (codes "include"))

unfoldable mutual
  pub parse_include_entries_with_path :
      Value → List Text → List InventoryIncludeRaw → Reading (List InventoryIncludeRaw)
  parse_include_entries_with_path null folder_path include = ok include
  parse_include_entries_with_path (sequence items) folder_path include =
      parse_include_items items folder_path include
  parse_include_entries_with_path (mapping fields) folder_path include =
      parse_include_mapping fields folder_path include
  parse_include_entries_with_path (bool b) folder_path include =
      include_of (bool b) folder_path include
  parse_include_entries_with_path (number n) folder_path include =
      include_of (number n) folder_path include
  parse_include_entries_with_path (string s) folder_path include =
      include_of (string s) folder_path include

  pub parse_include_items :
      Items → List Text → List InventoryIncludeRaw → Reading (List InventoryIncludeRaw)
  parse_include_items nil folder_path include = ok include
  parse_include_items (cons v rest) folder_path include =
      parse_include_entries_with_path v folder_path include >>= λ found.
      parse_include_items rest folder_path found

  pub parse_include_mapping :
      Fields → List Text → List InventoryIncludeRaw → Reading (List InventoryIncludeRaw)
  parse_include_mapping end folder_path include = ok include
  parse_include_mapping (field name v rest) folder_path include =
      parse_include_entries_with_path v (folder_path ++ name ∷ []) include >>= λ found.
      parse_include_mapping rest folder_path found

abbrev pub one_key : Text
one_key = codes "folder entries must contain exactly one key of the form '- FolderName: [...]'"

module _ (parse_port : Text → Option ℕ) where
  unfoldable mutual
    unfolding parse_inventory_host is_host_mapping

    pub parse_inventory_node : Value → Reading InventoryNodeRaw
    parse_inventory_node null =
        err (codes "inventory entries must be mappings containing a host definition or folder item")
    parse_inventory_node (bool b) =
        err (codes "inventory entries must be mappings containing a host definition or folder item")
    parse_inventory_node (number n) =
        err (codes "inventory entries must be mappings containing a host definition or folder item")
    parse_inventory_node (string s) =
        err (codes "inventory entries must be mappings containing a host definition or folder item")
    parse_inventory_node (sequence items) =
        err (codes "inventory entries must be mappings containing a host definition or folder item")
    parse_inventory_node (mapping fields) =
        let below = parse_folder fields in
        if is_host_mapping fields
        then mapped host (parse_inventory_host parse_port fields)
        else below

    pub parse_folder : Fields → Reading InventoryNodeRaw
    parse_folder end = err one_key
    parse_folder (field name v end) = mapped (folder name) (parse_inventory_nodes v)
    parse_folder (field name v (field k w rest)) = err one_key

    pub parse_inventory_nodes : Value → Reading Nodes
    parse_inventory_nodes null = err (codes "inventory must be a YAML list")
    parse_inventory_nodes (bool b) = err (codes "inventory must be a YAML list")
    parse_inventory_nodes (number n) = err (codes "inventory must be a YAML list")
    parse_inventory_nodes (string s) = err (codes "inventory must be a YAML list")
    parse_inventory_nodes (sequence items) = parse_items items
    parse_inventory_nodes (mapping fields) = err (codes "inventory must be a YAML list")

    pub parse_items : Items → Reading Nodes
    parse_items nil = ok none_left
    parse_items (cons v rest) =
        parse_inventory_node v >>= λ first. mapped (node first) (parse_items rest)

  -- `mapping_value`
  unfoldable pub mapping_value : Text → Fields → Option Value
  unfolding canonical_top_level_key
  mapping_value key end = none
  mapping_value key (field k v rest) =
      if text_eq (canonical_top_level_key k) key then some v else mapping_value key rest

  abbrev pub includes_of : Option Value → Reading (List InventoryIncludeRaw)
  includes_of none = ok []
  includes_of (some v) = parse_include_entries_with_path v [] []

  abbrev pub nodes_of : Option Value → Reading Nodes
  nodes_of none = ok none_left
  nodes_of (some v) = parse_inventory_nodes v

  unfoldable pub parse_inventory_document_value : Value → Reading ParsedInventoryDocument
  unfolding mapping_value parse_include_entries_with_path parse_inventory_nodes
  parse_inventory_document_value (mapping fields) =
      includes_of (mapping_value (codes "include") fields) >>= λ include.
      mapped (λ nodes. record { include = include; inventory = nodes })
        (nodes_of (mapping_value (codes "inventory") fields))
  parse_inventory_document_value _ = err (codes "inventory file root must be a mapping")

  abbrev pub in_file : {A : Type 0} → Text → Reading A → Result InventoryError A
  in_file source_file (ok a) = ok a
  in_file source_file (err message) = err (invalid_inventory source_file (unreadable message))

  -- The file system reads a text, and the YAML library a value.
  unfoldable pub parse_inventory_document :
      (Text → Reading Text)
      → (Text → Reading Value)
      → Text
      → Result InventoryError ParsedInventoryDocument
  unfolding parse_inventory_document_value
  parse_inventory_document read_to_string from_str inventory_path = in_file inventory_path (
      read_to_string inventory_path >>= λ contents.
      from_str contents >>= λ yaml. parse_inventory_document_value yaml)
