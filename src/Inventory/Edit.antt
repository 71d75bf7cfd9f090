-- ===== src/Inventory/Edit.antt =====
-- src/inventory/edit.rs: changes of an inventory document, for hosts and for folders. A list of
-- nodes that the code changes through a reference is a function of that list; an error is a value
-- with what its message names.
pub mod Hosts
pub mod Applied
pub mod Folders
pub mod Files
use mathlib.Core.Option
use color_ssh.Base.{
  ℕ, Text, codes, text_eq, trim, decimal, digits, split_whitespace, Option, none, some, Bool, true,
  false, List, [], ◌∷◌, ◌++◌, if◌then◌else◌, is_empty, map, ◌&&◌, ◌||◌, not,
}
use color_ssh.Inventory.Value.{
  Value, null, bool, number, string, sequence, mapping, Items, nil, cons, Fields, end, field,
  insert, push, items_of, canonical_host_key, is_host_mapping,
}
use color_ssh.Inventory.Model.{ConnectionProtocol, ssh, as_str, SshOptionMap}

pub record EditableInventoryHost : Type 0 where
  pub name : Text
  pub description : Option Text
  pub protocol : ConnectionProtocol
  pub host : Text
  pub user : Option Text
  pub port : Option ℕ
  pub profile : Option Text
  pub vault_pass : Option Text
  pub hidden : Bool
  pub ssh_identity_files : List Text
  pub ssh_identities_only : Option Bool
  pub ssh_proxy_jump : Option Text
  pub ssh_proxy_command : Option Text
  pub ssh_forward_agent : Option Text
  pub ssh_local_forward : List Text
  pub ssh_remote_forward : List Text
  pub ssh_options : SshOptionMap
  pub rdp_domain : Option Text
  pub rdp_args : List Text

-- `normalize_ssh_forward_spec` of src/inventory/mod.rs
abbrev pub forward_of : Text → List Text → Text
forward_of trimmed (left ∷ right ∷ []) = left ++ b':' ∷ right
forward_of trimmed _ = trimmed

unfoldable pub normalize_ssh_forward_spec : Text → Text
unfolding trim split_whitespace
normalize_ssh_forward_spec value = forward_of (trim value) (split_whitespace (trim value))

abbrev pub trimmed_some : Text → Option Text
trimmed_some text = if is_empty text then none else some text

unfoldable pub trimmed_option : Option Text → Option Text
unfolding trim
trimmed_option none = none
trimmed_option (some value) = trimmed_some (trim value)

abbrev pub put_text : Text → Option Text → Fields → Fields
put_text key none fields = fields
put_text key (some value) fields = insert key (string value) fields

abbrev pub strings : List Text → Value
strings values = sequence (items_of (map (λ value. string value) values))

abbrev pub put_list : Text → List Text → Fields → Fields
put_list key [] fields = fields
put_list key (value ∷ values) fields = insert key (strings (value ∷ values)) fields

abbrev pub put_bool : Text → Option Bool → Fields → Fields
put_bool key none fields = fields
put_bool key (some value) fields = insert key (bool value) fields

abbrev pub put_port : Option ℕ → Fields → Fields
put_port none fields = fields
put_port (some port) fields =
    insert (codes "port")
      (number (record { text = decimal port; as_u64 = some port; negative = false })) fields

unfoldable pub option_fields : SshOptionMap → Fields → Fields
unfolding insert
option_fields [] fields = fields
option_fields ((key, []) ∷ options) fields = option_fields options fields
option_fields ((key, value ∷ []) ∷ options) fields =
    option_fields options (insert key (string value) fields)
option_fields ((key, value ∷ other ∷ values) ∷ options) fields =
    option_fields options (insert key (strings (value ∷ other ∷ values)) fields)

abbrev pub put_options : Fields → Fields → Fields
put_options end fields = fields
put_options (field k v rest) fields = insert (codes "ssh_options") (mapping (field k v rest)) fields

unfoldable pub editable_host_mapping : EditableInventoryHost → Fields
unfolding insert trimmed_option items_of normalize_ssh_forward_spec option_fields digits
editable_host_mapping host =
    let f₀ = insert (codes "name") (string host.name) end in
    let f₁ = insert (codes "protocol") (string (as_str host.protocol)) f₀ in
    let f₂ = insert (codes "host") (string host.host) f₁ in
    let f₃ = insert (codes "hidden") (bool host.hidden) f₂ in
    let f₄ = put_text (codes "description") (trimmed_option host.description) f₃ in
    let f₅ = put_text (codes "user") (trimmed_option host.user) f₄ in
    let f₆ = put_port host.port f₅ in
    let f₇ = put_text (codes "profile") (trimmed_option host.profile) f₆ in
    let f₈ = put_text (codes "vault_pass") (trimmed_option host.vault_pass) f₇ in
    let f₉ = put_list (codes "identity_file") host.ssh_identity_files f₈ in
    let g₀ = put_bool (codes "identities_only") host.ssh_identities_only f₉ in
    let g₁ = put_text (codes "proxy_jump") (trimmed_option host.ssh_proxy_jump) g₀ in
    let g₂ = put_text (codes "proxy_command") (trimmed_option host.ssh_proxy_command) g₁ in
    let g₃ = put_text (codes "forward_agent") (trimmed_option host.ssh_forward_agent) g₂ in
    let g₄ =
      put_list (codes "local_forward") (map normalize_ssh_forward_spec host.ssh_local_forward) g₃ in
    let g₅ =
      put_list (codes "remote_forward") (map normalize_ssh_forward_spec host.ssh_remote_forward)
        g₄ in
    let g₆ = put_options (option_fields host.ssh_options end) g₅ in
    let g₇ = put_text (codes "rdp_domain") (trimmed_option host.rdp_domain) g₆ in
    put_list (codes "rdp_args") host.rdp_args g₇

-- The keys that belong to the editor.
abbrev pub editable_keys : List Text
editable_keys =
    codes "name"
    ∷ codes "description"
    ∷ codes "protocol"
    ∷ codes "host"
    ∷ codes "user"
    ∷ codes "port"
    ∷ codes "profile"
    ∷ codes "vault_pass"
    ∷ codes "hidden"
    ∷ codes "identity_file"
    ∷ codes "identities_only"
    ∷ codes "proxy_jump"
    ∷ codes "proxy_command"
    ∷ codes "forward_agent"
    ∷ codes "local_forward"
    ∷ codes "remote_forward"
    ∷ codes "ssh_options"
    ∷ codes "rdp_domain"
    ∷ codes "rdp_args"
    ∷ []

abbrev pub listed : Text → List Text → Bool
listed key [] = false
listed key (k ∷ keys) = text_eq key k || listed key keys

abbrev pub editable_host_key : Text → Bool
editable_host_key key = listed key editable_keys

-- The keys that `remove_editable_host_keys` removes.
unfoldable pub keys_to_remove : Fields → List Text
unfolding canonical_host_key
keys_to_remove end = []
keys_to_remove (field k v rest) =
    let others = keys_to_remove rest in
    if editable_host_key (canonical_host_key k) then k ∷ others else others

-- `scalar_value_to_string`
abbrev pub scalar_value_to_string : Value → Option Text
scalar_value_to_string (string text) = some text
scalar_value_to_string (bool b) = some (if b then codes "true" else codes "false")
scalar_value_to_string (number n) = some n.text
scalar_value_to_string _ = none

abbrev pub is_text : Option Text → Text → Bool
is_text none name = false
is_text (some text) name = text_eq text name

unfoldable pub host_name_matches : Fields → Text → Bool
unfolding canonical_host_key
host_name_matches end target_name = false
host_name_matches (field k v rest) target_name =
    (text_eq (canonical_host_key k) (codes "name")
      && is_text (scalar_value_to_string v) target_name)
    || host_name_matches rest target_name

unfoldable pub insert_all : Fields → Fields → Fields
unfolding insert
insert_all end fields = fields
insert_all (field k v rest) fields = insert_all rest (insert k v fields)

-- `Mapping::remove` is the YAML library's: it may move the entries that stay.
module _ (remove : Text → Fields → Fields) where
  unfoldable pub remove_all : List Text → Fields → Fields
  remove_all [] fields = fields
  remove_all (k ∷ keys) fields = remove_all keys (remove k fields)

  unfoldable pub apply_editable_host_to_mapping : Fields → EditableInventoryHost → Fields
  unfolding remove_all insert_all keys_to_remove editable_host_mapping
  apply_editable_host_to_mapping fields host =
      insert_all (editable_host_mapping host) (remove_all (keys_to_remove fields) fields)

-- `folder_entry_name`: the only key of a mapping that is no host.
abbrev pub only_key : Fields → Option Text
only_key (field k v end) = some k
only_key _ = none

unfoldable pub folder_entry_name : Value → Option Text
unfolding is_host_mapping
folder_entry_name (mapping fields) = if is_host_mapping fields then none else only_key fields
folder_entry_name _ = none

unfoldable pub is_folder : Text → Value → Bool
unfolding folder_entry_name
is_folder name node = is_text (folder_entry_name node) name
