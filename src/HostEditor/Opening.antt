-- ===== src/HostEditor/Opening.antt =====
-- The forms that are opened: for a new host, for one of the inventory, and for a copy of one
-- (src/tui/state/host_editor.rs).
use color_ssh.Base.{
  ℕ, Text, codes, Option, none, some, Bool, true, false, ◌&&◌, List, [], ◌++◌, if◌then◌else◌,
  is_empty, trim, decimal,
}
use color_ssh.TextEdit.{Field}
use color_ssh.Inventory.Model.{InventoryHost, ConnectionProtocol, rdp, SshOptionMap}
use color_ssh.HostEditor.Fields.{
  create, edit, HostEditorField, HostEditorSection, authentication, is_collapsible, field_item,
  HostEditorState, input,
}
use color_ssh.HostEditor.Choices.{
  normalize_profile_options, normalize_cycle_options, initial_profile_value,
  initial_vault_pass_value, sync_profile_index_from_value, sync_vault_pass_index_from_value,
}

abbrev pub not_authentication : HostEditorSection → Bool
not_authentication authentication = false
not_authentication section = true

abbrev pub default_collapsed_sections : HostEditorSection → Bool
default_collapsed_sections section = is_collapsible section && not_authentication section

-- `TextInput::default()`
abbrev pub empty_input : Field
empty_input = record { text = []; cursor = 0; selection = none }

-- `unwrap_or_default`
abbrev pub or_empty : Option Text → Text
or_empty none = []
or_empty (some text) = text

abbrev synced : HostEditorState → HostEditorState
synced s = sync_vault_pass_index_from_value (sync_profile_index_from_value s)

unfoldable pub new_create :
    (source_file : Text) (profile_options vault_pass_options : List Text) → HostEditorState
unfolding normalize_profile_options normalize_cycle_options initial_profile_value
    initial_vault_pass_value sync_profile_index_from_value sync_vault_pass_index_from_value
new_create source_file profile_options vault_pass_options =
    let profiles = normalize_profile_options profile_options in
    let entries = normalize_cycle_options vault_pass_options false in
    synced (record {
      mode = create;
      source_file = source_file;
      original_name = none;
      selected = field_item HostEditorField.name;
      collapsed_sections = default_collapsed_sections;
      name = empty_input;
      description = empty_input;
      protocol = input (codes "ssh");
      host = empty_input;
      user = empty_input;
      port = input (codes "22");
      profile = input (initial_profile_value none profiles);
      vault_pass = input (initial_vault_pass_value none entries);
      hidden = false;
      identities_only = none;
      identity_file = empty_input;
      proxy_jump = empty_input;
      proxy_command = empty_input;
      forward_agent = empty_input;
      local_forward = empty_input;
      remote_forward = empty_input;
      ssh_options = empty_input;
      rdp_domain = empty_input;
      rdp_args = empty_input;
      folder_path = input (codes "/");
      profile_options = profiles;
      profile_index = 0;
      vault_pass_options = entries;
      vault_pass_index = 0;
      drag_anchor = none;
      error = none;
    })

abbrev pub protocol_text : ConnectionProtocol → Text
protocol_text rdp = codes "rdp"
protocol_text protocol = codes "ssh"

abbrev pub port_text : Option ℕ → Text
port_text none = []
port_text (some port) = decimal port

abbrev pub copy_name : Text → Text
copy_name trimmed = if is_empty trimmed then codes "entry (copy)" else trimmed ++ codes " (copy)"

unfoldable pub duplicate_host_name : Text → Text
unfolding trim
duplicate_host_name source_name = copy_name (trim source_name)

-- `serialize_yaml_inline` for a list of texts and for the options.
module _ (json : List Text → Text) (json_options : SshOptionMap → Text) where
  unfoldable pub new_edit :
      InventoryHost → (profile_options vault_pass_options : List Text) → HostEditorState
  unfolding normalize_profile_options normalize_cycle_options initial_profile_value
      initial_vault_pass_value sync_profile_index_from_value sync_vault_pass_index_from_value
  new_edit host profile_options vault_pass_options =
      let profiles = normalize_profile_options profile_options in
      let entries = normalize_cycle_options vault_pass_options false in
      synced (record {
        mode = edit;
        source_file = host.source_file;
        original_name = some (host.name);
        selected = field_item HostEditorField.name;
        collapsed_sections = default_collapsed_sections;
        name = input host.name;
        description = input (or_empty host.description);
        protocol = input (protocol_text host.protocol);
        host = input host.host;
        user = input (or_empty host.user);
        port = input (port_text host.port);
        profile = input (initial_profile_value host.profile profiles);
        vault_pass = input (initial_vault_pass_value host.vault_pass entries);
        hidden = host.hidden;
        identity_file = input (json host.ssh.identity_files);
        identities_only = host.ssh.identities_only;
        proxy_jump = input (or_empty host.ssh.proxy_jump);
        proxy_command = input (or_empty host.ssh.proxy_command);
        forward_agent = input (or_empty host.ssh.forward_agent);
        local_forward = input (json host.ssh.local_forward);
        remote_forward = input (json host.ssh.remote_forward);
        ssh_options = input (json_options host.ssh.extra_options);
        rdp_domain = input (or_empty host.rdp.domain);
        rdp_args = input (json host.rdp.args);
        folder_path = input (codes "/");
        profile_options = profiles;
        profile_index = 0;
        vault_pass_options = entries;
        vault_pass_index = 0;
        drag_anchor = none;
        error = none;
      })

  unfoldable pub new_duplicate :
      InventoryHost → (profile_options vault_pass_options : List Text) → HostEditorState
  unfolding new_edit duplicate_host_name
  new_duplicate host profile_options vault_pass_options =
      record (new_edit host profile_options vault_pass_options) {
        mode = create;
        original_name = none;
        selected = field_item HostEditorField.name;
        name = input (duplicate_host_name host.name);
        folder_path = input (codes "/");
        error = none;
      }
