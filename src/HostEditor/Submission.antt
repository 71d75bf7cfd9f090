-- ===== src/HostEditor/Submission.antt =====
-- The host that the form hands on (src/tui/state/host_editor.rs). The YAML library is a parameter.
pub mod Handed
use color_ssh.Base.{
  contains, ℕ, zero, suc, ◌+◌, ◌-◌, ◌*◌, ◌==◌, ltb, leb, Text, codes, text_eq, Option, none, some,
  Bool, true, false, not, ◌&&◌, ◌||◌, List, [], ◌∷◌, ◌++◌, if◌then◌else◌, any, is_empty, trim,
  lower, to_ascii_lowercase, decimal, digits, map, take, drop, length, Result, ok, err, guard,
  ◌>>=◌, ◌>>◌, all,
}
use color_ssh.Args.Validation.{validate_vault_entry_name}
use color_ssh.TextEdit.{Field}
use color_ssh.Inventory.Value.{
  Value, null, bool, number, string, sequence, mapping, Items, nil, cons, Fields, end, field,
}
use color_ssh.Inventory.Model.{InventoryHost, ConnectionProtocol, ssh, rdp, SshOptionMap}
use color_ssh.Inventory.Edit.{EditableInventoryHost, trimmed_some}
use color_ssh.HostEditor.Fields.{
  HostEditorMode, create, edit, HostEditorField, HostEditorSection, authentication, field_item,
  HostEditorState, input, same_word, is_collapsible,
}
use color_ssh.HostEditor.Choices.{
  normalize_profile_options, normalize_cycle_options, initial_profile_value,
  initial_vault_pass_value, sync_profile_index_from_value, sync_vault_pass_index_from_value,
  is_default,
}
use color_ssh.HostEditor.Parsing.{
  Checked, HostEditorValidationError, checked_segments, collect, digits_value, ends_with,
  error_message, host_required, in_range, inner_path, invalid_folder_path, invalid_port,
  invalid_protocol, invalid_vault_pass, invalid_yaml_field, list_of, name_required, null_detail,
  onto_first, optional_trimmed_profile, optional_trimmed_string, options_of, parse_folder_path,
  parse_ssh_option_values, parse_ssh_options_map, parse_u16, parse_yaml_ssh_options_field,
  parse_yaml_string_list_field, parse_yaml_value, port_found, port_of, protocol_of,
  protocol_required, put_values, read_value, scalar_detail, split, ssh_option_scalar_to_string,
  starts_with, unsigned, yaml_scalar_to_string,
}

pub record HostEditorSubmission : Type 0 where
  pub source_file : Text
  pub original_name : Option Text
  pub folder_path : List Text
  pub host : EditableInventoryHost

abbrev pub is_rdp_host : ConnectionProtocol → Bool
is_rdp_host rdp = true
is_rdp_host protocol = false

-- A part that only one of the two protocols has.
abbrev pub unless_rdp : {A : Type 0} → Bool → A → Checked A → Checked A
unless_rdp true nothing part = ok nothing
unless_rdp false nothing part = part

abbrev pub checked_entry : Option Text → Checked (Option Text)
checked_entry none = ok none
checked_entry (some name) =
    if validate_vault_entry_name name then ok (some name) else err invalid_vault_pass

abbrev pub folder_of : HostEditorMode → Text → Checked (List Text)
folder_of create path = parse_folder_path (trim path)
folder_of edit path = ok []

abbrev pub host_from :
    HostEditorState
    → ConnectionProtocol
    → Option ℕ
    → Option Text
    → (identity local remote : List Text) → SshOptionMap
    → (args : List Text) → EditableInventoryHost
host_from s protocol port vault_pass identity local remote options args =
    let is_rdp = is_rdp_host protocol in
    record {
      name = trim s.name.text;
      description = optional_trimmed_string s.description.text;
      protocol = protocol;
      host = trim s.host.text;
      user = optional_trimmed_string s.user.text;
      port = port;
      profile = if is_rdp then none else optional_trimmed_profile s.profile.text;
      vault_pass = vault_pass;
      hidden = s.hidden;
      ssh_identity_files = identity;
      ssh_identities_only = if is_rdp then none else s.identities_only;
      ssh_proxy_jump = if is_rdp then none else optional_trimmed_string s.proxy_jump.text;
      ssh_proxy_command = if is_rdp then none else optional_trimmed_string s.proxy_command.text;
      ssh_forward_agent = if is_rdp then none else optional_trimmed_string s.forward_agent.text;
      ssh_local_forward = local;
      ssh_remote_forward = remote;
      ssh_options = options;
      rdp_domain = if is_rdp then optional_trimmed_string s.rdp_domain.text else none;
      rdp_args = args;
    }

abbrev pub submission : HostEditorState → List Text → EditableInventoryHost → HostEditorSubmission
submission s folder_path host = record {
  source_file = s.source_file;
  original_name = s.original_name;
  folder_path = folder_path;
  host = host;
}

module _ (from_str : Text → Result Text Value) where
  module _ (s : HostEditorState) (protocol : ConnectionProtocol) (port : Option ℕ)
      (vault_pass : Option Text) where
    -- The lists of the host, one after the other, as the fields of its record are computed.
    abbrev pub with_options :
        (identity local remote : List Text) → SshOptionMap → Checked EditableInventoryHost
    with_options identity local remote options =
        unless_rdp (not (is_rdp_host protocol)) []
          (parse_yaml_string_list_field from_str s.rdp_args.text (codes "RDP Args"))
        >>= λ args. ok (host_from s protocol port vault_pass identity local remote options args)

    abbrev pub with_remote : (identity local remote : List Text) → Checked EditableInventoryHost
    with_remote identity local remote =
        unless_rdp (is_rdp_host protocol) []
          (parse_yaml_ssh_options_field from_str s.ssh_options.text)
        >>= λ options. with_options identity local remote options

    abbrev pub with_local : (identity local : List Text) → Checked EditableInventoryHost
    with_local identity local =
        unless_rdp (is_rdp_host protocol) []
          (parse_yaml_string_list_field from_str s.remote_forward.text (codes "Remote Forward"))
        >>= λ remote. with_remote identity local remote

    abbrev pub with_identity : (identity : List Text) → Checked EditableInventoryHost
    with_identity identity =
        unless_rdp (is_rdp_host protocol) []
          (parse_yaml_string_list_field from_str s.local_forward.text (codes "Local Forward"))
        >>= λ local. with_local identity local

    abbrev pub build_host : Checked EditableInventoryHost
    build_host =
        unless_rdp (is_rdp_host protocol) []
          (parse_yaml_string_list_field from_str s.identity_file.text (codes "Identity File"))
        >>= λ identity. with_identity identity

    abbrev pub with_folder : List Text → Checked HostEditorSubmission
    with_folder folder_path = build_host >>= λ host. ok (submission s folder_path host)

    abbrev pub with_entry : Checked HostEditorSubmission
    with_entry = folder_of s.mode s.folder_path.text >>= λ folder_path. with_folder folder_path

  abbrev pub with_port :
      HostEditorState → ConnectionProtocol → Option ℕ → Checked HostEditorSubmission
  with_port s protocol port =
      checked_entry (optional_trimmed_string s.vault_pass.text) >>= λ vault_pass.
      with_entry s protocol port vault_pass

  abbrev pub with_protocol : HostEditorState → ConnectionProtocol → Checked HostEditorSubmission
  with_protocol s protocol = port_of (trim s.port.text) >>= λ port. with_port s protocol port

  abbrev pub with_texts : HostEditorState → Checked HostEditorSubmission
  with_texts s = protocol_of (trim s.protocol.text) >>= λ protocol. with_protocol s protocol

  unfoldable pub build_submission : HostEditorState → Checked HostEditorSubmission
  unfolding trim optional_trimmed_string optional_trimmed_profile port_of protocol_of
      parse_folder_path parse_yaml_string_list_field parse_yaml_ssh_options_field
      validate_vault_entry_name
  build_submission s =
      if is_empty (trim s.name.text)
      then err name_required
      else if is_empty (trim s.host.text)
      then err host_required
      else if is_empty (trim s.protocol.text)
      then err protocol_required
      else with_texts s
