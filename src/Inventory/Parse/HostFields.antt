-- ===== src/Inventory/Parse/HostFields.antt =====
-- The fields of a host, read one after another (src/inventory/parse.rs).
use color_ssh.Base.{
  ℕ, Text, codes, text_eq, trim, is_empty, ok, err, Option, none, some, Bool, false, List, [], ◌∷◌,
  ◌++◌, if◌then◌else◌, ◌>>=◌,
}
use color_ssh.Inventory.Value.{Value, mapping, Fields, end, field, canonical_host_key, compact_key}
use color_ssh.Inventory.Model.{ssh, parse_protocol, SshOptionMap, InventoryHostRaw}
use color_ssh.Inventory.Patterns.{text_leb}
use color_ssh.Inventory.Parse.{
  Reading, mapped, scalar_to_string, optional_scalar_to_string, parse_forward_agent, parse_bool,
  parse_u16, parse_string_list, parse_ssh_option_values,
}

-- `BTreeMap`: the options in the order of their names.
unfoldable pub insert_option : Text → List Text → SshOptionMap → SshOptionMap
unfolding text_leb
insert_option key values [] = (key, values) ∷ []
insert_option key values ((k, v) ∷ options) =
    if text_eq k key
    then (key, values) ∷ options
    else if text_leb key k
    then (key, values) ∷ (k, v) ∷ options
    else (k, v) ∷ insert_option key values options

unfoldable pub option_values : Text → SshOptionMap → List Text
option_values key [] = []
option_values key ((k, v) ∷ options) = if text_eq k key then v else option_values key options

-- `entry(key).or_default().extend(values)`
abbrev pub extend_option : Text → List Text → SshOptionMap → SshOptionMap
extend_option key [] options = options
extend_option key (value ∷ values) options =
    insert_option key (option_values key options ++ value ∷ values) options

abbrev pub replace_option : Text → List Text → SshOptionMap → SshOptionMap
replace_option key [] options = options
replace_option key (value ∷ values) options = insert_option key (value ∷ values) options

abbrev pub or_false : Option Bool → Bool
or_false none = false
or_false (some b) = b

abbrev pub default_host : InventoryHostRaw
default_host = record {
  name = [];
  description = none;
  protocol = ssh;
  host = none;
  user = none;
  port = none;
  profile = none;
  vault_pass = none;
  hidden = false;
  identity_files = [];
  identities_only = none;
  proxy_jump = none;
  proxy_command = none;
  forward_agent = none;
  local_forward = [];
  remote_forward = [];
  ssh_options = [];
  rdp_domain = none;
  rdp_args = [];
}

unfoldable pub merge_option : Text → Value → InventoryHostRaw → Reading InventoryHostRaw
unfolding compact_key insert_option option_values parse_string_list parse_bool
    optional_scalar_to_string parse_forward_agent parse_ssh_option_values
merge_option key value into =
    let compact = compact_key key in
    if text_eq compact (codes "identityfile")
    then mapped (λ files. record into { identity_files = into.identity_files ++ files })
        (parse_string_list value (codes "ssh_options IdentityFile"))
    else if text_eq compact (codes "identitiesonly")
    then mapped (λ b. record into { identities_only = b })
        (parse_bool value (codes "ssh_options IdentitiesOnly"))
    else if text_eq compact (codes "proxyjump")
    then mapped (λ t. record into { proxy_jump = t })
        (optional_scalar_to_string value (codes "ssh_options ProxyJump"))
    else if text_eq compact (codes "proxycommand")
    then mapped (λ t. record into { proxy_command = t })
        (optional_scalar_to_string value (codes "ssh_options ProxyCommand"))
    else if text_eq compact (codes "forwardagent")
    then mapped (λ t. record into { forward_agent = t }) (parse_forward_agent value)
    else if text_eq compact (codes "localforward")
    then mapped (λ specs. record into { local_forward = into.local_forward ++ specs })
        (parse_string_list value (codes "ssh_options LocalForward"))
    else if text_eq compact (codes "remoteforward")
    then mapped (λ specs. record into { remote_forward = into.remote_forward ++ specs })
        (parse_string_list value (codes "ssh_options RemoteForward"))
    else mapped (λ values. record into { ssh_options = extend_option key values into.ssh_options })
        (parse_ssh_option_values value (codes "ssh_options value"))

unfoldable pub merge_options : Fields → InventoryHostRaw → Reading InventoryHostRaw
unfolding merge_option
merge_options end into = ok into
merge_options (field key value rest) into = merge_option key value into >>= merge_options rest

abbrev pub merge_ssh_options : Value → InventoryHostRaw → Reading InventoryHostRaw
merge_ssh_options (mapping fields) into = merge_options fields into
merge_ssh_options _ into = err (codes "ssh_options must be a mapping")

module _ (parse_port : Text → Option ℕ) where
  -- The arms of the `match` on a canonical key, below the key as it is written.
  unfoldable pub set_field : Text → Text → Value → InventoryHostRaw → Reading InventoryHostRaw
  unfolding merge_options optional_scalar_to_string parse_protocol parse_u16 parse_bool
      parse_string_list parse_forward_agent parse_ssh_option_values
  set_field original canonical value host =
      if text_eq canonical (codes "name")
      then mapped (λ t. record host { name = t }) (scalar_to_string value canonical)
      else if text_eq canonical (codes "description")
      then mapped (λ t. record host { description = t }) (optional_scalar_to_string value canonical)
      else if text_eq canonical (codes "protocol")
      then mapped (λ t. record host { protocol = parse_protocol t })
          (scalar_to_string value canonical)
      else if text_eq canonical (codes "host")
      then mapped (λ t. record host { host = t }) (optional_scalar_to_string value canonical)
      else if text_eq canonical (codes "user")
      then mapped (λ t. record host { user = t }) (optional_scalar_to_string value canonical)
      else if text_eq canonical (codes "port")
      then mapped (λ n. record host { port = n }) (parse_u16 parse_port value canonical)
      else if text_eq canonical (codes "profile")
      then mapped (λ t. record host { profile = t }) (optional_scalar_to_string value canonical)
      else if text_eq canonical (codes "vault_pass")
      then mapped (λ t. record host { vault_pass = t }) (optional_scalar_to_string value canonical)
      else if text_eq canonical (codes "hidden")
      then mapped (λ b. record host { hidden = or_false b }) (parse_bool value canonical)
      else if text_eq canonical (codes "identity_file")
      then mapped (λ l. record host { identity_files = l }) (parse_string_list value canonical)
      else if text_eq canonical (codes "identities_only")
      then mapped (λ b. record host { identities_only = b }) (parse_bool value canonical)
      else if text_eq canonical (codes "proxy_jump")
      then mapped (λ t. record host { proxy_jump = t }) (optional_scalar_to_string value canonical)
      else if text_eq canonical (codes "proxy_command")
      then mapped (λ t. record host { proxy_command = t })
          (optional_scalar_to_string value canonical)
      else if text_eq canonical (codes "forward_agent")
      then mapped (λ t. record host { forward_agent = t }) (parse_forward_agent value)
      else if text_eq canonical (codes "local_forward")
      then mapped (λ l. record host { local_forward = l }) (parse_string_list value canonical)
      else if text_eq canonical (codes "remote_forward")
      then mapped (λ l. record host { remote_forward = l }) (parse_string_list value canonical)
      else if text_eq canonical (codes "ssh_options")
      then merge_ssh_options value host
      else if text_eq canonical (codes "rdp_domain")
      then mapped (λ t. record host { rdp_domain = t }) (optional_scalar_to_string value canonical)
      else if text_eq canonical (codes "rdp_args")
      then mapped (λ l. record host { rdp_args = l }) (parse_string_list value canonical)
      else mapped
          (λ values. record host { ssh_options = replace_option original values host.ssh_options })
          (parse_ssh_option_values value original)

  unfoldable pub set_fields : Fields → InventoryHostRaw → Reading InventoryHostRaw
  unfolding set_field canonical_host_key
  set_fields end host = ok host
  set_fields (field key value rest) host =
      set_field key (canonical_host_key key) value host >>= set_fields rest

  abbrev pub with_name : InventoryHostRaw → Reading InventoryHostRaw
  with_name host =
      if is_empty (trim host.name)
      then err (codes "inventory host is missing required field 'name'")
      else ok host

  unfoldable pub parse_inventory_host : Fields → Reading InventoryHostRaw
  unfolding set_fields trim
  parse_inventory_host fields = set_fields fields default_host >>= with_name
