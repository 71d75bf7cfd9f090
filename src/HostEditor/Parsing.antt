-- ===== src/HostEditor/Parsing.antt =====
-- How the texts of the form are read (src/tui/state/host_editor.rs). The YAML library is a parameter.
use color_ssh.Base.{
  contains, ℕ, ◌+◌, ◌-◌, ◌*◌, ◌==◌, leb, Text, codes, text_eq, Option, none, some, Bool, false, not,
  ◌&&◌, ◌||◌, List, [], ◌∷◌, ◌++◌, if◌then◌else◌, any, is_empty, trim, lower, to_ascii_lowercase,
  map, take, drop, length, Result, ok, err, ◌>>=◌,
}
use color_ssh.Inventory.Value.{
  Value, null, bool, number, string, sequence, mapping, Items, nil, cons, Fields, end, field,
}
use color_ssh.Inventory.Model.{ConnectionProtocol, ssh, rdp, SshOptionMap}
use color_ssh.Inventory.Edit.{trimmed_some}
use color_ssh.HostEditor.Choices.{is_default}

pub data HostEditorValidationError : Type 0 where
  name_required host_required protocol_required invalid_protocol invalid_port :
      HostEditorValidationError
  invalid_vault_pass invalid_folder_path : HostEditorValidationError
  invalid_yaml_field : (label detail : Text) → HostEditorValidationError

-- `message`
abbrev pub error_message : HostEditorValidationError → Text
error_message name_required = codes "Name is required."
error_message host_required = codes "Host is required."
error_message protocol_required = codes "Protocol is required."
error_message invalid_protocol = codes "Protocol must be 'ssh' or 'rdp'."
error_message invalid_port = codes "Port must be a number between 1 and 65535."
error_message invalid_vault_pass =
    codes "Vault Pass is invalid: use only letters, numbers, '.', '_' or '-' ."
error_message invalid_folder_path =
    codes "Folder path must be '/' or use '/folder/subfolder/' format."
error_message (invalid_yaml_field label detail) =
    label ++ codes " must be valid YAML for this field (" ++ detail ++ codes ")."

abbrev pub Checked : Type 0 → Type 0
Checked A = Result HostEditorValidationError A

unfoldable pub optional_trimmed_string : Text → Option Text
unfolding trim
optional_trimmed_string value = trimmed_some (trim value)

unfoldable pub optional_trimmed_profile : Text → Option Text
unfolding trim lower
optional_trimmed_profile value =
    if is_empty (trim value) || is_default (trim value) then none else some (trim value)

-- `parse::<u16>`: digits behind at most one plus sign, in the range of 16 bits.
unfoldable pub digits_value : ℕ → Text → Option ℕ
digits_value value [] = some value
digits_value value (c ∷ s) =
    let later = digits_value (value * 10 + (c - 48)) s in
    if leb 48 c && leb c 57 then later else none

abbrev pub unsigned : Text → Text
unsigned [] = []
unsigned (c ∷ s) = if c == b'+' then s else c ∷ s

abbrev pub in_range : Option ℕ → Option ℕ
in_range none = none
in_range (some value) = if leb value 65535 then some value else none

unfoldable pub parse_u16 : Text → Option ℕ
unfolding digits_value
parse_u16 text =
    if is_empty (unsigned text) then none else in_range (digits_value 0 (unsigned text))

abbrev pub port_found : Option ℕ → Checked (Option ℕ)
port_found none = err invalid_port
port_found (some port) = ok (some port)

unfoldable pub port_of : Text → Checked (Option ℕ)
unfolding parse_u16
port_of text = if is_empty text then ok none else port_found (parse_u16 text)

unfoldable pub protocol_of : Text → Checked ConnectionProtocol
unfolding lower
protocol_of protocol =
    if text_eq (to_ascii_lowercase protocol) (codes "ssh")
    then ok ssh
    else if text_eq (to_ascii_lowercase protocol) (codes "rdp")
    then ok rdp
    else err invalid_protocol

-- `split` at a character
abbrev pub onto_first : ℕ → List Text → List Text
onto_first c [] = (c ∷ []) ∷ []
onto_first c (part ∷ parts) = (c ∷ part) ∷ parts

unfoldable pub split : ℕ → Text → List Text
split sep [] = [] ∷ []
split sep (c ∷ s) = let parts = split sep s in if c == sep then [] ∷ parts else onto_first c parts

unfoldable pub starts_with : ℕ → Text → Bool
starts_with c [] = false
starts_with c (d ∷ s) = d == c

unfoldable pub ends_with : ℕ → Text → Bool
ends_with c [] = false
ends_with c (d ∷ []) = d == c
ends_with c (d ∷ e ∷ s) = ends_with c (e ∷ s)

abbrev pub checked_segments : List Text → Checked (List Text)
checked_segments segments =
    if any (λ segment. is_empty segment || contains b'/' segment) segments
    then err invalid_folder_path
    else ok segments

abbrev pub inner_path : Text → Checked (List Text)
inner_path inner = if is_empty inner then ok [] else checked_segments (map trim (split b'/' inner))

unfoldable pub parse_folder_path : Text → Checked (List Text)
unfolding trim split starts_with ends_with
parse_folder_path path =
    let trimmed = trim path in
    if is_empty trimmed || text_eq trimmed (codes "/")
    then ok []
    else if not (starts_with b'/' trimmed) || not (ends_with b'/' trimmed)
    then err invalid_folder_path
    else inner_path (take (length trimmed - 2) (drop 1 trimmed))

abbrev pub null_detail : Text
null_detail = codes "null values are not allowed"

abbrev pub scalar_detail : Text
scalar_detail = codes "value must be a scalar string/number/boolean"

abbrev pub yaml_scalar_to_string : Text → Value → Checked Text
yaml_scalar_to_string name (string text) = ok text
yaml_scalar_to_string name (bool b) = ok (if b then codes "true" else codes "false")
yaml_scalar_to_string name (number n) = ok n.text
yaml_scalar_to_string name null = err (invalid_yaml_field name null_detail)
yaml_scalar_to_string name (sequence items) = err (invalid_yaml_field name scalar_detail)
yaml_scalar_to_string name (mapping fields) = err (invalid_yaml_field name scalar_detail)

abbrev pub ssh_option_scalar_to_string : Value → Checked Text
ssh_option_scalar_to_string (bool b) = ok (if b then codes "yes" else codes "no")
ssh_option_scalar_to_string value = yaml_scalar_to_string (codes "SSH Options") value

-- `iter().map(f).collect()`
unfoldable pub collect : (Value → Checked Text) → Items → Checked (List Text)
collect f nil = ok []
collect f (cons value items) = f value >>= λ text. collect f items >>= λ texts. ok (text ∷ texts)

abbrev pub list_of : Text → Value → Checked (List Text)
list_of name null = ok []
list_of name (sequence items) = collect (yaml_scalar_to_string name) items
list_of name other = yaml_scalar_to_string name other >>= λ text. ok (text ∷ [])

abbrev pub parse_ssh_option_values : Value → Checked (List Text)
parse_ssh_option_values null = err (invalid_yaml_field (codes "SSH Options") null_detail)
parse_ssh_option_values (sequence items) = collect ssh_option_scalar_to_string items
parse_ssh_option_values scalar = ssh_option_scalar_to_string scalar >>= λ text. ok (text ∷ [])

-- An entry of the map, in the order of the document; `later` is what the entries behind it give.
abbrev pub put_values : Text → List Text → SshOptionMap → SshOptionMap
put_values key [] options = options
put_values key (value ∷ values) options = (key, value ∷ values) ∷ options

unfoldable pub parse_ssh_options_map : Fields → Checked SshOptionMap
unfolding collect
parse_ssh_options_map end = ok []
parse_ssh_options_map (field key value rest) = parse_ssh_option_values value >>= λ values.
    parse_ssh_options_map rest >>= λ options. ok (put_values key values options)

abbrev pub options_of : Value → Checked SshOptionMap
options_of null = ok []
options_of (mapping fields) = parse_ssh_options_map fields
options_of other =
    err (invalid_yaml_field (codes "SSH Options") (codes "value must be a YAML mapping"))

abbrev pub read_value : Text → Result Text Value → Checked Value
read_value name (ok value) = ok value
read_value name (err detail) = err (invalid_yaml_field name detail)

module _ (from_str : Text → Result Text Value) where
  abbrev pub parse_yaml_value : Text → Text → Checked Value
  parse_yaml_value raw name =
      let trimmed = trim raw in
      if is_empty trimmed then ok null else read_value name (from_str trimmed)

  unfoldable pub parse_yaml_string_list_field : Text → Text → Checked (List Text)
  unfolding trim collect
  parse_yaml_string_list_field raw name = parse_yaml_value raw name >>= λ value. list_of name value

  unfoldable pub parse_yaml_ssh_options_field : Text → Checked SshOptionMap
  unfolding trim parse_ssh_options_map
  parse_yaml_ssh_options_field raw =
      parse_yaml_value raw (codes "SSH Options") >>= λ value. options_of value
