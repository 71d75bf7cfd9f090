-- ===== src/HostEditor/Fields.antt =====
-- The fields and sections of the form, and its state (src/tui/state/host_editor.rs).
use color_ssh.Base.{
  ℕ, ◌==◌, Text, codes, Option, none, some, Bool, true, false, List, [], ◌∷◌, length,
  to_ascii_lowercase, lower, trim, text_eq,
}
use color_ssh.TextEdit.{Field}

pub data HostEditorMode : Type 0 where
  create edit : HostEditorMode

pub data HostEditorField : Type 0 where
  name description protocol host_field user port profile vault_pass : HostEditorField
  identity_file identities_only proxy_jump proxy_command forward_agent : HostEditorField
  local_forward remote_forward ssh_options rdp_domain rdp_args folder_path : HostEditorField
  save delete cancel : HostEditorField

pub data HostEditorSection : Type 0 where
  basic authentication proxy_forwarding advanced_ssh rdp_section placement : HostEditorSection

pub data HostEditorVisibleItem : Type 0 where
  section_header : HostEditorSection → HostEditorVisibleItem
  field_item : HostEditorField → HostEditorVisibleItem

-- Numbers of the constructors, for the comparison that the code derives.
abbrev field_rank : HostEditorField → ℕ
field_rank name = 0
field_rank description = 1
field_rank protocol = 2
field_rank host_field = 3
field_rank user = 4
field_rank port = 5
field_rank profile = 6
field_rank vault_pass = 7
field_rank identity_file = 8
field_rank identities_only = 9
field_rank proxy_jump = 10
field_rank proxy_command = 11
field_rank forward_agent = 12
field_rank local_forward = 13
field_rank remote_forward = 14
field_rank ssh_options = 15
field_rank rdp_domain = 16
field_rank rdp_args = 17
field_rank folder_path = 18
field_rank save = 19
field_rank delete = 20
field_rank cancel = 21

abbrev section_rank : HostEditorSection → ℕ
section_rank basic = 22
section_rank authentication = 23
section_rank proxy_forwarding = 24
section_rank advanced_ssh = 25
section_rank rdp_section = 26
section_rank placement = 27

unfoldable pub item_rank : HostEditorVisibleItem → ℕ
item_rank (section_header section) = section_rank section
item_rank (field_item field) = field_rank field

unfoldable pub section_eq : HostEditorSection → HostEditorSection → Bool
section_eq a b = section_rank a == section_rank b

unfoldable pub item_eq : HostEditorVisibleItem → HostEditorVisibleItem → Bool
unfolding item_rank
item_eq a b = item_rank a == item_rank b

abbrev pub ordered : List HostEditorSection
ordered = basic ∷ authentication ∷ proxy_forwarding ∷ advanced_ssh ∷ rdp_section ∷ placement ∷ []

abbrev pub is_collapsible : HostEditorSection → Bool
is_collapsible basic = false
is_collapsible section = true

abbrev pub as_field : HostEditorVisibleItem → Option HostEditorField
as_field (section_header section) = none
as_field (field_item field) = some field

-- The sections that are collapsed are a test; each input is a `Field` of the text editing.
pub record HostEditorState : Type 0 where
  pub mode : HostEditorMode
  pub source_file : Text
  pub original_name : Option Text
  pub selected : HostEditorVisibleItem
  pub collapsed_sections : HostEditorSection → Bool
  pub name : Field
  pub description : Field
  pub protocol : Field
  pub host : Field
  pub user : Field
  pub port : Field
  pub profile : Field
  pub vault_pass : Field
  pub hidden : Bool
  pub identity_file : Field
  pub identities_only : Option Bool
  pub proxy_jump : Field
  pub proxy_command : Field
  pub forward_agent : Field
  pub local_forward : Field
  pub remote_forward : Field
  pub ssh_options : Field
  pub rdp_domain : Field
  pub rdp_args : Field
  pub folder_path : Field
  pub profile_options : List Text
  pub profile_index : ℕ
  pub vault_pass_options : List Text
  pub vault_pass_index : ℕ
  pub drag_anchor : Option (HostEditorField × ℕ)
  pub error : Option Text

-- `TextInput::new`
abbrev pub input : Text → Field
input value = record { text = value; cursor = length value; selection = none }

-- `eq_ignore_ascii_case`
abbrev pub same_word : Text → Text → Bool
same_word a b = text_eq (to_ascii_lowercase a) (to_ascii_lowercase b)

unfoldable pub is_rdp : HostEditorState → Bool
unfolding trim lower
is_rdp s = same_word (trim s.protocol.text) (codes "rdp")

abbrev pub section_template_fields : HostEditorSection → List HostEditorField
section_template_fields basic = name ∷ description ∷ protocol ∷ host_field ∷ user ∷ port ∷ []
section_template_fields authentication = profile ∷ vault_pass ∷ identity_file ∷ identities_only ∷ []
section_template_fields proxy_forwarding =
    proxy_jump ∷ proxy_command ∷ forward_agent ∷ local_forward ∷ remote_forward ∷ []
section_template_fields advanced_ssh = ssh_options ∷ []
section_template_fields rdp_section = rdp_domain ∷ rdp_args ∷ []
section_template_fields placement = folder_path ∷ []

abbrev pub section_for_field : HostEditorField → Option HostEditorSection
section_for_field name = some basic
section_for_field description = some basic
section_for_field protocol = some basic
section_for_field host_field = some basic
section_for_field user = some basic
section_for_field port = some basic
section_for_field profile = some authentication
section_for_field vault_pass = some authentication
section_for_field identity_file = some authentication
section_for_field identities_only = some authentication
section_for_field proxy_jump = some proxy_forwarding
section_for_field proxy_command = some proxy_forwarding
section_for_field forward_agent = some proxy_forwarding
section_for_field local_forward = some proxy_forwarding
section_for_field remote_forward = some proxy_forwarding
section_for_field ssh_options = some advanced_ssh
section_for_field rdp_domain = some rdp_section
section_for_field rdp_args = some rdp_section
section_for_field folder_path = some placement
section_for_field save = none
section_for_field delete = none
section_for_field cancel = none
