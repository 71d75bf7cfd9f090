-- ===== src/HostEditor/Selecting.antt =====
-- What the form shows, and the steps of its selection (src/tui/state/host_editor.rs).
pub mod Shown
pub mod Steps
use color_ssh.Base.{
  ℕ, zero, suc, ◌+◌, ◌-◌, ◌==◌, Text, codes, Option, none, some, Bool, true, false, not, ◌&&◌, ◌||◌,
  List, [], ◌∷◌, ◌++◌, if◌then◌else◌, any, length, get_elem?, map, retain, is_empty, text_eq, trim,
}
use color_ssh.TextEdit.{Field}
use color_ssh.HostEditor.Menu.{next_of, prev_of}
use color_ssh.HostEditor.Fields.{
  HostEditorMode, create, edit, HostEditorField, HostEditorField.name, HostEditorField.protocol,
  HostEditorField.profile, HostEditorField.identity_file, HostEditorField.identities_only,
  HostEditorField.proxy_jump, HostEditorField.proxy_command, HostEditorField.forward_agent,
  HostEditorField.local_forward, HostEditorField.remote_forward, HostEditorField.ssh_options,
  HostEditorField.rdp_domain, HostEditorField.rdp_args, HostEditorField.folder_path, save, delete,
  cancel, HostEditorSection, HostEditorVisibleItem, section_header, field_item, section_eq, item_eq,
  ordered, is_collapsible, as_field, HostEditorState, input, is_rdp, section_template_fields,
  section_for_field,
}

-- The kind of a form: whether its protocol is RDP, and its mode.
abbrev pub in_mode : HostEditorMode → Bool
in_mode create = true
in_mode edit = false

unfoldable pub matches_context : Bool → HostEditorMode → HostEditorField → Bool
matches_context rdp mode HostEditorField.profile = not rdp
matches_context rdp mode HostEditorField.identity_file = not rdp
matches_context rdp mode HostEditorField.identities_only = not rdp
matches_context rdp mode HostEditorField.proxy_jump = not rdp
matches_context rdp mode HostEditorField.proxy_command = not rdp
matches_context rdp mode HostEditorField.forward_agent = not rdp
matches_context rdp mode HostEditorField.local_forward = not rdp
matches_context rdp mode HostEditorField.remote_forward = not rdp
matches_context rdp mode HostEditorField.ssh_options = not rdp
matches_context rdp mode HostEditorField.rdp_domain = rdp
matches_context rdp mode HostEditorField.rdp_args = rdp
matches_context rdp mode HostEditorField.folder_path = in_mode mode
matches_context rdp mode field = true

abbrev pub fields_of : Bool → HostEditorMode → HostEditorSection → List HostEditorField
fields_of rdp mode section = retain (matches_context rdp mode) (section_template_fields section)

abbrev pub no_fields : List HostEditorField → Bool
no_fields [] = true
no_fields (field ∷ fields) = false

unfoldable pub sections_of : Bool → HostEditorMode → List HostEditorSection
unfolding matches_context
sections_of rdp mode = retain (λ section. not (no_fields (fields_of rdp mode section))) ordered

abbrev pub collapsed_in : (HostEditorSection → Bool) → HostEditorSection → Bool
collapsed_in collapsed section = is_collapsible section && collapsed section

abbrev pub section_items :
    Bool
    → HostEditorMode
    → (HostEditorSection → Bool)
    → List HostEditorSection
    → List HostEditorVisibleItem
section_items rdp mode collapsed [] = []
section_items rdp mode collapsed (section ∷ sections) =
    section_header section
      ∷ (if collapsed_in collapsed section
          then []
          else map (λ field. field_item field) (fields_of rdp mode section))
    ++ section_items rdp mode collapsed sections

abbrev pub action_items : HostEditorMode → List HostEditorVisibleItem
action_items create = field_item save ∷ field_item cancel ∷ []
action_items edit = field_item save ∷ field_item delete ∷ field_item cancel ∷ []

unfoldable pub items_of :
    Bool → HostEditorMode → (HostEditorSection → Bool) → List HostEditorVisibleItem
unfolding sections_of matches_context
items_of rdp mode collapsed =
    section_items rdp mode collapsed (sections_of rdp mode) ++ action_items mode

abbrev pub field_matches_context : HostEditorState → HostEditorField → Bool
field_matches_context s field = matches_context (is_rdp s) s.mode field

abbrev pub visible_section_fields : HostEditorState → HostEditorSection → List HostEditorField
visible_section_fields s section = fields_of (is_rdp s) s.mode section

abbrev pub visible_sections : HostEditorState → List HostEditorSection
visible_sections s = sections_of (is_rdp s) s.mode

abbrev pub section_collapsed : HostEditorState → HostEditorSection → Bool
section_collapsed s section = collapsed_in s.collapsed_sections section

unfoldable pub visible_items : HostEditorState → List HostEditorVisibleItem
unfolding items_of is_rdp
visible_items s = items_of (is_rdp s) s.mode s.collapsed_sections

-- `contains`
abbrev pub shows : List HostEditorVisibleItem → HostEditorVisibleItem → Bool
shows items item = any (item_eq item) items

-- `position`
unfoldable pub position : HostEditorVisibleItem → List HostEditorVisibleItem → Option ℕ
unfolding item_eq
position item [] = none
position item (first ∷ items) =
    let later = position item items in
    if item_eq first item
    then some 0
    else elim later [ none ↦ none | some index ↦ some (index + 1) ]

abbrev pub item_at : List HostEditorVisibleItem → ℕ → HostEditorVisibleItem
item_at [] index = field_item save
item_at (item ∷ items) zero = item
item_at (item ∷ items) (suc index) = item_at items index

-- The item of a step from another; the first where that one is not shown.
unfoldable pub step_from :
    (ℕ → ℕ → ℕ) → HostEditorVisibleItem → List HostEditorVisibleItem → HostEditorVisibleItem
unfolding position
step_from step item items = elim (position item items) [
  | some index ↦ item_at items (step (length items) index)
  | none ↦ item_at items 0
]

abbrev pub next_visible_item_from :
    HostEditorVisibleItem → List HostEditorVisibleItem → HostEditorVisibleItem
next_visible_item_from = step_from next_of

abbrev pub prev_visible_item_from :
    HostEditorVisibleItem → List HostEditorVisibleItem → HostEditorVisibleItem
prev_visible_item_from = step_from prev_of

unfoldable pub select_next_field : HostEditorState → HostEditorState
unfolding step_from visible_items next_of
select_next_field s = record s { selected = next_visible_item_from s.selected (visible_items s) }

unfoldable pub select_prev_field : HostEditorState → HostEditorState
unfolding step_from visible_items prev_of
select_prev_field s = record s { selected = prev_visible_item_from s.selected (visible_items s) }

-- The header of the section that a field stands in.
abbrev pub header_of : HostEditorVisibleItem → Option HostEditorVisibleItem
header_of (section_header section) = none
header_of (field_item field) = elim (section_for_field field) [
  | some section ↦ some (section_header section)
  | none ↦ none
]

abbrev pub fallback_item : List HostEditorVisibleItem → HostEditorVisibleItem
fallback_item items =
    if shows items (field_item HostEditorField.protocol)
    then field_item HostEditorField.protocol
    else item_at items 0

abbrev pub header_or_fallback :
    List HostEditorVisibleItem → Option HostEditorVisibleItem → HostEditorVisibleItem
header_or_fallback items none = fallback_item items
header_or_fallback items (some header) = if shows items header then header else fallback_item items

abbrev pub visible_or : List HostEditorVisibleItem → HostEditorVisibleItem → HostEditorVisibleItem
visible_or items item = if shows items item then item else header_or_fallback items (header_of item)

unfoldable pub ensure_selected_item_visible : HostEditorState → HostEditorState
unfolding visible_items item_eq
ensure_selected_item_visible s = record s { selected = visible_or (visible_items s) s.selected }

abbrev pub toggled : HostEditorSection → (HostEditorSection → Bool) → HostEditorSection → Bool
toggled section collapsed other =
    if section_eq section other then not (collapsed other) else collapsed other

unfoldable pub toggle_section : HostEditorSection → HostEditorState → HostEditorState
unfolding ensure_selected_item_visible sections_of is_rdp section_eq
toggle_section section s =
    if not (is_collapsible section) || not (any (section_eq section) (visible_sections s))
    then s
    else ensure_selected_item_visible
        (record s { collapsed_sections = toggled section s.collapsed_sections })

unfoldable pub set_protocol_value : Text → HostEditorState → HostEditorState
unfolding ensure_selected_item_visible
set_protocol_value value s = ensure_selected_item_visible (record s { protocol = input value })

abbrev pub default_port : Bool → Text
default_port rdp = if rdp then codes "3389" else codes "22"

unfoldable pub apply_default_port_for_protocol_switch : Bool → HostEditorState → HostEditorState
unfolding is_rdp trim
apply_default_port_for_protocol_switch was_rdp s =
    let current = trim s.port.text in
    if is_empty current || text_eq current (default_port was_rdp)
    then record s { port = input (default_port (is_rdp s)) }
    else s

unfoldable pub toggle_protocol_forward : HostEditorState → HostEditorState
unfolding is_rdp set_protocol_value apply_default_port_for_protocol_switch
toggle_protocol_forward s =
    let was_rdp = is_rdp s in
    apply_default_port_for_protocol_switch was_rdp
      (set_protocol_value (if was_rdp then codes "ssh" else codes "rdp") s)
