-- ===== src/HostEditor/Typing.antt =====
-- The text of the form's fields: typing, the mouse, and how far a field is scrolled
-- (src/tui/state/host_editor.rs). `none` is a panic of the text editing.
pub mod Scrolled
use mathlib.Core.Option
use color_ssh.Base.{
  ℕ, ◌+◌, ◌-◌, ◌==◌, min, ltb, leb, Option, none, some, Bool, true, false, ◌&&◌, ◌||◌, not,
  if◌then◌else◌, Text,
}
use color_ssh.TextEdit.{
  Field, char_len, normalized_selection, move_cursor_left, move_cursor_right, move_cursor_home,
  move_cursor_end, select_all, insert_char, backspace, delete_char,
}
use color_ssh.TextEdit
use color_ssh.HostEditor.Fields.{
  HostEditorField, HostEditorState, HostEditorVisibleItem, field_item, as_field, item_eq,
}
use color_ssh.HostEditor.Choices.{
  finish_mouse_selection, sync_profile_index_from_value, sync_vault_pass_index_from_value,
}

unfoldable pub text_field : HostEditorField → HostEditorState → Option Field
text_field HostEditorField.name s = some (s.name)
text_field HostEditorField.description s = some (s.description)
text_field HostEditorField.protocol s = some (s.protocol)
text_field HostEditorField.host_field s = some (s.host)
text_field HostEditorField.user s = some (s.user)
text_field HostEditorField.port s = some (s.port)
text_field HostEditorField.profile s = some (s.profile)
text_field HostEditorField.vault_pass s = some (s.vault_pass)
text_field HostEditorField.identity_file s = some (s.identity_file)
text_field HostEditorField.proxy_jump s = some (s.proxy_jump)
text_field HostEditorField.proxy_command s = some (s.proxy_command)
text_field HostEditorField.forward_agent s = some (s.forward_agent)
text_field HostEditorField.local_forward s = some (s.local_forward)
text_field HostEditorField.remote_forward s = some (s.remote_forward)
text_field HostEditorField.ssh_options s = some (s.ssh_options)
text_field HostEditorField.rdp_domain s = some (s.rdp_domain)
text_field HostEditorField.rdp_args s = some (s.rdp_args)
text_field HostEditorField.folder_path s = some (s.folder_path)
text_field field s = none

-- What is written through `text_field_mut`.
unfoldable pub set_text_field : HostEditorField → Field → HostEditorState → HostEditorState
set_text_field HostEditorField.name f s = record s { name = f }
set_text_field HostEditorField.description f s = record s { description = f }
set_text_field HostEditorField.protocol f s = record s { protocol = f }
set_text_field HostEditorField.host_field f s = record s { host = f }
set_text_field HostEditorField.user f s = record s { user = f }
set_text_field HostEditorField.port f s = record s { port = f }
set_text_field HostEditorField.profile f s = record s { profile = f }
set_text_field HostEditorField.vault_pass f s = record s { vault_pass = f }
set_text_field HostEditorField.identity_file f s = record s { identity_file = f }
set_text_field HostEditorField.proxy_jump f s = record s { proxy_jump = f }
set_text_field HostEditorField.proxy_command f s = record s { proxy_command = f }
set_text_field HostEditorField.forward_agent f s = record s { forward_agent = f }
set_text_field HostEditorField.local_forward f s = record s { local_forward = f }
set_text_field HostEditorField.remote_forward f s = record s { remote_forward = f }
set_text_field HostEditorField.ssh_options f s = record s { ssh_options = f }
set_text_field HostEditorField.rdp_domain f s = record s { rdp_domain = f }
set_text_field HostEditorField.rdp_args f s = record s { rdp_args = f }
set_text_field HostEditorField.folder_path f s = record s { folder_path = f }
set_text_field field f s = s

-- An operation on the text of a field, where it has one.
abbrev pub apply_to :
    HostEditorField
    → HostEditorState
    → (Field → Option Field)
    → Option Field
    → Option HostEditorState
apply_to field s op none = some s
apply_to field s op (some f) = Option.map (λ g. set_text_field field g s) (op f)

unfoldable pub with_text_field :
    (Field → Option Field) → HostEditorField → HostEditorState → Option HostEditorState
unfolding text_field set_text_field
with_text_field op field s = apply_to field s op (text_field field s)

abbrev moved : (Field → Field) → HostEditorField → HostEditorState → Option HostEditorState
moved op field s = with_text_field (λ f. some (op f)) field (finish_mouse_selection s)

-- The index of the profile or the entry follows its text.
abbrev pub sync_of : HostEditorField → HostEditorState → HostEditorState
sync_of HostEditorField.profile s = sync_profile_index_from_value s
sync_of HostEditorField.vault_pass s = sync_vault_pass_index_from_value s
sync_of field s = s

abbrev pub typed :
    (Field → Option Field) → HostEditorField → HostEditorState → Option HostEditorState
typed op field s = Option.map (sync_of field) (with_text_field op field (finish_mouse_selection s))

unfoldable pub move_left : HostEditorField → HostEditorState → Option HostEditorState
unfolding with_text_field move_cursor_left
move_left field s = moved move_cursor_left field s

unfoldable pub move_right : HostEditorField → HostEditorState → Option HostEditorState
unfolding with_text_field move_cursor_right
move_right field s = moved move_cursor_right field s

unfoldable pub move_home : HostEditorField → HostEditorState → Option HostEditorState
unfolding with_text_field
move_home field s = moved move_cursor_home field s

unfoldable pub move_end : HostEditorField → HostEditorState → Option HostEditorState
unfolding with_text_field
move_end field s = moved move_cursor_end field s

unfoldable pub select_all_of : HostEditorField → HostEditorState → Option HostEditorState
unfolding with_text_field select_all
select_all_of field s = moved select_all field s

unfoldable pub type_char : ℕ → HostEditorField → HostEditorState → Option HostEditorState
unfolding with_text_field insert_char sync_profile_index_from_value sync_vault_pass_index_from_value
type_char ch field s = typed (insert_char ch) field s

unfoldable pub erase_char : HostEditorField → HostEditorState → Option HostEditorState
unfolding with_text_field backspace sync_profile_index_from_value sync_vault_pass_index_from_value
erase_char field s = typed backspace field s

unfoldable pub erase_next : HostEditorField → HostEditorState → Option HostEditorState
unfolding with_text_field delete_char sync_profile_index_from_value sync_vault_pass_index_from_value
erase_next field s = typed delete_char field s

-- The mouse sets the cursor, and remembers where it went down.
abbrev cursor_at : ℕ → Field → ℕ
cursor_at column f = min column (char_len f.text)

abbrev pressed : HostEditorField → ℕ → HostEditorState → Option Field → HostEditorState
pressed field column s none = s
pressed field column s (some f) =
    record (set_text_field field (record f { cursor = cursor_at column f; selection = none }) s) {
      drag_anchor = some (field, cursor_at column f);
    }

unfoldable pub begin_mouse_selection : HostEditorField → ℕ → HostEditorState → HostEditorState
unfolding text_field set_text_field
begin_mouse_selection field column s =
    pressed field column (finish_mouse_selection s) (text_field field s)

abbrev span : ℕ → ℕ → Option (ℕ × ℕ)
span anchor cursor = if cursor == anchor then none else some (anchor, cursor)

abbrev pub dragged : HostEditorField → ℕ → ℕ → HostEditorState → Option Field → HostEditorState
dragged field anchor column s none = s
dragged field anchor column s (some f) =
    set_text_field field
      (record f { cursor = cursor_at column f; selection = span anchor (cursor_at column f) }) s

abbrev pub extended_from : Option (HostEditorField × ℕ) → ℕ → HostEditorState → HostEditorState
extended_from none column s = s
extended_from (some (field, anchor)) column s = dragged field anchor column s (text_field field s)

unfoldable pub extend_mouse_selection : ℕ → HostEditorState → HostEditorState
unfolding text_field set_text_field
extend_mouse_selection column s = extended_from s.drag_anchor column s

unfoldable pub cursor_for_field : HostEditorField → HostEditorState → Option ℕ
unfolding text_field
cursor_for_field field s = Option.map (λ f. f.cursor) (text_field field s)

abbrev selection_of : Option Field → Option (ℕ × ℕ)
selection_of none = none
selection_of (some f) = normalized_selection f.text f.selection

unfoldable pub selection_for_field : HostEditorField → HostEditorState → Option (ℕ × ℕ)
unfolding text_field normalized_selection
selection_for_field field s = selection_of (text_field field s)

-- The outer option is the panic.
abbrev text_selected : Option Field → Option (Option Text)
text_selected none = some none
text_selected (some f) = TextEdit.selected_text f.text f.selection

abbrev selected_in : HostEditorState → Option HostEditorField → Option (Option Text)
selected_in s none = some none
selected_in s (some field) = text_selected (text_field field s)

unfoldable pub selected_text : HostEditorState → Option (Option Text)
unfolding text_field TextEdit.selected_text
selected_text s = selected_in s (as_field s.selected)

-- The first character that is shown of a text with the cursor in it, in a field of some width. A cell is
-- kept for the cursor behind the last character.
abbrev shown_width : ℕ → ℕ → ℕ → ℕ
shown_width len cursor width = if cursor == len && ltb 0 width then width - 1 else width

abbrev scroll_start : ℕ → ℕ → ℕ → ℕ
scroll_start len cursor visible_chars =
    if len == 0 || visible_chars == 0 || leb len visible_chars
    then 0
    else min (if leb visible_chars cursor then cursor + 1 - visible_chars else 0)
        (len - visible_chars)

unfoldable pub scroll_offset : ℕ → ℕ → ℕ → ℕ
scroll_offset len cursor width = scroll_start len cursor (shown_width len cursor width)

abbrev scrolled : Option Field → Bool → ℕ → ℕ
scrolled none selected value_width = 0
scrolled (some f) selected value_width =
    if selected
    then scroll_offset (char_len f.text) (min f.cursor (char_len f.text)) value_width
    else 0

unfoldable pub field_horizontal_scroll_offset : HostEditorField → ℕ → HostEditorState → ℕ
unfolding text_field scroll_offset item_eq
field_horizontal_scroll_offset field value_width s =
    scrolled (text_field field s) (item_eq s.selected (field_item field)) value_width
