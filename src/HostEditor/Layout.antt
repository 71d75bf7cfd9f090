-- ===== src/HostEditor/Layout.antt =====
-- src/tui/features/host_editor/scroll.rs, and the parts of mouse.rs that find what stands at a point:
-- the rows of the form, its scrollbar and the actions in its last row. Additions of u16 stop at 65535.
use mathlib.Core.Option
use color_ssh.Base.{
  ℕ, ◌+◌, ◌-◌, ◌*◌, ◌/◌, ◌%◌, ◌^◌, ◌==◌, min, max, ltb, leb, Text, codes, Option, none, some, Bool,
  true, false, not, ◌&&◌, ◌||◌, List, if◌then◌else◌, length, get_elem?, retain,
}
use color_ssh.TextEdit.{Field}
use color_ssh.HostEditor.Fields.{
  HostEditorField, save, delete, cancel, HostEditorVisibleItem, section_header, field_item,
  HostEditorState,
}
use color_ssh.HostEditor.Selecting.{visible_items, shows, position}
use color_ssh.HostEditor.Typing.{text_field, field_horizontal_scroll_offset}

pub record Rect : Type 0 where
  pub x : ℕ
  pub y : ℕ
  pub width : ℕ
  pub height : ℕ

-- `saturating_add` of u16
abbrev pub saturating_add : ℕ → ℕ → ℕ
saturating_add a b = min (a + b) 65535

abbrev pub is_action : HostEditorField → Bool
is_action save = true
is_action delete = true
is_action cancel = true
is_action field = false

abbrev pub is_body : HostEditorVisibleItem → Bool
is_body (section_header section) = true
is_body (field_item field) = not (is_action field)

unfoldable pub body_items : HostEditorState → List HostEditorVisibleItem
unfolding visible_items
body_items s = retain is_body (visible_items s)

-- A row for the file and an empty one stand before the items.
unfoldable pub selected_body_row : HostEditorState → Option ℕ
unfolding body_items position
selected_body_row s = Option.map (λ idx. idx + 2) (position s.selected (body_items s))

abbrev pub footer_visible_lines : ℕ → ℕ
footer_visible_lines inner_height = min 3 inner_height

abbrev pub body_viewport_height : ℕ → ℕ
body_viewport_height inner_height = inner_height - footer_visible_lines inner_height

abbrev pub row_offset : ℕ → Option ℕ → ℕ
row_offset viewport_height none = 0
row_offset viewport_height (some row) =
    if leb viewport_height row then row + 1 - viewport_height else 0

unfoldable pub body_scroll_offset : HostEditorState → ℕ → ℕ → ℕ
unfolding selected_body_row
body_scroll_offset s total_body_lines viewport_height =
    if viewport_height == 0 || leb total_body_lines viewport_height
    then 0
    else min (row_offset viewport_height (selected_body_row s)) (total_body_lines - viewport_height)

pub record EditorScrollbarGeometry : Type 0 where
  pub area : Rect
  pub thumb_top : ℕ
  pub thumb_height : ℕ
  pub max_offset : ℕ

abbrev pub thumb_offset : ℕ → ℕ → ℕ → ℕ
thumb_offset available_track max_offset offset =
    if max_offset == 0 || available_track == 0
    then 0
    else available_track * offset / max_offset % 2 ^ 16

abbrev pub geometry_of : Rect → ℕ → ℕ → ℕ → EditorScrollbarGeometry
geometry_of area total_body_lines viewport_height scroll_offset =
    let max_offset = total_body_lines - viewport_height in
    let thumb_height =
      min (max (area.height * viewport_height / max total_body_lines 1) 1) area.height % 2 ^ 16 in
    record {
      area = area;
      thumb_top =
          saturating_add area.y
            (thumb_offset (area.height - thumb_height) max_offset (min scroll_offset max_offset));
      thumb_height = thumb_height;
      max_offset = max_offset;
    }

unfoldable pub scrollbar_geometry : Rect → ℕ → ℕ → ℕ → Option EditorScrollbarGeometry
scrollbar_geometry inner_area total_body_lines viewport_height scroll_offset =
    if ltb inner_area.width 2 || viewport_height == 0 || leb total_body_lines viewport_height
    then none
    else let area : Rect = record {
      x = saturating_add inner_area.x (inner_area.width - 1);
      y = inner_area.y;
      width = 1;
      height = viewport_height % 2 ^ 16;
    } in
      if area.height == 0
      then none
      else some (geometry_of area total_body_lines viewport_height scroll_offset)

abbrev pub body_content_width : ℕ → Option EditorScrollbarGeometry → ℕ
body_content_width inner_width none = inner_width
body_content_width inner_width (some scrollbar) = inner_width - 1

unfoldable pub scroll_offset_from_scrollbar_row : EditorScrollbarGeometry → ℕ → ℕ
scroll_offset_from_scrollbar_row geometry mouse_row =
    let track_len = geometry.area.height - 1 in
    if geometry.area.height == 0 || geometry.max_offset == 0 || track_len == 0
    then 0
    else (min (mouse_row - geometry.area.y) track_len * geometry.max_offset + track_len / 2)
      / track_len

-- `host_editor_scrollbar_geometry` of mouse.rs
unfoldable pub host_editor_scrollbar_geometry :
    HostEditorState → Rect → Option EditorScrollbarGeometry
unfolding body_items body_scroll_offset scrollbar_geometry
host_editor_scrollbar_geometry s inner_area =
    let total_body_lines = length (body_items s) + 2 in
    let viewport_height = body_viewport_height inner_area.height in
    scrollbar_geometry inner_area total_body_lines viewport_height
      (body_scroll_offset s total_body_lines viewport_height)

abbrev pub host_editor_body_content_width : HostEditorState → Rect → ℕ
host_editor_body_content_width s inner_area =
    body_content_width inner_area.width (host_editor_scrollbar_geometry s inner_area)

-- A rectangle of the screen ends below 65536.
abbrev pub point_in_rect : Rect → ℕ → ℕ → Bool
point_in_rect rect col row =
    ltb 0 rect.width
    && ltb 0 rect.height
    && leb rect.x col
    && ltb col (rect.x + rect.width)
    && leb rect.y row
    && ltb row (rect.y + rect.height)

abbrev pub save_width : ℕ
save_width = length (codes "[ Enter ] Save Entry")

abbrev pub delete_width : ℕ
delete_width = length (codes "[ Ctrl+D ] Delete Entry")

abbrev pub cancel_width : ℕ
cancel_width = length (codes "[ Esc ] Cancel")

abbrev pub separator_width : ℕ
separator_width = length (codes " | ")

abbrev pub is_within : ℕ → ℕ → ℕ → Bool
is_within col from width = leb from col && ltb col (saturating_add from width)

abbrev pub behind : ℕ → ℕ → ℕ
behind from width = saturating_add (saturating_add from width) separator_width

abbrev pub cancel_hit : ℕ → ℕ → Option HostEditorVisibleItem
cancel_hit mouse_col col =
    if is_within mouse_col col cancel_width then some (field_item cancel) else none

abbrev pub delete_hit : ℕ → ℕ → Bool → Option HostEditorVisibleItem
delete_hit mouse_col col false = cancel_hit mouse_col col
delete_hit mouse_col col true =
    if is_within mouse_col col delete_width
    then some (field_item delete)
    else cancel_hit mouse_col (behind col delete_width)

unfoldable pub host_editor_action_hit : Rect → ℕ → Bool → Option HostEditorVisibleItem
host_editor_action_hit inner_area mouse_col include_delete =
    if is_within mouse_col inner_area.x save_width
    then some (field_item save)
    else delete_hit mouse_col (behind inner_area.x save_width) include_delete

unfoldable pub host_editor_item_at_point :
    HostEditorState → ℕ → ℕ → Rect → Option HostEditorVisibleItem
unfolding host_editor_action_hit body_items body_scroll_offset visible_items
host_editor_item_at_point s local_row mouse_col inner_area =
    let viewport_height = body_viewport_height inner_area.height in
    let total_body_lines = length (body_items s) + 2 in
    let absolute_row = body_scroll_offset s total_body_lines viewport_height + local_row in
    if inner_area.height == 0
    then none
    else if local_row == inner_area.height - 1
    then host_editor_action_hit inner_area mouse_col (shows (visible_items s) (field_item delete))
    else if viewport_height == 0 || leb viewport_height local_row
    then none
    else if ltb absolute_row 2
    then none
    else get_elem? (body_items s) (absolute_row - 2)

-- `label`
abbrev pub field_label : HostEditorField → Text
field_label HostEditorField.name = codes "Name"
field_label HostEditorField.description = codes "Description"
field_label HostEditorField.protocol = codes "Protocol"
field_label HostEditorField.host_field = codes "Host"
field_label HostEditorField.user = codes "User"
field_label HostEditorField.port = codes "Port"
field_label HostEditorField.profile = codes "Profile"
field_label HostEditorField.vault_pass = codes "Vault Pass"
field_label HostEditorField.identity_file = codes "Identity File"
field_label HostEditorField.identities_only = codes "IdentitiesOnly"
field_label HostEditorField.proxy_jump = codes "Proxy Jump"
field_label HostEditorField.proxy_command = codes "Proxy Command"
field_label HostEditorField.forward_agent = codes "Forward Agent"
field_label HostEditorField.local_forward = codes "Local Forward"
field_label HostEditorField.remote_forward = codes "Remote Forward"
field_label HostEditorField.ssh_options = codes "SSH Options"
field_label HostEditorField.rdp_domain = codes "RDP Domain"
field_label HostEditorField.rdp_args = codes "RDP Args"
field_label HostEditorField.folder_path = codes "Folder Path"
field_label save = codes "Save Entry"
field_label delete = codes "Delete Entry"
field_label cancel = codes "Cancel"

abbrev pub offset_in : HostEditorState → Rect → ℕ → HostEditorField → ℕ → Option Field → Option ℕ
offset_in s inner_area content_width field mouse_col none = none
offset_in s inner_area content_width field mouse_col (some f) =
    let label_width = length (field_label field) in
    let start_col = saturating_add (saturating_add inner_area.x label_width) 2 in
    some (
      field_horizontal_scroll_offset field (content_width - label_width - 2) s
      + (mouse_col - start_col))

unfoldable pub host_editor_text_offset : HostEditorState → Rect → ℕ → HostEditorField → ℕ → Option ℕ
unfolding text_field field_horizontal_scroll_offset
host_editor_text_offset s inner_area content_width field mouse_col =
    offset_in s inner_area content_width field mouse_col (text_field field s)
