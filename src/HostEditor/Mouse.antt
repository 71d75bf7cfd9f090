-- ===== src/HostEditor/Mouse.antt =====
-- The mouse in the form: `handle_host_editor_mouse` of src/tui/features/host_editor/mouse.rs, with what it
-- leads to. What happens outside of the form is asked for, and done by the caller.
pub mod Points
pub mod Kept
use mathlib.Core.Option
use color_ssh.Base.{
  ℕ, ◌+◌, ◌-◌, ◌==◌, min, max, Option, none, some, Bool, true, false, not, ◌&&◌, ◌||◌,
  if◌then◌else◌, List, [], ◌∷◌, length, Text, text_eq,
}
use color_ssh.HostEditor.Fields.{
  HostEditorField, save, delete, cancel, HostEditorVisibleItem, section_header, field_item,
  HostEditorState, input,
}
use color_ssh.HostEditor.Selecting.{
  in_mode, item_at, toggle_section, select_next_field, select_prev_field,
}
use color_ssh.HostEditor.Choices.{finish_mouse_selection, cycle_identities_only_forward}
use color_ssh.HostEditor.Typing.{begin_mouse_selection, extend_mouse_selection, selection_for_field}
use color_ssh.HostEditor.Layout.{
  Rect, saturating_add, body_items, body_viewport_height, EditorScrollbarGeometry,
  scroll_offset_from_scrollbar_row, host_editor_scrollbar_geometry, host_editor_body_content_width,
  point_in_rect, host_editor_item_at_point, host_editor_text_offset,
}

-- What is asked for: the form is submitted or closed, or another dialog is opened.
pub data Asks : Type 0 where
  nothing submit confirm_delete close_tab open_picker : Asks

-- The item that a place of the scrollbar selects.
abbrev pub item_of_offset : List HostEditorVisibleItem → ℕ → ℕ → HostEditorVisibleItem
item_of_offset items viewport_height target_offset =
    let target_selected_row = target_offset + (viewport_height - 1) in
    let clamped_selected_row = min (max 2 target_selected_row) (length items + 2 - 1) in
    item_at items (min (clamped_selected_row - 2) (length items - 1))

abbrev pub scrolled_to :
    ℕ
    → ℕ
    → HostEditorState
    → List HostEditorVisibleItem
    → Option EditorScrollbarGeometry
    → HostEditorState
scrolled_to mouse_row viewport_height s items none = s
scrolled_to mouse_row viewport_height s [] scrollbar = s
scrolled_to mouse_row viewport_height s items (some scrollbar) =
    let target_offset =
      min (scroll_offset_from_scrollbar_row scrollbar mouse_row) scrollbar.max_offset in
    finish_mouse_selection
      (record s { selected = item_of_offset items viewport_height target_offset })

unfoldable pub set_scroll_from_scrollbar_row : ℕ → Rect → HostEditorState → HostEditorState
unfolding body_items host_editor_scrollbar_geometry scroll_offset_from_scrollbar_row
set_scroll_from_scrollbar_row mouse_row inner_area s =
    scrolled_to mouse_row (body_viewport_height inner_area.height) s (body_items s)
      (host_editor_scrollbar_geometry s inner_area)

abbrev pub text_column : HostEditorField → ℕ → Rect → HostEditorState → Option ℕ
text_column field mouse_col inner_area s =
    host_editor_text_offset s inner_area (host_editor_body_content_width s inner_area) field
      mouse_col

abbrev pub begun : HostEditorField → HostEditorState → Option ℕ → HostEditorState
begun field s none = s
begun field s (some offset) = begin_mouse_selection field offset s

-- A click at an item, which is selected first.
abbrev pub click_item : ℕ → Rect → HostEditorVisibleItem → HostEditorState → HostEditorState × Asks
click_item mouse_col inner_area (section_header section) s = (toggle_section section s, nothing)
click_item mouse_col inner_area (field_item save) s = (s, submit)
click_item mouse_col inner_area (field_item delete) s = (s, confirm_delete)
click_item mouse_col inner_area (field_item cancel) s = (s, close_tab)
click_item mouse_col inner_area (field_item HostEditorField.identities_only) s =
    (cycle_identities_only_forward s, nothing)
click_item mouse_col inner_area (field_item field) s =
    (begun field s (text_column field mouse_col inner_area s), nothing)

abbrev pub clicked :
    ℕ → Rect → HostEditorState → Option HostEditorVisibleItem → HostEditorState × Asks
clicked mouse_col inner_area s none = (finish_mouse_selection s, nothing)
clicked mouse_col inner_area s (some item) =
    click_item mouse_col inner_area item (record (finish_mouse_selection s) { selected = item })

unfoldable pub left_click : ℕ → ℕ → Rect → HostEditorState → HostEditorState × Asks
unfolding host_editor_item_at_point toggle_section host_editor_text_offset begin_mouse_selection
    host_editor_scrollbar_geometry cycle_identities_only_forward
left_click mouse_col mouse_row inner_area s =
    clicked mouse_col inner_area s
      (host_editor_item_at_point s (mouse_row - inner_area.y) mouse_col inner_area)

abbrev pub mouse_drag_field : HostEditorState → Option HostEditorField
mouse_drag_field s = Option.map (λ anchor. anchor.0) s.drag_anchor

abbrev pub extended : HostEditorState → Option ℕ → HostEditorState
extended s none = s
extended s (some offset) = extend_mouse_selection offset s

abbrev pub dragged_in : ℕ → Rect → HostEditorState → Option HostEditorField → HostEditorState
dragged_in mouse_col inner_area s none = s
dragged_in mouse_col inner_area s (some field) =
    extended s (text_column field mouse_col inner_area s)

unfoldable pub left_drag : ℕ → Rect → HostEditorState → HostEditorState
unfolding host_editor_text_offset extend_mouse_selection host_editor_scrollbar_geometry
left_drag mouse_col inner_area s = dragged_in mouse_col inner_area s (mouse_drag_field s)

abbrev pub no_span : Option (ℕ × ℕ) → Bool
no_span none = true
no_span (some selection) = false

-- The folder picker opens behind a click in the folder's path that selects nothing.
abbrev pub asks_picker : HostEditorState → Option HostEditorField → Asks
asks_picker s (some HostEditorField.folder_path) =
    if no_span (selection_for_field HostEditorField.folder_path s) then open_picker else nothing
asks_picker s field = nothing

unfoldable pub left_release : ℕ → Rect → HostEditorState → HostEditorState × Asks
unfolding left_drag selection_for_field
left_release mouse_col inner_area s =
    let t = left_drag mouse_col inner_area s in
    (finish_mouse_selection t, asks_picker t (mouse_drag_field s))

pub data MouseEventKind : Type 0 where
  left_down left_up left_drag_kind scroll_up scroll_down other_kind : MouseEventKind

pub record MouseEvent : Type 0 where
  pub kind : MouseEventKind
  pub column : ℕ
  pub row : ℕ

-- The form, whether its scrollbar is dragged, and what is asked for.
pub record Moused : Type 0 where
  pub form : HostEditorState
  pub is_dragging_scrollbar : Bool
  pub asks : Asks

abbrev pub moused : Bool → HostEditorState × Asks → Moused
moused dragging (form, asks) = record { form = form; is_dragging_scrollbar = dragging; asks = asks }

-- `host_editor_tab_layout`
abbrev pub inner_of : Rect → Rect
inner_of area = record {
  x = saturating_add area.x 1;
  y = saturating_add area.y 1;
  width = area.width - 2;
  height = area.height - 2;
}

abbrev pub hits : Option EditorScrollbarGeometry → MouseEvent → Bool
hits none mouse = false
hits (some scrollbar) mouse = point_in_rect scrollbar.area mouse.column mouse.row

unfoldable pub left_press : MouseEvent → Rect → HostEditorState → Moused
unfolding host_editor_scrollbar_geometry set_scroll_from_scrollbar_row left_click
left_press mouse area s =
    let inner_area = inner_of area in
    if not (point_in_rect area mouse.column mouse.row)
    then moused false (finish_mouse_selection s, nothing)
    else if not (point_in_rect inner_area mouse.column mouse.row)
    then moused false (finish_mouse_selection s, nothing)
    else if hits (host_editor_scrollbar_geometry s inner_area) mouse
    then moused true (set_scroll_from_scrollbar_row mouse.row inner_area s, nothing)
    else moused false (left_click mouse.column mouse.row inner_area s)

abbrev pub drag_or_scroll : MouseEvent → Rect → Bool → HostEditorState → Moused
drag_or_scroll mouse inner_area true s =
    moused true (set_scroll_from_scrollbar_row mouse.row inner_area s, nothing)
drag_or_scroll mouse inner_area false s =
    moused false (left_drag mouse.column inner_area s, nothing)

abbrev pub release : MouseEvent → Rect → Bool → HostEditorState → Moused
release mouse inner_area true s = moused false (s, nothing)
release mouse inner_area false s = moused false (left_release mouse.column inner_area s)

abbrev pub by_kind : MouseEventKind → MouseEvent → Rect → Bool → HostEditorState → Moused
by_kind left_down mouse area dragging s = left_press mouse area s
by_kind scroll_up mouse area dragging s = moused dragging (select_prev_field s, nothing)
by_kind scroll_down mouse area dragging s = moused dragging (select_next_field s, nothing)
by_kind left_drag_kind mouse area dragging s = drag_or_scroll mouse (inner_of area) dragging s
by_kind left_up mouse area dragging s = release mouse (inner_of area) dragging s
by_kind other_kind mouse area dragging s = moused dragging (s, nothing)

unfoldable pub handle_host_editor_mouse : MouseEvent → Rect → Bool → HostEditorState → Moused
unfolding left_press left_drag left_release set_scroll_from_scrollbar_row select_prev_field
    select_next_field
handle_host_editor_mouse mouse tab_content_area dragging s =
    if tab_content_area.width == 0 || tab_content_area.height == 0
    then moused dragging (s, nothing)
    else by_kind mouse.kind mouse tab_content_area dragging s

-- The path of the folder that is picked, or that the form is opened with.
unfoldable pub with_folder : Text → HostEditorState → HostEditorState
with_folder path s = record s { folder_path = input path }

-- `submit_folder_picker`, for the placement of a new host
unfoldable pub place_in_folder : Text → Text → HostEditorState → HostEditorState
unfolding with_folder
place_in_folder source_file path s =
    if in_mode s.mode && text_eq s.source_file source_file
    then record (with_folder path s) { error = none }
    else s
