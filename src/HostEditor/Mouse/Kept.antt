-- ===== src/HostEditor/Mouse/Kept.antt =====
-- The selection stays shown under the mouse, and when a folder is picked.
use color_ssh.Base.{
  ℕ, ◌==◌, ◌-◌, min, Option, none, some, Bool, true, false, not, ◌||◌, List, [], ◌∷◌, if◌then◌else◌,
  Text, text_eq, ◌&&◌, ◌≡◌, refl, sym, subst,
}
use color_ssh.HostEditor.Fields.{
  HostEditorField, save, delete, cancel, HostEditorVisibleItem, section_header, field_item,
  HostEditorState, is_rdp,
}
use color_ssh.HostEditor.Selecting.{in_mode, visible_items, shows}
use color_ssh.HostEditor.Selecting.Shown.{
  IsShown, kept, toggle_section-IsShown, select_next_field-IsShown, select_prev_field-IsShown,
}
use color_ssh.HostEditor.Choices.{finish_mouse_selection, cycle_identities_only_forward}
use color_ssh.HostEditor.Typing.{
  text_field, set_text_field, begin_mouse_selection, extend_mouse_selection, dragged, extended_from,
}
use color_ssh.HostEditor.Mouse.Points.{shows-retain, item_of_offset-shown, item_at_point-shown}
use color_ssh.HostEditor.Layout.{
  Rect, body_viewport_height, scroll_offset_from_scrollbar_row, host_editor_scrollbar_geometry,
  point_in_rect, body_items, EditorScrollbarGeometry, host_editor_item_at_point,
}
use color_ssh.HostEditor.Mouse.{
  item_of_offset, scrolled_to, set_scroll_from_scrollbar_row, begun, click_item, clicked,
  left_click, left_drag, dragged_in, extended, left_release, text_column, mouse_drag_field,
  left_press, by_kind, handle_host_editor_mouse, MouseEvent, MouseEventKind, left_down, left_up,
  left_drag_kind, scroll_up, scroll_down, other_kind, Moused, with_folder, place_in_folder,
  inner_of, nothing, moused, hits,
}

scrolled-IsShown :
    (mouse_row viewport_height : ℕ) (s : HostEditorState) (items : List HostEditorVisibleItem)
    (scrollbar : Option EditorScrollbarGeometry)
    → body_items s ≡ items
    → IsShown s
    → IsShown (scrolled_to mouse_row viewport_height s items scrollbar)
unfolding visible_items body_items
scrolled-IsShown mouse_row viewport_height s items none e h = h
scrolled-IsShown mouse_row viewport_height s [] (some scrollbar) e h = h
scrolled-IsShown mouse_row viewport_height s (first ∷ items) (some scrollbar) e h =
    let target_offset =
      min (scroll_offset_from_scrollbar_row scrollbar mouse_row) scrollbar.max_offset in
    let item = item_of_offset (first ∷ items) viewport_height target_offset in
    shows-retain (visible_items s) item (
      subst (λ all. shows all item ≡ true) (sym e)
        (item_of_offset-shown first items viewport_height target_offset))

set_scroll-IsShown :
    (mouse_row : ℕ) (inner_area : Rect) (s : HostEditorState)
    → IsShown s
    → IsShown (set_scroll_from_scrollbar_row mouse_row inner_area s)
unfolding set_scroll_from_scrollbar_row
set_scroll-IsShown mouse_row inner_area s h =
    scrolled-IsShown mouse_row (body_viewport_height inner_area.height) s (body_items s)
      (host_editor_scrollbar_geometry s inner_area) refl h

begin-IsShown :
    (field : HostEditorField) (column : ℕ) (s : HostEditorState)
    → IsShown s
    → IsShown (begin_mouse_selection field column s)
unfolding begin_mouse_selection text_field set_text_field visible_items is_rdp
begin-IsShown HostEditorField.name column s h = h
begin-IsShown field column s h = h

drag-IsShown :
    (field : HostEditorField) (anchor column : ℕ) (s : HostEditorState)
    → IsShown s
    → IsShown (dragged field anchor column s (text_field field s))
unfolding text_field set_text_field visible_items is_rdp
drag-IsShown HostEditorField.name anchor column s h = h
drag-IsShown field anchor column s h = h

extended_from-IsShown :
    (anchor : Option (HostEditorField × ℕ)) (column : ℕ) (s : HostEditorState)
    → IsShown s
    → IsShown (extended_from anchor column s)
extended_from-IsShown none column s h = h
extended_from-IsShown (some (field, anchor)) column s h = drag-IsShown field anchor column s h

extend-IsShown :
    (column : ℕ) (s : HostEditorState) → IsShown s → IsShown (extend_mouse_selection column s)
unfolding extend_mouse_selection
extend-IsShown column s h = extended_from-IsShown s.drag_anchor column s h

begun-IsShown :
    (field : HostEditorField) (s : HostEditorState) (offset : Option ℕ)
    → IsShown s
    → IsShown (begun field s offset)
begun-IsShown field s none h = h
begun-IsShown field s (some offset) h = begin-IsShown field offset s h

click_item-IsShown :
    (mouse_col : ℕ) (inner_area : Rect) (item : HostEditorVisibleItem) (s : HostEditorState)
    → IsShown s
    → IsShown (click_item mouse_col inner_area item s).0
unfolding cycle_identities_only_forward visible_items
click_item-IsShown mouse_col inner_area (section_header section) s h =
    toggle_section-IsShown section s h
click_item-IsShown mouse_col inner_area (field_item save) s h = h
click_item-IsShown mouse_col inner_area (field_item delete) s h = h
click_item-IsShown mouse_col inner_area (field_item cancel) s h = h
click_item-IsShown mouse_col inner_area (field_item HostEditorField.identities_only) s h = h
click_item-IsShown mouse_col inner_area (field_item field) s h =
    begun-IsShown field s (text_column field mouse_col inner_area s) h

clicked-IsShown :
    (mouse_col : ℕ) (inner_area : Rect) (s : HostEditorState) (item : Option HostEditorVisibleItem)
    → ((found : HostEditorVisibleItem) → item ≡ some found → shows (visible_items s) found ≡ true)
    → IsShown s
    → IsShown (clicked mouse_col inner_area s item).0
unfolding visible_items
clicked-IsShown mouse_col inner_area s none shown h = h
clicked-IsShown mouse_col inner_area s (some item) shown h =
    click_item-IsShown mouse_col inner_area item
      (record (finish_mouse_selection s) { selected = item }) (shown item refl)

left_click-IsShown :
    (mouse_col mouse_row : ℕ) (inner_area : Rect) (s : HostEditorState)
    → IsShown s
    → IsShown (left_click mouse_col mouse_row inner_area s).0
unfolding left_click
left_click-IsShown mouse_col mouse_row inner_area s h =
    clicked-IsShown mouse_col inner_area s
      (host_editor_item_at_point s (mouse_row - inner_area.y) mouse_col inner_area)
      (item_at_point-shown s (mouse_row - inner_area.y) mouse_col inner_area) h

extended-IsShown :
    (s : HostEditorState) (offset : Option ℕ) → IsShown s → IsShown (extended s offset)
extended-IsShown s none h = h
extended-IsShown s (some offset) h = extend-IsShown offset s h

dragged-IsShown :
    (mouse_col : ℕ) (inner_area : Rect) (s : HostEditorState) (field : Option HostEditorField)
    → IsShown s
    → IsShown (dragged_in mouse_col inner_area s field)
dragged-IsShown mouse_col inner_area s none h = h
dragged-IsShown mouse_col inner_area s (some field) h =
    extended-IsShown s (text_column field mouse_col inner_area s) h

left_drag-IsShown :
    (mouse_col : ℕ) (inner_area : Rect) (s : HostEditorState)
    → IsShown s
    → IsShown (left_drag mouse_col inner_area s)
unfolding left_drag
left_drag-IsShown mouse_col inner_area s h =
    dragged-IsShown mouse_col inner_area s (mouse_drag_field s) h

left_release-IsShown :
    (mouse_col : ℕ) (inner_area : Rect) (s : HostEditorState)
    → IsShown s
    → IsShown (left_release mouse_col inner_area s).0
unfolding left_release visible_items
left_release-IsShown mouse_col inner_area s h = left_drag-IsShown mouse_col inner_area s h

-- One of three outcomes, each of which keeps the selection shown.
of_three :
    (a b c : Bool) (x y z : Moused)
    → IsShown x.form
    → IsShown y.form
    → IsShown z.form
    → IsShown (if a then x else if b then x else if c then y else z).form
of_three true b c x y z h g k = h
of_three false true c x y z h g k = h
of_three false false true x y z h g k = g
of_three false false false x y z h g k = k

left_press-IsShown :
    (mouse : MouseEvent) (area : Rect) (s : HostEditorState)
    → IsShown s
    → IsShown (left_press mouse area s).form
unfolding left_press visible_items
left_press-IsShown mouse area s h =
    of_three (not (point_in_rect area mouse.column mouse.row))
      (not (point_in_rect (inner_of area) mouse.column mouse.row))
      (hits (host_editor_scrollbar_geometry s (inner_of area)) mouse)
      (moused false (finish_mouse_selection s, nothing))
      (moused true (set_scroll_from_scrollbar_row mouse.row (inner_of area) s, nothing))
      (moused false (left_click mouse.column mouse.row (inner_of area) s)) h
      (set_scroll-IsShown mouse.row (inner_of area) s h)
      (left_click-IsShown mouse.column mouse.row (inner_of area) s h)

by_kind-IsShown :
    (kind : MouseEventKind) (mouse : MouseEvent) (area : Rect) (dragging : Bool)
    (s : HostEditorState)
    → IsShown s
    → IsShown (by_kind kind mouse area dragging s).form
by_kind-IsShown left_down mouse area dragging s h = left_press-IsShown mouse area s h
by_kind-IsShown scroll_up mouse area dragging s h = select_prev_field-IsShown s
by_kind-IsShown scroll_down mouse area dragging s h = select_next_field-IsShown s
by_kind-IsShown left_drag_kind mouse area true s h =
    set_scroll-IsShown mouse.row (inner_of area) s h
by_kind-IsShown left_drag_kind mouse area false s h =
    left_drag-IsShown mouse.column (inner_of area) s h
by_kind-IsShown left_up mouse area true s h = h
by_kind-IsShown left_up mouse area false s h = left_release-IsShown mouse.column (inner_of area) s h
by_kind-IsShown other_kind mouse area dragging s h = h

pub mouse-IsShown :
    (mouse : MouseEvent) (content : Rect) (dragging : Bool) (s : HostEditorState)
    → IsShown s
    → IsShown (handle_host_editor_mouse mouse content dragging s).form
unfolding handle_host_editor_mouse
mouse-IsShown mouse content dragging s h =
    of_three (content.width == 0 || content.height == 0) false false (moused dragging (s, nothing))
      (by_kind mouse.kind mouse content dragging s) (by_kind mouse.kind mouse content dragging s) h
      (by_kind-IsShown mouse.kind mouse content dragging s h)
      (by_kind-IsShown mouse.kind mouse content dragging s h)

pub with_folder-IsShown :
    (path : Text) (s : HostEditorState) → IsShown s → IsShown (with_folder path s)
unfolding with_folder visible_items
with_folder-IsShown path s h = h

pub place_in_folder-IsShown :
    (source_file path : Text) (s : HostEditorState)
    → IsShown s
    → IsShown (place_in_folder source_file path s)
unfolding place_in_folder with_folder visible_items
place_in_folder-IsShown source_file path s h =
    kept (in_mode s.mode && text_eq s.source_file source_file)
      (record (with_folder path s) { error = none }) s h h
